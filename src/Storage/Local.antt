-- ===== src/Storage/Local.antt =====
-- infrastructure/storage/localvault: a vault over a directory of files. local.go and helpers.go, and the
-- parts of scan.go that keep the caches.
pub mod Mutations
pub mod Versions
pub mod Updates
pub mod Sync
pub mod Queries
pub mod Scan
pub mod Linked
pub mod Indexed
pub mod Runs
pub mod Synced
pub mod Deleted
pub mod MovePlan
pub mod Moved
pub mod Watcher
use para_mcp.Prelude.{
  ℕ, zero, suc, Bool, true, false, not, ◌&&◌, Option, none, some, List, [], ◌∷◌, ◌++◌, length,
  if◌then◌else◌,
}
use para_mcp.Prelude.Int.{ℤ}
use para_mcp.Prelude.Assoc.{Assoc, get, put, remove}
use para_mcp.Prelude.Text.{Text, Unicode, codes, same, cut_prefix, dec_text}
use para_mcp.Prelude.{is_some}
use para_mcp.Domain.Results.{Result, ok, err, Error, not_found, other, ◌>>=◌}
use para_mcp.Domain.Entities.{
  ScopeId, Time, Capabilities, FrontMatter, Note, NoteRef, NoteSummary, MutationResult, Score,
  summary,
}
use para_mcp.Domain.Path.{NormalizedPath, normalize}
use para_mcp.Vault.{Write}
use para_mcp.Storage.Notes.{Codec, parse_note, canonical_yaml, compute_etag}
use para_mcp.Storage.Links.{OutLink, behind_last}
use para_mcp.Storage.Graph.{Graph, links, remove_links, upsert_diff}

-- The calls of the operating system that can fail in their own way.
pub data FileOp : Type 0 where
  read write create_file make_dir rename_file remove_file : FileOp

-- The operating system. `refuse` is the error of a call, other than that a file is there or is not;
-- `torn` is what a refused write leaves of the content, if it has begun; `resolve` is
-- `filepath.EvalSymlinks`.
pub record Os : Type 0 where
  pub refuse : FileOp → Text → Option Error
  pub torn : Text → Option Text
  pub resolve : Text → Option Text

-- `ports.Doc` and `ports.SearchResult`
pub record Doc : Type 0 where
  pub ref : NoteRef
  pub title : Text
  pub body : Text
  pub updated_at : Time

pub record SearchResult : Type 0 where
  pub ref : NoteRef
  pub score : Score
  pub updated_at : Time

-- `ports.FTSIndex` over the state `X` of an index
pub record FtsIndex (X : Type 0) : Type 0 where
  pub add : Doc → X → X
  pub remove_doc : NoteRef → X → X
  pub find : Text → ℤ → X → List SearchResult

-- what a vault is made of and does not change
pub record Site (N : Type 0) (X : Type 0) : Type 0 where
  pub scope : ScopeId
  pub root : Text
  pub capabilities : Capabilities
  pub os : Os
  pub codec : Codec N
  pub fts : FtsIndex X
  pub unicode : Unicode
  pub nfc : Text → Text

-- `files` are the files below the root, by their path from it.
pub record Local (X : Type 0) : Type 0 where
  pub files : Assoc Text Text
  pub cache : Assoc Text NoteSummary
  pub graph : Graph
  pub index : X

-- `SummaryToDoc`
unfoldable pub summary_to_doc : NoteSummary → Text → Doc
summary_to_doc s body = record {
  ref = s.ref;
  title = s.title;
  body = body;
  updated_at = s.updated_at;
}

-- what stands before the last slash
abbrev pub before_slash : ℕ → Option Text → Option Text
before_slash c (some t) = some (c ∷ t)
before_slash c none = none

unfoldable pub parent_text : Text → Option Text
parent_text [] = none
parent_text (c ∷ s) = elim (parent_text s) [
  | some t ↦ some (c ∷ t)
  | none ↦ if same (c ∷ []) (codes "/") then some [] else none
]

-- `filepath.Dir` of a clean path
unfoldable pub dir : Text → Text
unfolding parent_text
dir p = elim (parent_text p) [ none ↦ codes "." | some [] ↦ codes "/" | some (c ∷ s) ↦ c ∷ s ]

-- `evalSymlinksPartial`: the nearest ancestor that resolves. The number of turns is at most the length.
unfoldable pub resolve_partial : Os → ℕ → Text → Option Text
resolve_partial os zero p = none
resolve_partial os (suc n) p =
    let rest = resolve_partial os n (dir p) in
    if same (dir p) p
    then none
    else elim (os.resolve (dir p)) [ some real ↦ some real | none ↦ rest ]

abbrev pub or_partial : Option Text → Option Text → Option Text
or_partial (some real) later = some real
or_partial none later = later

abbrev pub outside_of : Option Text → Option Text → Bool
outside_of (some real) (some vault_real) =
    not (same real vault_real) && not (is_some (cut_prefix (vault_real ++ b'/' ∷ []) real))
outside_of _ _ = false

-- `checkSymlinks`: whether the path resolves outside of the vault's root
unfoldable pub resolves_outside : Os → Text → Text → Bool
unfolding resolve_partial
resolves_outside os root path =
    let abs = root ++ b'/' ∷ path in
    outside_of (or_partial (os.resolve abs) (resolve_partial os (length abs) abs)) (os.resolve root)

module _ {N : Type 0} {X : Type 0} (e : Site N X) where
  abbrev pub inside : Bool → NormalizedPath → Result NormalizedPath
  inside true np = err (other (codes "path resolves outside vault root"))
  inside false np = ok np

  -- `normalizePath`
  unfoldable pub normalize_path : Text → Result NormalizedPath
  unfolding resolves_outside
  normalize_path path = do
    np ← normalize e.unicode e.nfc path e.capabilities.case_sensitive
    inside (resolves_outside e.os e.root np.storage) np

  abbrev pub content : Option Text → Result Text
  content none = err not_found
  content (some raw) = ok raw

  abbrev pub unless_refused : Option Error → Result Text → Result Text
  unless_refused (some refusal) r = err refusal
  unless_refused none r = r

  -- `os.ReadFile`
  abbrev pub read_file : Text → Local X → Result Text
  read_file path w = unless_refused (e.os.refuse read path) (content (get dec_text path w.files))

  unfoldable pub etag_of : FrontMatter → Text → Text
  etag_of fm body = compute_etag e.codec (canonical_yaml e.codec fm) body

  -- the note that a file is read as
  unfoldable pub note_of : Text → FrontMatter × Text → Note
  unfolding etag_of
  note_of path (fm, body) = record {
    ref = record { scope = e.scope; path = path };
    front_matter = fm;
    body = body;
    etag = etag_of fm body;
  }

  -- `readNote`
  unfoldable pub read_note : Text → Local X → Result Note
  unfolding note_of
  read_note path w = do
    raw ← read_file path w
    parts ← parse_note e.codec raw
    ok (note_of path parts)

  -- `upsertWithLinks`
  unfoldable pub upsert_with_links : NormalizedPath → NoteSummary → List OutLink → Local X → Local X
  upsert_with_links np s ls w = record w {
    cache = put dec_text np.index_key s w.cache;
    graph = upsert_diff np.storage (links np.storage w.graph) ls w.graph;
  }

  -- `removeNoteFromAllIndexes`
  unfoldable pub remove_from_indexes : NormalizedPath → Local X → Local X
  remove_from_indexes np w = record w {
    cache = remove dec_text np.index_key w.cache;
    graph = remove_links np.storage w.graph;
    index = e.fts.remove_doc (record { scope = e.scope; path = np.storage }) w.index;
  }

  unfoldable pub index_doc : NoteSummary → Text → Local X → Local X
  index_doc s body w = record w { index = e.fts.add (summary_to_doc s body) w.index }

  abbrev pub mutation_of : Note → MutationResult
  mutation_of note = record { summary = summary e.unicode note; etag = note.etag }
