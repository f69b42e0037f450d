-- ===== src/Service.antt =====
-- application/service.go: `NoteService`, which validates references and scopes before its vault.
pub mod Boundary
pub mod Search
pub mod Hybrid
use para_mcp.Prelude.{
  ◌≡◌, Bool, true, false, not, ◌&&◌, ◌||◌, Option, none, some, List, [], ◌∷◌, ◌++◌, ltb, ◌==◌, ◌+◌,
  ℕ, length, if◌then◌else◌,
}
use para_mcp.Prelude.Int.{ℤ, pos, negsuc, ◌+ℤ◌, ltb_ℤ}
use para_mcp.Prelude.Assoc.{Assoc, get}
use para_mcp.Prelude.Text.{Text, Unicode, same, contains, dec_text}
use para_mcp.Domain.Value.{Fields}
use para_mcp.Domain.Results.{
  Result, ok, err, Error, scope_forbidden, allowed_scopes_nil, capability_unavailable, QueryResult,
  ◌>>=◌,
}
use para_mcp.Domain.Entities.{
  ScopeId, Category, Time, Capabilities, Note, NoteRef, NoteSummary, FrontMatter, Filter,
  AuthFilter, QueryRequest, RankedNote, BacklinkEntry, CreateInput, MutationResult, Score,
  SortField, by_updated, summary, category_from_path,
}
use para_mcp.Domain.Filter.{is_empty}
use para_mcp.Domain.Path.{NormalizedPath, normalize}
use para_mcp.Domain.Patch.{get_note_id, set_note_id}
use para_mcp.Domain.Related.{rank_related}
use para_mcp.Vault.{Vault, Write, attempt}

-- `CategoryTemplate`
pub record Template : Type 0 where
  pub status : Text
  pub tags : List Text

-- `VectorHit`, of which the service reads these fields
pub record VectorHit : Type 0 where
  pub ref : NoteRef
  pub score : Score

pub data BodyMode : Type 0 where
  body_never body_on_demand : BodyMode
  other_mode : Text → BodyMode

pub record SemanticOptions : Type 0 where
  pub limit : ℤ
  pub threshold : Score
  pub body_mode : BodyMode

-- `ports.SemanticSearcher`
abbrev pub Searcher : Type 0 → Type 0
Searcher W = W → Text → AuthFilter → SemanticOptions → Result (List VectorHit)

pub record Service (W : Type 0) : Type 0 where
  pub vault : Vault W
  pub templates : Assoc Category Template
  pub related_scan_limit : ℤ
  pub searcher : Option (Searcher W)

abbrev pub no_results : ScopeId → QueryResult
no_results scope = record {
  notes = [];
  total = 0;
  has_more = false;
  per_scope = [];
  scopes_attempted = scope ∷ [];
  scopes_succeeded = scope ∷ [];
  partial_failure = none;
  next_cursor = [];
}

-- the template's defaults where the input has none
unfoldable pub with_template : Option Template → FrontMatter → FrontMatter
with_template none fm = fm
with_template (some t) fm = record fm {
  status = if is_empty fm.status && not (is_empty t.status) then t.status else fm.status;
  tags = if is_empty fm.tags && not (is_empty t.tags) then fm.tags ++ t.tags else fm.tags;
}

unfoldable pub template_for : Option Category → Assoc Category Template → Option Template
unfolding get dec_text
template_for none templates = none
template_for (some cat) templates = get dec_text cat templates

-- `u` and `nfc` are the tables of `unicode` and `norm.NFC.String`.
module _ (u : Unicode) (nfc : Text → Text) {W : Type 0} where
  -- `checkScopes`
  unfoldable pub check_scopes : Service W → Option (List ScopeId) → Result Bool
  check_scopes s none = err allowed_scopes_nil
  check_scopes s (some allowed) = ok (contains s.vault.scope allowed)

  abbrev pub normalize_path : Service W → Text → Result NormalizedPath
  normalize_path s path = normalize u nfc path s.vault.capabilities.case_sensitive

  -- `normalizeRef`
  unfoldable pub normalize_ref : Service W → NoteRef → Result NormalizedPath
  normalize_ref s ref =
      if not (is_empty ref.scope) && not (same ref.scope s.vault.scope)
      then err scope_forbidden
      else normalize_path s ref.path

  -- `Get`
  unfoldable pub get_note : Service W → W → NoteRef → Result Note
  get_note s w ref = do np ← normalize_ref s ref; s.vault.get w np.storage

  -- the input that `Create` hands to the vault; `mint` is the identity that the minter gives
  unfoldable pub prepared : Service W → Text → NormalizedPath → CreateInput → CreateInput
  unfolding with_template template_for
  prepared s mint np input =
      let template = template_for (category_from_path u np.storage) s.templates in
      let fm = with_template template input.front_matter in
      record {
        path = np.storage;
        front_matter = if is_empty (get_note_id fm) then set_note_id fm mint else fm;
        body = input.body;
      }

  -- `Create`
  unfoldable pub create : Service W → Text → CreateInput → Write W MutationResult
  create s mint input =
      attempt (normalize_path s input.path) (λ np. s.vault.create (prepared s mint np input))

  -- `UpdateBody`
  unfoldable pub update_body : Service W → NoteRef → Text → Text → Write W MutationResult
  update_body s ref body if_match =
      attempt (normalize_ref s ref) (λ np. s.vault.update_body np.storage body if_match)

  -- `PatchFrontMatter`
  unfoldable pub patch_front_matter : Service W → NoteRef → Fields → Text → Write W MutationResult
  patch_front_matter s ref fields if_match =
      attempt (normalize_ref s ref) (λ np. s.vault.patch_front_matter np.storage fields if_match)

  -- `Replace`
  unfoldable pub replace : Service W → NoteRef → Fields → Text → Text → Write W MutationResult
  replace s ref fields body if_match =
      attempt (normalize_ref s ref) (λ np. s.vault.replace np.storage fields body if_match)

  -- `Move`
  unfoldable pub move : Service W → NoteRef → Text → Text → Write W MutationResult
  move s ref new_path if_match = attempt (normalize_ref s ref) (λ np.
      attempt (normalize_path s new_path) (λ to. s.vault.move np.storage to.storage if_match))

  -- `Delete`
  unfoldable pub delete : Service W → NoteRef → Bool → Text → Write W (Unit {0})
  delete s ref soft if_match =
      attempt (normalize_ref s ref) (λ np. s.vault.delete np.storage soft if_match)

  -- `Query`
  unfoldable pub query : Service W → W → QueryRequest → Result QueryResult
  unfolding check_scopes
  query s w q = do
    allowed ← check_scopes s q.allowed_scopes
    if allowed
        then s.vault.query w (record q { allowed_scopes = none })
        else ok (no_results s.vault.scope)

  -- `Search`
  unfoldable pub search_notes : Service W → W → Text → AuthFilter → ℤ → Result (List RankedNote)
  unfolding check_scopes
  search_notes s w text f limit = do
    allowed ← check_scopes s f.allowed_scopes
    if allowed then s.vault.search w text f.filter limit else ok []

  -- `Backlinks`
  unfoldable pub backlinks :
      Service W → W → NoteRef → Bool → AuthFilter → Result (List BacklinkEntry)
  unfolding check_scopes normalize_ref
  backlinks s w ref include_assets f = do
    allowed ← check_scopes s f.allowed_scopes
    np ← normalize_ref s ref
    if allowed
        then s.vault.backlinks w (record ref { path = np.storage }) include_assets f.filter
        else ok []
