-- ===== src/Tests/Storage.antt =====
-- Runs of the vault over files.
use para_mcp.Prelude.{
  ℕ, Bool, ◌+◌, ◌-◌, ◌≡◌, refl, true, false, not, Option, none, some, List, [], ◌∷◌, ◌++◌, keep,
  map, length, any, take, suc, arith,
}
use para_mcp.Prelude.Int.{pos}
use para_mcp.Prelude.Assoc.{get, put, remove}
use para_mcp.Prelude.Text.{Text, ascii, codes, same, dec_text, has_rune, cut_prefix, contains, cut}
use para_mcp.Domain.Value.{Fields, end, field, string}
use para_mcp.Domain.Results.{ok, err, conflict, ◌>>=◌}
use para_mcp.Domain.Entities.{
  NoteRef, Note, FrontMatter, CreateInput, MutationResult, ref_string, summary,
}
use para_mcp.Domain.Path.Clean.{clean}
use para_mcp.Domain.Path.{NormalizedPath, normalize}
use para_mcp.Storage.Notes.{
  cut_text, trim_newlines, compute_etag, canonical_yaml, sort_mapping_keys, remove_mapping_key,
  Codec, parse_note, format_note, newline,
}
use para_mcp.Storage.Notes.RoundTrip.{IsYaml, parse_note-format_note}
use para_mcp.Storage.Links.{OutLink, BacklinkSrc, link_match_keys}
use para_mcp.Storage.Graph.{
  Graph, no_links, links, has_key, backlinks_of, upsert, remove_links, upsert_diff,
}
use para_mcp.Storage.Graph.Laws.{by_path, IsConsistent, has_path, upsert-IsConsistent}
use para_mcp.Storage.Graph.Diff.{upsert_diff-upsert}
use para_mcp.Storage.Local.{
  Site, Local, Os, FtsIndex, Doc, SearchResult, note_of, etag_of, normalize_path, read_note,
}
use para_mcp.Storage.Local.Mutations.{
  update_body, patch_front_matter, replace, move, delete, edited,
}
use para_mcp.Storage.Local.Versions.{stale_version}
use para_mcp.Storage.Local.Updates.{at_time, updates-read_note, Stores}
use para_mcp.Storage.Local.Sync.{IsSynced, IsSyncedAt, stored, dropped}
use para_mcp.Storage.Local.Synced.{updates-IsSynced}
use para_mcp.Storage.Local.Queries.{search, backlinks, matching}
use para_mcp.Storage.Local.Queries.Pages.{read_pages, read_pages-matching}
use para_mcp.Storage.Local.Queries.Answers.{
  accepted_sources, accepted_hits, search-take, backlinks_lem, IsOnce,
}
use para_mcp.Storage.Local.Linked.{IsLinked}
use para_mcp.Storage.Local.Runs.{perform, moves, creates, stop, then_call, reaches-IsLinked}
use para_mcp.Storage.Batch.{run_batch, runs, report, IsCounted, run_batch-runs, UpdateBodyItem}
use para_mcp.Storage.Links.Laws.{IsLinks}
use para_mcp.Domain.Patch.{apply_patch, apply_setter, set_title, setter_of}
use para_mcp.Vault.{Write}
use para_mcp.Tests.Fixtures.{plain, capabilities, mine, request, any_filter}

-- a front matter of a time and a title
abbrev marshal_title : FrontMatter → Option Text
marshal_title fm = some (((fm.updated_at + 100) ∷ b':' ∷ fm.title) ++ (newline ∷ []))

abbrev unmarshal_title : Text → Option FrontMatter
unmarshal_title (t ∷ c ∷ title) = some (record plain { title = title; updated_at = t - 100 })
unmarshal_title _ = none

abbrev codec : Codec ℕ
codec = record {
  marshal = marshal_title;
  unmarshal = unmarshal_title;
  encode = λ fm. [];
  print = λ entries. [];
  digest = λ t. t;
}

abbrev os : Os
os = record { refuse = λ op path. none; torn = λ file. none; resolve = λ path. some path }

abbrev hit_of : Doc → SearchResult
hit_of d = record { ref = d.ref; score = 1; updated_at = d.updated_at }

abbrev fts : FtsIndex (List Doc)
fts = record {
  add = λ d docs. d ∷ docs;
  remove_doc = λ ref docs. keep (λ d. not (same (ref_string d.ref) (ref_string ref))) docs;
  find = λ text limit docs. map hit_of docs;
}

abbrev site : Site ℕ (List Doc)
site = record {
  scope = mine;
  root = codes "/v";
  capabilities = capabilities;
  os = os;
  codec = codec;
  fts = fts;
  unicode = ascii;
  nfc = λ t. t;
}

abbrev empty_vault : Local (List Doc)
empty_vault = record { files = []; cache = []; graph = no_links; index = [] }

abbrev path_a : Text
path_a = codes "projects/a.md"

abbrev path_b : Text
path_b = codes "areas/b.md"

abbrev np_a : NormalizedPath
np_a = record { storage = path_a; index_key = path_a }

abbrev np_b : NormalizedPath
np_b = record { storage = path_b; index_key = path_b }

abbrev titled : Text → ℕ → FrontMatter
titled title t = record plain { title = title; updated_at = t }

abbrev note_a : Note
note_a = record {
  ref = record { scope = mine; path = path_a };
  front_matter = titled (codes "T") 5;
  body = codes "see [[b]]";
  etag = b'"' ∷ (newline ∷ codes "---") ++ newline ∷ codes "see [[b]]\"";
}

abbrev file_a : Text
file_a = codes "---\ni:T\n---\n\nsee [[b]]"

abbrev link_b : OutLink
link_b = record { target_key = codes "b"; is_asset = false }

abbrev one_note : Local (List Doc)
one_note = record {
  files = (path_a, file_a) ∷ [];
  cache = (path_a, summary ascii note_a) ∷ [];
  graph = upsert path_a (link_b ∷ []) no_links;
  index = record { ref = note_a.ref; title = codes "T"; body = note_a.body; updated_at = 5 } ∷ [];
}

normalize_a : normalize_path site path_a ≡ ok np_a
unfolding normalize_path normalize has_rune cut_prefix dec_text clean contains cut
normalize_a = refl

normalize_b : normalize_path site path_b ≡ ok np_b
unfolding normalize_path normalize has_rune cut_prefix dec_text clean contains cut
normalize_b = refl

read_a : read_note site path_a one_note ≡ ok note_a
unfolding read_note get dec_text parse_note cut_prefix cut_text trim_newlines note_of etag_of
    compute_etag canonical_yaml sort_mapping_keys remove_mapping_key
read_a = refl

stale_version_example :
    (update_body site 9 path_a (codes "x") (codes "old") one_note ≡ (err conflict, one_note))
    × (patch_front_matter site 9 path_a end (codes "old") one_note ≡ (err conflict, one_note))
    × (replace site 9 path_a end (codes "x") (codes "old") one_note ≡ (err conflict, one_note))
    × (move site path_a path_b (codes "old") one_note ≡ (err conflict, one_note))
    × (delete site path_a true (codes "old") one_note ≡ (err conflict, one_note))
unfolding dec_text
stale_version_example =
    stale_version site 9 path_a path_b (codes "x") (codes "old") end true one_note np_a np_b note_a
      normalize_a normalize_b read_a refl

abbrev lines_9 : Text
lines_9 = codes "m:T"

abbrev patched_9 : Text
patched_9 = codes "m:B"

abbrev fields : Fields
fields = field (codes "title") (string (codes "B")) end

IsYaml-lines : IsYaml codec (at_time site 9 (titled (codes "T") 5)) lines_9
unfolding cut_text cut_prefix
IsYaml-lines = record { marshalled = refl; unmarshalled = refl; not_closed = refl }

IsYaml-patched :
    IsYaml codec (at_time site 9 (apply_patch ascii (titled (codes "T") 5) fields)) patched_9
unfolding cut_text cut_prefix apply_patch apply_setter set_title setter_of dec_text
IsYaml-patched = record { marshalled = refl; unmarshalled = refl; not_closed = refl }

updates-read_note_example :
    Stores site path_a
      (edited site 9 note_a note_a.front_matter (codes "x"))
      (update_body site 9 path_a (codes "x") note_a.etag one_note)
    × Stores site path_a
        (edited site 9 note_a (apply_patch ascii note_a.front_matter fields) note_a.body)
        (patch_front_matter site 9 path_a fields note_a.etag one_note)
    × Stores site path_a
        (edited site 9 note_a (apply_patch ascii note_a.front_matter fields) (codes "x"))
        (replace site 9 path_a fields (codes "x") note_a.etag one_note)
unfolding dec_text
updates-read_note_example =
    updates-read_note site 9 path_a (codes "x") note_a.etag lines_9 patched_9 fields one_note np_a
      note_a normalize_a read_a refl refl refl IsYaml-lines IsYaml-patched refl refl

not_cached : (q : Text) → same path_a q ≡ false → get dec_text q one_note.cache ≡ none
unfolding get
not_cached q n = ground arith

no_file : (q : Text) → same path_a q ≡ false → get dec_text q one_note.files ≡ none
unfolding get
no_file q n = ground arith

synced : (skip : Text → Bool) → IsSynced site skip one_note
unfolding get dec_text
synced skip =
    by_path (IsSyncedAt site skip one_note) path_a
      (stored site skip path_a one_note note_a (summary ascii note_a) refl read_a refl)
      (λ q n. dropped site skip q one_note (not_cached q n) (no_file q n))

abbrev nowhere : Text → Bool
nowhere q = false

updates-IsSynced_example :
    IsSynced site nowhere (update_body site 9 path_a (codes "x") [] one_note).1
    × IsSynced site nowhere (patch_front_matter site 9 path_a fields [] one_note).1
    × IsSynced site nowhere (replace site 9 path_a fields (codes "x") [] one_note).1
updates-IsSynced_example =
    updates-IsSynced site nowhere 9 path_a (codes "x") [] lines_9 patched_9 fields one_note np_a
      note_a refl (λ file. refl) normalize_a read_a refl IsYaml-lines IsYaml-patched
      (synced nowhere)

parse_note-format_note_example :
    format_note codec (at_time site 9 (titled (codes "T") 5)) (codes "hi") >>= parse_note codec
    ≡ ok (at_time site 9 (titled (codes "T") 5), codes "hi")
parse_note-format_note_example =
    parse_note-format_note codec (at_time site 9 (titled (codes "T") 5)) lines_9 (codes "hi")
      IsYaml-lines refl

nothing_linked : IsLinked no_links
unfolding links backlinks_of has_key get
nothing_linked = record { consistent = λ k q. refl; distinct = λ p. tt }

abbrev graph_a : Graph
graph_a = upsert path_a (link_b ∷ []) no_links

linked_a : IsConsistent graph_a
linked_a = upsert-IsConsistent path_a (link_b ∷ []) no_links nothing_linked.consistent

abbrev link_c : OutLink
link_c = record { target_key = codes "c"; is_asset = true }

links_a : IsLinks (links path_a graph_a)
unfolding links upsert remove_links get put remove dec_text
links_a = (refl, refl, tt)

upsert_diff-upsert_example :
    (has_path path_a
        (backlinks_of (codes "c") (upsert_diff path_a (links path_a graph_a) (link_c ∷ []) graph_a))
      ≡ has_path path_a (backlinks_of (codes "c") (upsert path_a (link_c ∷ []) graph_a)))
    × (has_key
          (codes "c")
          (links path_a (upsert_diff path_a (links path_a graph_a) (link_c ∷ []) graph_a))
        ≡ has_key (codes "c") (links path_a (upsert path_a (link_c ∷ []) graph_a)))
upsert_diff-upsert_example =
    upsert_diff-upsert path_a (link_c ∷ []) graph_a linked_a links_a (codes "c") path_a

abbrev linked_vault : Local (List Doc)
linked_vault = record one_note { graph = graph_a }

abbrev ref_b : NoteRef
ref_b = record { scope = []; path = codes "areas/b.md" }

backlinks_example :
    (srcs : List BacklinkSrc) × (backlinks site linked_vault ref_b true any_filter
      ≡ ok (accepted_sources site linked_vault any_filter srcs))
    × IsOnce [] srcs
    × ((q : Text)
        → has_path q srcs
          ≡ any (λ k. has_key k (links q graph_a)) (link_match_keys ascii ref_b.path))
backlinks_example = backlinks_lem site linked_vault any_filter ref_b linked_a

search-take_example :
    search site one_note (codes "see") any_filter (pos 2)
    ≡ ok (
        take 2
          (accepted_hits site one_note any_filter (fts.find (codes "see") (pos 6) one_note.index)))
search-take_example = search-take site one_note any_filter (codes "see") (pos 2)

read_pages-matching_example :
    read_pages site one_note request (suc (length (matching site one_note request))) 0
    ≡ matching site one_note request
read_pages-matching_example = read_pages-matching site one_note request

abbrev update_of : UpdateBodyItem → Write (Local (List Doc)) MutationResult
update_of it = update_body site 9 it.path it.body it.if_match

abbrev items : List UpdateBodyItem
items =
    record { path = path_a; body = codes "x"; if_match = [] }
    ∷ record { path = path_b; body = codes "y"; if_match = [] }
    ∷ []

run_batch-runs_example :
    let out = run_batch (λ (it : UpdateBodyItem). it.path) update_of items one_note in
    (out.0.results ≡ report 0 (runs (λ (it : UpdateBodyItem). it.path) update_of items one_note).0)
    × (out.1 ≡ (runs (λ (it : UpdateBodyItem). it.path) update_of items one_note).1)
    × IsCounted out.0
run_batch-runs_example = run_batch-runs (λ (it : UpdateBodyItem). it.path) update_of items one_note

abbrev input_a : CreateInput
input_a = record { path = path_a; front_matter = plain; body = codes "see [[b]]" }

abbrev derive : Text → Text → Text
derive path etag = path

reaches-IsLinked_example :
    IsLinked
      (perform site derive
        (moves path_a path_b [])
        (perform site derive (creates 5 input_a) empty_vault)).graph
reaches-IsLinked_example =
    reaches-IsLinked site derive nothing_linked
      (then_call (moves path_a path_b []) (then_call (creates 5 input_a) stop))
