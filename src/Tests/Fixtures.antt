-- ===== src/Tests/Fixtures.antt =====
-- Two small vaults in memory, and a federation of the two.
use para_mcp.Prelude.{true, false, Option, none, some, List, [], ◌∷◌, map}
use para_mcp.Prelude.Int.{pos}
use para_mcp.Prelude.Text.{Text, ascii, codes, dec_text}
use para_mcp.Prelude.Assoc.{Assoc, get, put, remove, values}
use para_mcp.Domain.Results.{Result, ok, err, not_found, conflict, QueryResult}
use para_mcp.Domain.Entities.{
  ScopeId, Note, NoteRef, NoteSummary, FrontMatter, Capabilities, CreateInput, MutationResult,
  Filter, QueryRequest, by_updated, summary,
}
use para_mcp.Vault.{Vault, Write}
use para_mcp.Service.{Service}
use para_mcp.Federation.{Registry, Entry}

abbrev pub Files : Type 0
Files = Assoc Text Note

-- what two vaults hold
pub record Disk : Type 0 where
  pub own : Files
  pub team : Files

abbrev pub plain : FrontMatter
plain = record {
  title = codes "T";
  tags = codes "go" ∷ [];
  status = codes "open";
  area = [];
  project = codes "x";
  created_at = 1;
  updated_at = 7;
  extra = none;
}

abbrev pub note_at : ScopeId → Text → Note
note_at scope path = record {
  ref = record { scope = scope; path = path };
  front_matter = plain;
  body = codes "hi";
  etag = codes "v1";
}

abbrev pub mine : ScopeId
mine = codes "me"

abbrev pub ours : ScopeId
ours = codes "us"

abbrev pub path_a : Text
path_a = codes "projects/a.md"

abbrev pub path_b : Text
path_b = codes "areas/b.md"

abbrev pub disk : Disk
disk = record {
  own = (path_a, note_at mine path_a) ∷ [];
  team = (path_b, note_at ours path_b) ∷ [];
}

abbrev pub result_of : Note → MutationResult
result_of n = record { summary = summary ascii n; etag = n.etag }

abbrev pub lookup_note : Option Note → Result Note
lookup_note none = err not_found
lookup_note (some n) = ok n

abbrev pub page_of : ScopeId → List NoteSummary → QueryResult
page_of scope notes = record {
  notes = notes;
  total = 0;
  has_more = false;
  per_scope = [];
  scopes_attempted = scope ∷ [];
  scopes_succeeded = scope ∷ [];
  partial_failure = none;
  next_cursor = [];
}

abbrev pub capabilities : Capabilities
capabilities = record {
  writable = true;
  soft_delete = true;
  watch = false;
  max_body_bytes = 1000;
  case_sensitive = true;
  semantic = false;
  has_derived = false;
  clustering = false;
}

module _ (scope_name : ScopeId) (read : Disk → Files) (write : Files → Disk → Disk) where
  abbrev pub create_in : CreateInput → Write Disk MutationResult
  create_in input w = elim (get dec_text input.path (read w)) [
    | some n ↦ (err conflict, w)
    | none ↦
        let n : Note = record {
          ref = record { scope = scope_name; path = input.path };
          front_matter = input.front_matter;
          body = input.body;
          etag = codes "v1";
        } in
        (ok (result_of n), write (put dec_text input.path n (read w)) w)
  ]

  abbrev pub change_in : Text → (Note → Note) → Write Disk MutationResult
  change_in path f w = elim (get dec_text path (read w)) [
    | none ↦ (err not_found, w)
    | some n ↦ (ok (result_of (f n)), write (put dec_text path (f n) (read w)) w)
  ]

  abbrev pub move_in : Text → Text → Write Disk MutationResult
  move_in path to w = elim (get dec_text path (read w)) [
    | none ↦ (err not_found, w)
    | some n ↦ (ok (result_of n), write (put dec_text to n (remove dec_text path (read w))) w)
  ]

  -- a vault of the files at a place of the disk, whose queries return all of them
  abbrev pub memory_vault : Vault Disk
  memory_vault = record {
    scope = scope_name;
    capabilities = capabilities;
    get = λ w path. lookup_note (get dec_text path (read w));
    query = λ w q. ok (page_of scope_name (map (summary ascii) (values (read w))));
    search = λ w text f limit. ok [];
    backlinks = λ w ref assets f. ok [];
    create = create_in;
    update_body = λ path body m. change_in path (λ n. record n { body = body });
    patch_front_matter = λ path fields m. change_in path (λ n. n);
    replace = λ path fields body m. change_in path (λ n. record n { body = body });
    move = λ path to m. move_in path to;
    delete = λ path soft m w. (ok tt, write (remove dec_text path (read w)) w);
  }

abbrev pub service_of : Vault Disk → Service Disk
service_of v = record { vault = v; templates = []; related_scan_limit = pos 10; searcher = none }

abbrev pub my_service : Service Disk
my_service = service_of (memory_vault mine (λ w. w.own) (λ f w. record w { own = f }))

abbrev pub our_service : Service Disk
our_service = service_of (memory_vault ours (λ w. w.team) (λ f w. record w { team = f }))

abbrev pub my_entry : Entry Disk
my_entry = record { scope_id = mine; canonical_remote = []; svc = my_service }

abbrev pub our_entry : Entry Disk
our_entry = record { scope_id = ours; canonical_remote = []; svc = our_service }

abbrev pub registry : Registry Disk
registry = record {
  entries = my_entry ∷ our_entry ∷ [];
  by_scope = (ours, our_entry) ∷ (mine, my_entry) ∷ [];
}

abbrev pub nfc : Text → Text
nfc t = t

abbrev pub any_filter : Filter
any_filter = record {
  scopes = [];
  categories = [];
  include_archives = false;
  tags = [];
  any_tags = [];
  status = [];
  area = [];
  project = [];
  text = [];
  updated_after = none;
  updated_before = none;
  purpose = [];
  entities = [];
}

abbrev pub request : QueryRequest
request = record {
  filter = any_filter;
  allowed_scopes = some (mine ∷ ours ∷ []);
  sort = by_updated;
  desc = false;
  limit = pos 1;
  offset = pos 0;
  cursor = [];
}

-- a reference to the first note, and one to the second
abbrev pub ref_a : NoteRef
ref_a = record { scope = mine; path = path_a }

abbrev pub ref_b : NoteRef
ref_b = record { scope = ours; path = path_b }
