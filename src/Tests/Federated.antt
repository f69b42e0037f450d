-- ===== src/Tests/Federated.antt =====
-- Queries over two vaults, and cursors, at concrete inputs.
use mathlib.Core.List.{Perm, Permᴰ}
use mathlib.Core.List.Permᴰ
use para_mcp.Prelude.{
  ℕ, ◌≡◌, ◌≢◌, ◌⊎◌, refl, sym, subst, true, false, none, some, List, [], ◌∷◌, All, length, ◌++◌,
  not, keep, min, arith, map, inl, inr, Bool-cases,
}
use para_mcp.Prelude.Int.{ℤ, pos}
use para_mcp.Prelude.Sort.{IsSorted, sort, insert}
use para_mcp.Prelude.Text.{Text, ascii, codes, dec_text, contains, compare_text, cut}
use para_mcp.Prelude.Assoc.{get, put, remove, values}
use para_mcp.Domain.Results.{Result, ok, err, invalid_cursor, unavailable, QueryResult}
use para_mcp.Domain.Entities.{ScopeId, NoteSummary, summary, ref_string, category_from_path}
use para_mcp.Domain.Order.{in_order, sort_summaries, compare_notes, compare_by}
use para_mcp.Domain.Filter.{is_empty}
use para_mcp.Service
use para_mcp.Service.{check_scopes}
use para_mcp.Federation.{Entry, entry_for}
use para_mcp.Federation.Tombstones.{contains_ref}
use para_mcp.Federation.Scopes.{Payload, offset_of, resolve, effective_scopes, uniform}
use para_mcp.Federation.Query.{
  ScopeResult, scope_request, gather, cut_page, tally, advance, total, partial, merge, query, ask,
  answer,
}
use para_mcp.Federation.Query.Page.{live_notes, merge_lem}
use para_mcp.Federation.Query.Sources.{
  query-sources, merge_failures, failed_names, names, has_answered,
}
use para_mcp.Tests.Fixtures.{
  Disk, Files, disk, nfc, mine, ours, path_a, path_b, note_at, request, registry, my_entry,
  our_entry, service_of, memory_vault, page_of,
}

abbrev pub arrive : List ScopeResult → List ScopeResult
arrive rs = rs

arrives : (rs : List ScopeResult) → Permᴰ (arrive rs) rs
arrives rs = Permᴰ.refl rs

abbrev pub encode : Payload → Result Text
encode p = ok (codes "c")

abbrev pub decode : Text → Result Payload
decode t = err invalid_cursor

abbrev note_a : NoteSummary
note_a = summary ascii (note_at mine path_a)

abbrev note_b : NoteSummary
note_b = summary ascii (note_at ours path_b)

-- the first page of the two notes, one note long
abbrev page : QueryResult
page = record {
  notes = note_b ∷ [];
  total = 1;
  has_more = true;
  per_scope = (ours, 1) ∷ [];
  scopes_attempted = mine ∷ ours ∷ [];
  scopes_succeeded = mine ∷ ours ∷ [];
  partial_failure = none;
  next_cursor = codes "c";
}

page_found : query ascii nfc registry arrive decode encode [] disk request ≡ ok page
unfolding query answer resolve effective_scopes uniform ask Service.query check_scopes entry_for get
    put remove dec_text contains gather merge sort_summaries sort insert compare_notes compare_by
    compare_text cut_page tally advance total partial offset_of summary contains_ref ref_string
    category_from_path cut
page_found = refl

abbrev Titled : NoteSummary → Type 0
Titled n = n.title ≡ codes "T"

Titled-query :
    (name : ScopeId) (read : Disk → Files) (write : Files → Disk → Disk) (sc : ScopeId) (offset : ℤ)
    (page : QueryResult)
    → All Titled (map (summary ascii) (values (read disk)))
    → Service.query ascii nfc
        (service_of (memory_vault name read write))
        disk
        (scope_request request sc offset)
      ≡ ok page
    → All Titled page.notes
unfolding Service.query check_scopes
Titled-query name read write sc offset page h asked = elim (Bool-cases (contains name (sc ∷ []))) [
  | inl e ↦ subst (λ x. All Titled x.notes) (page_eq (rw e at asked)) h
  | inr e ↦ subst (λ x. All Titled x.notes) (page_eq (rw e at asked)) tt
]
  where
    page_eq : {a b : QueryResult} → ◌≡◌ {A = Result QueryResult} (ok a) (ok b) → a ≡ b
    page_eq q = cc q

two_entries :
    {A : Type 0} (a b k : Text) (x y v : A)
    → get dec_text k ((a, x) ∷ (b, y) ∷ []) ≡ some v
    → (x ≡ v) ⊎ (y ≡ v)
unfolding get
two_entries a b k x y v h = elim (dec_text a k) [
  | yes p ↦ inl (ground arith)
  | no p ↦ elim (dec_text b k) [ yes q ↦ inr (ground arith) | no q ↦ absurd (ground arith) ]
]

titled :
    (sc : ScopeId) (e : Entry Disk) (offset : ℤ) (got : QueryResult)
    → contains sc (mine ∷ ours ∷ []) ≡ true
    → entry_for registry sc ≡ some e
    → Service.query ascii nfc e.svc disk (scope_request request sc offset) ≡ ok got
    → All Titled got.notes
unfolding entry_for summary
titled sc e offset got h there asked = elim (two_entries ours mine sc our_entry my_entry e there) [
  | inl p ↦
      Titled-query ours (λ w. w.team) (λ f w. record w { team = f }) sc offset got (refl, tt)
        (subst (λ x. Service.query ascii nfc x.svc disk (scope_request request sc offset) ≡ ok got)
          (sym p) asked)
  | inr p ↦
      Titled-query mine (λ w. w.own) (λ f w. record w { own = f }) sc offset got (refl, tt)
        (subst (λ x. Service.query ascii nfc x.svc disk (scope_request request sc offset) ≡ ok got)
          (sym p) asked)
]

query-sources_example : All Titled (note_b ∷ [])
query-sources_example =
    query-sources ascii nfc registry arrive arrives Titled decode encode [] disk request
      (mine ∷ ours ∷ []) page refl titled page_found

-- the answers of three scopes, of which one fails
abbrev answers : List ScopeResult
answers =
    record { scope = mine; res = ok (page_of mine (note_a ∷ [])) }
    ∷ record { scope = codes "x"; res = err unavailable }
    ∷ record { scope = ours; res = ok (page_of ours (note_b ∷ [])) }
    ∷ []

abbrev merged : QueryResult
merged = record page {
  scopes_attempted = mine ∷ codes "x" ∷ ours ∷ [];
  partial_failure =
      some (record { failed_scopes = codes "x" ∷ []; reason = (codes "x", unavailable) ∷ [] });
}

merge_found : merge encode request (mine ∷ ours ∷ []) [] (gather [] answers) ≡ ok merged
unfolding gather get put remove dec_text merge sort_summaries sort insert compare_notes compare_by
    compare_text cut_page tally advance total partial offset_of summary contains_ref ref_string
merge_found = refl

merge_example :
    (n : ℕ) × (rest : List NoteSummary) × (pos 1 ≡ pos n)
    × IsSorted (in_order request.sort request.desc) (merged.notes ++ rest)
    × Perm (merged.notes ++ rest) (live_notes [] answers)
    × (length merged.notes ≡ min n (length (live_notes [] answers)))
    × All (λ m. contains_ref m.ref [] ≡ false) merged.notes
    × (true ≡ not (is_empty rest))
    × (1 ≡ length (note_b ∷ []))
merge_example = merge_lem encode request (mine ∷ ours ∷ []) [] [] answers merged merge_found

merge_failures_example :
    (merged.scopes_attempted ≡ names answers)
    × (merged.scopes_succeeded ≡ names (keep (λ r. has_answered r.res) answers))
    × (failed_names merged.partial_failure ≡ names (keep (λ r. not (has_answered r.res)) answers))
    × (merged.scopes_succeeded ≢ [])
merge_failures_example =
    merge_failures encode request (mine ∷ ours ∷ []) [] [] answers merged merge_found
