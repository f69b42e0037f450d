-- ===== src/Federation/Search.antt =====
-- application/federation.go: `Search`, `HybridSearch`, `SemanticSearch`, `Backlinks`, `Related` and
-- `Stale`. The first four ask every scope that the request reaches and put the answers together.
pub mod Laws
use para_mcp.Prelude.{
  ℕ, zero, suc, Bool, true, false, not, ◌&&◌, ◌||◌, Option, none, some, List, [], ◌∷◌, ◌++◌, ltb,
  leb, length, take, any, map, if◌then◌else◌,
}
use para_mcp.Prelude.Int.{ℤ, pos, negsuc}
use para_mcp.Prelude.Sort.{sort}
use para_mcp.Prelude.Text.{Text, Unicode}
use para_mcp.Domain.Results.{
  Result, ok, err, Error, allowed_scopes_nil, capability_unavailable, panic, QueryResult, ◌>>=◌,
}
use para_mcp.Domain.Entities.{
  ScopeId, Category, Time, Capabilities, NoteRef, AuthFilter, RankedNote, BacklinkEntry,
}
use para_mcp.Domain.Filter.{is_empty}
use para_mcp.Service.{Service, SemanticOptions}
use para_mcp.Service
use para_mcp.Service.Search
use para_mcp.Federation.{Registry, Entry, entry_for, local_entry, entry_for_ref}
use para_mcp.Federation.Scopes.{effective_scopes}

-- The answers of the scopes, in the order in which they arrive.
abbrev pub Answers : Type 0 → Type 0
Answers A = List (Result (List A))

-- the filter that one scope is asked with
abbrev pub scope_filter : AuthFilter → ScopeId → AuthFilter
scope_filter f sc = record f { allowed_scopes = some (sc ∷ []) }

module _ {W : Type 0} (r : Registry W) {A : Type 0}
    (call : Service W → AuthFilter → Result (List A)) where
  abbrev pub ask_entry : AuthFilter → ScopeId → Option (Entry W) → Answers A → Answers A
  ask_entry f sc none rest = rest
  ask_entry f sc (some e) rest = call e.svc (scope_filter f sc) ∷ rest

  -- the goroutines' calls, for the scopes that are registered
  unfoldable pub ask_scopes : AuthFilter → List ScopeId → Answers A
  ask_scopes f [] = []
  ask_scopes f (sc ∷ scs) = ask_entry f sc (entry_for r sc) (ask_scopes f scs)

-- the loop over the channel: an answer that failed is dropped
unfoldable pub gather_answers {ℓ} : {A : Type ℓ} → List (Result (List A)) → List A
gather_answers [] = []
gather_answers (err x ∷ rs) = gather_answers rs
gather_answers (ok l ∷ rs) = l ++ gather_answers rs

abbrev pub scored_before : RankedNote → RankedNote → Bool
scored_before a b = leb b.score a.score

-- `all[:limit]` where there are more than that; a negative bound is a run-time panic
unfoldable pub cut_ranked : ℤ → List RankedNote → Result (List RankedNote)
cut_ranked (negsuc n) l = err panic
cut_ranked (pos n) l = if ltb n (length l) then ok (take n l) else ok l

-- the limit of the searches that have a default
abbrev pub or_ten : ℤ → ℕ
or_ten (negsuc n) = 10
or_ten (pos zero) = 10
or_ten (pos (suc n)) = suc n

unfoldable pub best_of : ℕ → List RankedNote → List RankedNote
best_of n l = if ltb n (length l) then take n l else l

abbrev pub is_incapable : Result (List RankedNote) → Bool
is_incapable (err capability_unavailable) = true
is_incapable _ = false

-- the end of `SemanticSearch`
unfoldable pub merge_semantic : ℤ → Answers RankedNote → Result (List RankedNote)
unfolding gather_answers best_of
merge_semantic limit rs =
    if is_empty (gather_answers rs) && any is_incapable rs
    then err capability_unavailable
    else ok (best_of (or_ten limit) (sort scored_before (gather_answers rs)))

-- the early return where the server sets no scopes
abbrev pub with_scopes {ℓ} :
    {A : Type ℓ} → Option (List ScopeId) → (List ScopeId → Result A) → Result A
with_scopes none next = err allowed_scopes_nil
with_scopes (some allowed) next = next allowed

module _ (u : Unicode) (nfc : Text → Text) {W : Type 0} (r : Registry W) where
  module _ (arrive : Answers RankedNote → Answers RankedNote) where
    -- what the scopes of a request answer
    unfoldable pub ranked_answers :
        (Service W → AuthFilter → Result (List RankedNote))
        → AuthFilter
        → List ScopeId
        → Answers RankedNote
    unfolding ask_scopes
    ranked_answers call f allowed =
        arrive (ask_scopes r call f (effective_scopes r allowed f.filter.scopes))

    -- `Search`
    unfoldable pub search : W → Text → AuthFilter → ℤ → Result (List RankedNote)
    unfolding ranked_answers gather_answers cut_ranked
    search w text f limit = with_scopes f.allowed_scopes (λ allowed. cut_ranked limit (
        sort scored_before (
          gather_answers
            (ranked_answers (λ s g. Service.search_notes u nfc s w text g limit) f allowed))))

    -- `HybridSearch`; `hybrid` is that of the services
    unfoldable pub hybrid_search :
        (Service W → AuthFilter → Result (List RankedNote))
        → AuthFilter
        → ℤ
        → Result (List RankedNote)
    unfolding ranked_answers gather_answers best_of
    hybrid_search hybrid f limit = with_scopes f.allowed_scopes (λ allowed. ok (
        best_of (or_ten limit)
          (sort scored_before (gather_answers (ranked_answers hybrid f allowed)))))

    -- `SemanticSearch`
    unfoldable pub semantic_search :
        W → Text → AuthFilter → SemanticOptions → Result (List RankedNote)
    unfolding ranked_answers merge_semantic
    semantic_search w text f o = with_scopes f.allowed_scopes (λ allowed.
        merge_semantic o.limit
          (ranked_answers (λ s g. Search.semantic_search u nfc s w text g o) f allowed))

  -- `SemanticCapable`
  unfoldable pub semantic_capable : Bool
  semantic_capable = any (λ e. capable (e.svc.searcher)) r.entries
    where
      capable : {S : Type 0} → Option S → Bool
      capable none = false
      capable (some find) = true

  -- `Backlinks`
  unfoldable pub backlinks :
      (Answers BacklinkEntry → Answers BacklinkEntry)
      → W
      → NoteRef
      → Bool
      → AuthFilter
      → Result (List BacklinkEntry)
  unfolding ask_scopes gather_answers
  backlinks arrive w ref include_assets f = with_scopes f.allowed_scopes (λ allowed. ok (
      gather_answers (
        arrive (
          ask_scopes r (λ s g. Service.backlinks u nfc s w ref include_assets g) f
            (effective_scopes r allowed f.filter.scopes)))))

  -- `Stale`
  unfoldable pub stale : W → Time → List Category → Text → ℤ → AuthFilter → Result QueryResult
  stale w cutoff categories status limit f = do
    e ← local_entry r
    Search.stale u nfc e.svc w cutoff categories status limit f

  -- `Related`
  unfoldable pub related : W → NoteRef → ℤ → AuthFilter → Result (List RankedNote)
  related w ref limit f = do e ← entry_for_ref r ref; Search.related u nfc e.svc w ref limit f
