-- ===== src/Federation/Query/Sources.antt =====
-- Where the notes of a merged page come from, and what the failures of single scopes do to it.
use mathlib.Core.List.{Permᴰ}
use para_mcp.Prelude.{
  Bool, false, map, ap, ◌∙◌, ◌≡◌, ◌≢◌, refl, true, not, Option, none, some, List, [], ◌∷◌, keep,
  All, All-append, All-take, All-keep_of, subst,
}
use para_mcp.Prelude.Int.{ℤ}
use para_mcp.Prelude.Text.{Text, Unicode, contains}
use para_mcp.Prelude.Assoc.{Assoc}
use para_mcp.Prelude.Sort.{All_perm, All-sort}
use para_mcp.Domain.Results.{Result, ok, err, Error, unavailable, QueryResult, >>=-eq-ok}
use para_mcp.Domain.Entities.{ScopeId, NoteSummary, QueryRequest, PartialFailure}
use para_mcp.Domain.Order.{in_order, sort_summaries}
use para_mcp.Service
use para_mcp.Federation.{Registry, Entry, entry_for}
use para_mcp.Federation.Tombstones.{Tombstones, contains_ref}
use para_mcp.Federation.Scopes.{Payload, offset_of, resolve, resolve-allowed}
use para_mcp.Federation.Query.{
  ScopeResult, scope_request, gather, merge, partial, ask, ask_one, answer, query,
}
use para_mcp.Federation.Query.Page.{merge-IsPage}

-- the notes of a result are all in `P`
abbrev pub Answers : (NoteSummary → Type 0) → Result QueryResult → Type 0
Answers P (err e) = Unit
Answers P (ok page) = All P page.notes

All-gather_of :
    (P : NoteSummary → Type 0) (dead : Tombstones) (rs : List ScopeResult)
    → All (λ r. Answers P r.res) rs
    → All P (gather dead rs).all_notes
unfolding gather
All-gather_of P dead [] h = tt
All-gather_of P dead (r ∷ rs) h = go r.res h.0 (All-gather_of P dead rs h.1)
  where
    go :
        (o : Result QueryResult)
        → Answers P o
        → All P (gather dead rs).all_notes
        → All P (gather dead (record { scope = r.scope; res = o } ∷ rs)).all_notes
    go (err e) a k = k
    go (ok page) a k =
        All-append P (keep (λ n. not (contains_ref n.ref dead)) page.notes)
          (gather dead rs).all_notes
          (All-keep_of P (λ n. not (contains_ref n.ref dead)) page.notes a) k

abbrev pub has_answered : Result QueryResult → Bool
has_answered (ok page) = true
has_answered (err e) = false

abbrev pub names : List ScopeResult → List ScopeId
names rs = map (λ r. r.scope) rs

-- Every scope that is asked is listed, and either as answered or as failed.
gather-names :
    (dead : Tombstones) (rs : List ScopeResult)
    → ((gather dead rs).attempted ≡ names rs)
      × ((gather dead rs).succeeded ≡ names (keep (λ r. has_answered r.res) rs))
      × (map (λ f. f.0) (gather dead rs).failed ≡ names (keep (λ r. not (has_answered r.res)) rs))
unfolding gather
gather-names dead [] = (refl, refl, refl)
gather-names dead (r ∷ rs) = go r.res (gather-names dead rs)
  where
    Named : List ScopeResult → Type 0
    Named l =
        ((gather dead l).attempted ≡ names l)
        × ((gather dead l).succeeded ≡ names (keep (λ r. has_answered r.res) l))
        × (map (λ f. f.0) (gather dead l).failed ≡ names (keep (λ r. not (has_answered r.res)) l))

    go : (o : Result QueryResult) → Named rs → Named (record { scope = r.scope; res = o } ∷ rs)
    go (err e) (a, b, c) = (ap (◌∷◌ r.scope) a, b, ap (◌∷◌ r.scope) c)
    go (ok page) (a, b, c) = (ap (◌∷◌ r.scope) a, ap (◌∷◌ r.scope) b, c)

-- the scopes that a partial failure names
abbrev pub failed_names : Option (PartialFailure Error) → List ScopeId
failed_names none = []
failed_names (some f) = f.failed_scopes

failed_names-partial : (fs : List (ScopeId × Error)) → failed_names (partial fs) ≡ map (λ f. f.0) fs
unfolding partial
failed_names-partial [] = refl
failed_names-partial (f ∷ fs) = refl

-- A page names every scope that was asked, in the order in which they answered: those that answered as
-- such, the others as failed, and at least one answered.
pub merge_failures :
    (encode : Payload → Result Text) (q : QueryRequest) (scopes : List ScopeId)
    (offsets : Assoc ScopeId ℤ) (dead : Tombstones) (rs : List ScopeResult) (res : QueryResult)
    → merge encode q scopes offsets (gather dead rs) ≡ ok res
    → (res.scopes_attempted ≡ names rs)
      × (res.scopes_succeeded ≡ names (keep (λ r. has_answered r.res) rs))
      × (failed_names res.partial_failure ≡ names (keep (λ r. not (has_answered r.res)) rs))
      × (res.scopes_succeeded ≢ [])
merge_failures encode q scopes offsets dead rs res h =
    let g = gather dead rs in
    let p = merge-IsPage q scopes offsets g encode res h in
    let (a, b, c) = gather-names dead rs in
    (
      p.attempts ∙ a,
      p.successes ∙ b,
      ap failed_names p.failures ∙ failed_names-partial g.failed ∙ c,
      rw p.successes p.answered,
    )

abbrev pub Failed : Result QueryResult → Type 0
Failed o = (e : Error) × (o ≡ err e)

-- Where every scope fails, or none is asked, the query fails as a whole.
pub merge_unavailable :
    (encode : Payload → Result Text) (q : QueryRequest) (scopes : List ScopeId)
    (offsets : Assoc ScopeId ℤ) (dead : Tombstones) (rs : List ScopeResult)
    → All (λ r. Failed r.res) rs
    → merge encode q scopes offsets (gather dead rs) ≡ err unavailable
unfolding merge gather
merge_unavailable encode q scopes offsets dead rs h = rw (none_succeeded rs h) refl
  where
    none_succeeded :
        (l : List ScopeResult) → All (λ r. Failed r.res) l → (gather dead l).succeeded ≡ []
    none_succeeded [] k = refl
    none_succeeded (r ∷ l) k = rw k.0.1 (none_succeeded l k.1)

module _ (u : Unicode) (nfc : Text → Text) {W : Type 0} (r : Registry W)
    (arrive : List ScopeResult → List ScopeResult)
    (arrives : (rs : List ScopeResult) → Permᴰ (arrive rs) rs) where
  ask-Answers :
      (P : NoteSummary → Type 0) (w : W) (q : QueryRequest) (offsets : Assoc ScopeId ℤ)
      (allowed scopes : List ScopeId)
      → ((sc : ScopeId) (e : Entry W) (offset : ℤ) (page : QueryResult)
          → contains sc allowed ≡ true
          → entry_for r sc ≡ some e
          → Service.query u nfc e.svc w (scope_request q sc offset) ≡ ok page
          → All P page.notes)
      → All (λ sc. contains sc allowed ≡ true) scopes
      → All (λ x. Answers P x.res) (ask u nfc r arrive w q offsets scopes)
  unfolding ask
  ask-Answers P w q offsets allowed [] h k = tt
  ask-Answers P w q offsets allowed (sc ∷ scs) h k =
      go (entry_for r sc) refl (ask-Answers P w q offsets allowed scs h k.1)
    where
      answered :
          (e : Entry W) (o : Result QueryResult)
          → entry_for r sc ≡ some e
          → Service.query u nfc e.svc w (scope_request q sc (offset_of sc offsets)) ≡ o
          → Answers P o
      answered e (err _) p a = tt
      answered e (ok page) p a = h sc e (offset_of sc offsets) page k.0 p a

      go :
          (o : Option (Entry W))
          → entry_for r sc ≡ o
          → All (λ x. Answers P x.res) (ask u nfc r arrive w q offsets scs)
          → All
              (λ x. Answers P x.res)
              (ask_one u nfc r arrive w q sc
                (offset_of sc offsets)
                o
                (ask u nfc r arrive w q offsets scs))
      go none p rest = rest
      go (some e) p rest = (answered e _ p refl, rest)

  -- Each note of a page comes from the page of a scope that the server allows: what holds of all notes
  -- that the allowed, registered scopes return holds of every note of the merged page, whatever the
  -- cursor says and in whatever order the scopes answer.
  pub query-sources :
      (P : NoteSummary → Type 0) (decode : Text → Result Payload) (encode : Payload → Result Text)
      (dead : Tombstones) (w : W) (q : QueryRequest) (allowed : List ScopeId) (res : QueryResult)
      → q.allowed_scopes ≡ some allowed
      → ((sc : ScopeId) (e : Entry W) (offset : ℤ) (page : QueryResult)
          → contains sc allowed ≡ true
          → entry_for r sc ≡ some e
          → Service.query u nfc e.svc w (scope_request q sc offset) ≡ ok page
          → All P page.notes)
      → query u nfc r arrive decode encode dead w q ≡ ok res
      → All P res.notes
  unfolding query answer sort_summaries
  query-sources P decode encode dead w q allowed res permitted h k =
      let (reach, reached, k2) =
        >>=-eq-ok (resolve r decode allowed q)
          (λ x. merge encode q x.0 x.1 (gather dead (arrive (ask u nfc r arrive w q x.1 x.0))))
          (subst (λ o. answer u nfc r arrive decode encode dead w q o ≡ ok res) permitted k) in
      let (scopes, offsets) = reach in
      let asked = ask u nfc r arrive w q offsets scopes in
      let g = gather dead (arrive asked) in
      let p = merge-IsPage q scopes offsets g encode res k2 in
      let legal = resolve-allowed r decode allowed q scopes offsets reached in
      let answers = ask-Answers P w q offsets allowed scopes h legal in
      rw p.first_notes (
        All-take P p.size (sort_summaries g.all_notes q.sort q.desc) (
          All-sort (in_order q.sort q.desc) P g.all_notes (
            All-gather_of P dead (arrive asked)
              (All_perm (λ x. Answers P x.res) (arrives asked) answers))))
