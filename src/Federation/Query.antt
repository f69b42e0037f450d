-- ===== src/Federation/Query.antt =====
-- application/federation.go: `Query`, which asks every scope and merges the pages.
pub mod Counts
pub mod Page
pub mod Sources
use para_mcp.Prelude.{
  ℕ, suc, ◌+◌, ◌≡◌, Bool, true, false, not, Option, none, some, List, [], ◌∷◌, ◌++◌, ltb, length,
  take, keep, map, if◌then◌else◌,
}
use para_mcp.Prelude.Int.{ℤ, pos, negsuc, ◌+ℤ◌}
use para_mcp.Prelude.Text.{Text, Unicode, dec_text}
use para_mcp.Prelude.Assoc.{Assoc, get, put, values}
use para_mcp.Domain.Results.{
  Result, ok, err, Error, allowed_scopes_nil, unavailable, panic, QueryResult, ◌>>=◌,
}
use para_mcp.Domain.Entities.{ScopeId, NoteSummary, QueryRequest, PartialFailure}
use para_mcp.Domain.Filter.{is_empty}
use para_mcp.Domain.Order.{sort_summaries}
use para_mcp.Service
use para_mcp.Federation.{Registry, Entry, entry_for}
use para_mcp.Federation.Tombstones.{Tombstones, contains_ref}
use para_mcp.Federation.Scopes.{Payload, offset_of, resolve}

-- `scopeResult`: what one goroutine sends
pub record ScopeResult : Type 0 where
  pub scope : ScopeId
  pub res : Result QueryResult

-- the request that one scope is asked: one note more than the page, from the scope's offset
abbrev pub scope_request : QueryRequest → ScopeId → ℤ → QueryRequest
scope_request q sc offset = record q {
  allowed_scopes = some (sc ∷ []);
  limit = q.limit +ℤ pos 1;
  offset = offset;
  cursor = [];
}

-- What the loop over the channel has gathered.
pub record Gathered : Type 0 where
  pub attempted : List ScopeId
  pub succeeded : List ScopeId
  pub failed : List (ScopeId × Error)
  pub all_notes : List NoteSummary

-- the loop over the channel, over the results in the order in which they arrive
unfoldable pub gather : Tombstones → List ScopeResult → Gathered
unfolding contains_ref
gather dead [] = record { attempted = []; succeeded = []; failed = []; all_notes = [] }
gather dead (r ∷ rs) =
    let g = gather dead rs in
    elim r.res [
      | err e ↦ record g { attempted = r.scope ∷ g.attempted; failed = (r.scope, e) ∷ g.failed }
      | ok page ↦ record g {
        attempted = r.scope ∷ g.attempted;
        succeeded = r.scope ∷ g.succeeded;
        all_notes = keep (λ n. not (contains_ref n.ref dead)) page.notes ++ g.all_notes;
      }
    ]

-- `all[:q.Limit]` where there are more notes than that; a negative bound is a run-time panic
unfoldable pub cut_page : ℤ → List NoteSummary → Result (List NoteSummary × Bool)
cut_page (negsuc n) l = err panic
cut_page (pos n) l = if ltb n (length l) then ok (take n l, true) else ok (l, false)

-- `m[k]`, where a missing key reads 0
abbrev pub count_at : ScopeId → Assoc ScopeId ℕ → ℕ
count_at sc m = elim (get dec_text sc m) [ none ↦ 0 | some n ↦ n ]

-- the loop `perScope[n.Ref.Scope]++`
unfoldable pub tally : Assoc ScopeId ℕ → List NoteSummary → Assoc ScopeId ℕ
unfolding get put dec_text
tally m [] = m
tally m (n ∷ ns) = tally (put dec_text n.ref.scope (count_at n.ref.scope m + 1) m) ns

-- the loop that advances each scope by the notes that were taken from it
unfoldable pub advance :
    Assoc ScopeId ℤ → Assoc ScopeId ℕ → List ScopeId → Assoc ScopeId ℤ → Assoc ScopeId ℤ
unfolding get put dec_text offset_of
advance offsets per_scope [] m = m
advance offsets per_scope (sc ∷ scs) m =
    advance offsets per_scope scs
      (put dec_text sc (offset_of sc offsets +ℤ pos (count_at sc per_scope)) m)

unfoldable pub total : Assoc ScopeId ℕ → ℕ
total [] = 0
total (e ∷ m) = e.1 + total m

-- the failures, if there are any
unfoldable pub partial : List (ScopeId × Error) → Option (PartialFailure Error)
partial [] = none
partial (f ∷ fs) = some (record { failed_scopes = map (λ g. g.0) (f ∷ fs); reason = f ∷ fs })

-- the payload that the next request starts from
abbrev pub next_payload : QueryRequest → List ScopeId → Assoc ScopeId ℤ → List NoteSummary → Payload
next_payload q scopes offsets page = record {
  sort = q.sort;
  desc = q.desc;
  scopes = scopes;
  offsets = advance offsets (tally [] page) scopes [];
}

abbrev pub assemble : Gathered → List NoteSummary → Bool → Text → QueryResult
assemble g page more cursor =
    let per_scope = tally [] page in
    record {
      notes = page;
      total = total per_scope;
      has_more = more;
      per_scope = per_scope;
      scopes_attempted = g.attempted;
      scopes_succeeded = g.succeeded;
      partial_failure = partial g.failed;
      next_cursor = cursor;
    }

-- the part behind the loop over the channel; `encode` is `encodeCursor`
unfoldable pub merge :
    (Payload → Result Text)
    → QueryRequest
    → List ScopeId
    → Assoc ScopeId ℤ
    → Gathered
    → Result QueryResult
unfolding cut_page tally advance total partial
merge encode q scopes offsets g = if is_empty g.succeeded then err unavailable else do
  (page, more) ← cut_page q.limit (sort_summaries g.all_notes q.sort q.desc)
  cursor ← if more then encode (next_payload q scopes offsets page) else ok []
  ok (assemble g page more cursor)

module _ (u : Unicode) (nfc : Text → Text) {W : Type 0} (r : Registry W)
    (arrive : List ScopeResult → List ScopeResult) where
  abbrev pub ask_one :
      W → QueryRequest → ScopeId → ℤ → Option (Entry W) → List ScopeResult → List ScopeResult
  ask_one w q sc offset none rest = rest
  ask_one w q sc offset (some e) rest =
      record { scope = sc; res = Service.query u nfc e.svc w (scope_request q sc offset) } ∷ rest

  -- the goroutines' calls, for the scopes that are registered
  unfoldable pub ask : W → QueryRequest → Assoc ScopeId ℤ → List ScopeId → List ScopeResult
  ask w q offsets [] = []
  ask w q offsets (sc ∷ scs) =
      ask_one w q sc (offset_of sc offsets) (entry_for r sc) (ask w q offsets scs)

  unfoldable pub answer :
      (Text → Result Payload)
      → (Payload → Result Text)
      → Tombstones
      → W
      → QueryRequest
      → Option (List ScopeId)
      → Result QueryResult
  unfolding ask gather merge
  answer decode encode dead w q none = err allowed_scopes_nil
  answer decode encode dead w q (some allowed) = do
    (scopes, offsets) ← resolve r decode allowed q
    merge encode q scopes offsets (gather dead (arrive (ask w q offsets scopes)))

  -- `Query`. `arrive` is the order in which the results reach the channel; `decode` and `encode` are
  -- the cursor codec with the service's key and store.
  unfoldable pub query :
      (Text → Result Payload)
      → (Payload → Result Text)
      → Tombstones
      → W
      → QueryRequest
      → Result QueryResult
  unfolding answer
  query decode encode dead w q = answer decode encode dead w q q.allowed_scopes
