-- ===== src/Tests/Caches.antt =====
-- The caches, the handles, the sweeper and the wait at concrete inputs.
use para_mcp.Prelude.{
  ◌+◌, ◌≡◌, refl, true, false, not, ◌||◌, none, some, List, [], ◌∷◌, if◌then◌else◌, arith, ◌++◌,
  any, keep, is_some, ltb, leb,
}
use para_mcp.Prelude.Int.{pos}
use para_mcp.Prelude.Text.{Text, codes, dec_text, same}
use para_mcp.Prelude.Assoc.{get}
use para_mcp.Domain.Results.{Result, ok, err}
use para_mcp.Domain.Entities.{Note, MutationResult, pending, indexed}
use para_mcp.Federation.Idempotency.{Cache, lookup, store, IsBounded, Picks, ttl, store_lem}
use para_mcp.Server.Handles.{Handles, view, put_handle, IsHandles, put_handle-view}
use para_mcp.RemoteVault.Bodies.{
  BodyCache, new_body_cache, get_body, set_body, body_cache_max, body_cache_ttl, estimated_size,
}
use para_mcp.RemoteVault.Bodies.Bound.{IsCache, set_body-IsCache}
use para_mcp.Semantic.Purge.{Vectors, Config, Purger, no_failures, old_enough, sweep as purge}
use para_mcp.Semantic.Purge.Laws.{History, purge_sweep_lem, IsSwept}
use para_mcp.Semantic.Wait.{
  ends, deadline, Poll, Waited, tick, wait, wait_lem, wait-ends, is_terminal, explainer, wait_from,
}
use para_mcp.Tests.Fixtures.{note_at, mine, path_a, result_of}

abbrev result : MutationResult
result = result_of (note_at mine path_a)

abbrev key : Text
key = codes "k1"

abbrev cache : Cache
cache = (key, record { result = result; expiry = 5 }) ∷ []

-- the key of the first entry
abbrev first_key : Cache → Text
first_key [] = []
first_key (e ∷ m) = e.0

first_key-Picks : Picks first_key
unfolding get
first_key-Picks [] h = absurd (omega arith)
first_key-Picks (e ∷ m) h = (e.1, ground arith)

cache-IsBounded : IsBounded cache
unfolding get
cache-IsBounded = record { unique = (refl, tt); bounded = omega arith }

store_example :
    IsBounded (store first_key (codes "k2") result 10 cache)
    × (lookup (codes "k2") 20 (store first_key (codes "k2") result 10 cache)
        ≡ (if leb 20 (10 + ttl) then some result else none))
store_example = store_lem first_key (codes "k2") result 10 20 cache first_key-Picks cache-IsBounded

abbrev full : Handles
full = record { entries = (key, record { blob = codes "a"; expiry = 3 }) ∷ []; max_entries = 1 }

full-IsHandles : IsHandles full
unfolding get
full-IsHandles = (refl, tt)

put_handle-view_example :
    IsHandles (put_handle 4 (codes "k2") (codes "b") 10 full)
    × (view (put_handle 4 (codes "k2") (codes "b") 10 full) 5 (codes "k2") ≡ (
        if same (codes "k2") (codes "k2")
        then (if leb 5 (4 + 10) then some (codes "b") else none)
        else view full 5 (codes "k2")))
put_handle-view_example =
    put_handle-view 4 5 (codes "k2") (codes "k2") (codes "b") 10 full full-IsHandles (omega arith)

empty-IsCache : IsCache new_body_cache
unfolding get
empty-IsCache = record {
  links = record {
    linked = λ path e h. absurd (cc h);
    held = λ i b h. absurd (cc h);
    ids = tt;
    fresh = λ i h. refl;
    sized = refl;
  };
  bounded = omega arith;
}

abbrev note : Note
note = note_at mine path_a

set_body-IsCache_example :
    IsCache (set_body 1 path_a note new_body_cache)
    × ((get_body 2 path_a (set_body 1 path_a note new_body_cache)).0 ≡ (
        if ltb body_cache_max (estimated_size note)
        then none
        else if ltb (1 + body_cache_ttl) 2
        then none
        else some note))
set_body-IsCache_example = set_body-IsCache 1 2 path_a note new_body_cache empty-IsCache

abbrev one_body : BodyCache
one_body = set_body 1 path_a note new_body_cache

-- a vector store that holds the tombstones themselves
abbrev listed : Vectors (List Text)
listed = record {
  list_tombstoned = λ v limit. ok v;
  delete = λ ids v. (ok tt, []);
  tombstone = λ ids v. (ok tt, v);
}

abbrev config : Config
config = record {
  startup_sweep_max = pos 10;
  orphan_max_age = 5;
  sweep_failure_window = 0;
  escalates = true;
}

abbrev purger : Purger (List Text)
purger = record {
  vectors = codes "n1" ∷ codes "n2" ∷ [];
  index = (codes "n1", 1) ∷ (codes "n2", 8) ∷ [];
  queue = [];
  failures = no_failures;
}

abbrev chosen : List Text
chosen = keep (λ id. old_enough config 9 (get dec_text id purger.index)) purger.vectors

purge_sweep_example :
    IsSwept listed config 9 purger chosen (codes "n2") (purge listed config 9 purger)
purge_sweep_example = purge_sweep_lem listed config 9 purger purger.vectors (codes "n2") refl

abbrev two_failures : History
two_failures = some 7 ∷ some 3 ∷ none ∷ []

abbrev polls : List Poll
polls =
    (ok pending, tick) ∷ (err (para_mcp.Domain.Results.unavailable), tick) ∷ (ok indexed, tick) ∷ []

abbrev found : Waited
found = record { state = indexed; explanation = []; timed_out = false; cancelled = false }

wait_found : wait polls ≡ some found
unfolding wait wait_from is_terminal explainer
wait_found = refl

wait_example : ([] ≡ explainer indexed) × (is_terminal indexed ≡ not (false || false))
wait_example = wait_lem polls found wait_found

indexed-ends : ends (ok indexed, tick) ≡ true
unfolding is_terminal
indexed-ends = refl

abbrev open_polls : List Poll
open_polls = (ok pending, tick) ∷ (err (para_mcp.Domain.Results.unavailable), tick) ∷ []

none-ends : any ends open_polls ≡ false
unfolding is_terminal
none-ends = refl

wait-ends_example :
    (wait open_polls ≡ none)
    × (is_some (wait polls) ≡ true)
    × (wait (polls ++ (ok pending, deadline) ∷ []) ≡ wait polls)
wait-ends_example =
    wait-ends open_polls (ok indexed, tick) ((ok pending, deadline) ∷ []) none-ends indexed-ends
