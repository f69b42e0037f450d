-- ===== src/Federation/Idempotency.antt =====
-- application/federation.go: the cache of completed promotions, by idempotency key.
use para_mcp.Prelude.{
  ℕ, suc, ◌+◌, ◌*◌, ◌≤◌, ◌<◌, ◌≡◌, refl, Option, none, some, [], ◌∷◌, arith, ltb, leb, length,
  if◌then◌else◌, Bool-cases, inl, inr,
}
use para_mcp.Prelude.Text.{Text, dec_text}
use para_mcp.Prelude.Assoc.{
  Assoc, get, put, remove, get-put, Distinct, Distinct-put, Distinct-remove, length-remove,
  length-remove-le,
}
use para_mcp.Domain.Entities.{MutationResult, Time}

-- `idempotencyEntry`
pub record Cached : Type 0 where
  pub result : MutationResult
  pub expiry : Time

abbrev pub Cache : Type 0
Cache = Assoc Text Cached

-- 24 hours, in nanoseconds
abbrev pub ttl : Time
ttl = 24 * 3600 * 1000000000

abbrev pub max_size : ℕ
max_size = 10000

abbrev live : Time → Option Cached → Option MutationResult
live now none = none
live now (some e) = if ltb e.expiry now then none else some e.result

-- `lookupIdempotency`
unfoldable pub lookup : Text → Time → Cache → Option MutationResult
unfolding get
lookup key now m = live now (get dec_text key m)

-- `storeIdempotency`; `pick` is the key that the iteration of the map comes to first.
unfoldable pub store : (Cache → Text) → Text → MutationResult → Time → Cache → Cache
unfolding put
store pick key result now m =
    let room = if leb max_size (length m) then remove dec_text (pick m) m else m in
    put dec_text key (record { result = result; expiry = now + ttl }) room

-- one tick of `runIdempotencySweep`
unfoldable pub sweep : Time → Cache → Cache
sweep now [] = []
sweep now (e ∷ m) = let rest = sweep now m in if ltb e.1.expiry now then rest else e ∷ rest

-- Each key once, and never more than `max_size` of them.
pub record IsBounded (m : Cache) : Type 0 where
  pub unique : Distinct dec_text m
  pub bounded : length m ≤ max_size

-- A key that `pick` returns is in the map, unless the map is empty.
abbrev pub Picks : (Cache → Text) → Type 0
Picks pick = (m : Cache) → 0 < length m → (e : Cached) × (get dec_text (pick m) m ≡ some e)

length-put-le : (k : Text) (e : Cached) (m : Cache) → length (put dec_text k e m) ≤ suc (length m)
unfolding put
length-put-le k e m = omega (arith, length-remove-le dec_text k m)

-- the map after the eviction
abbrev room : (Cache → Text) → Cache → Cache
room pick m = if leb max_size (length m) then remove dec_text (pick m) m else m

room_fits :
    (pick : Cache → Text) (m : Cache)
    → Picks pick
    → IsBounded m
    → Distinct dec_text (room pick m) × (length (room pick m) < max_size)
room_fits pick m picks b = elim (Bool-cases (leb max_size (length m))) [
  | inl full ↦
      let (e, there) = picks m (ground arith) in
      rw full (
        Distinct-remove dec_text (pick m) m b.unique,
        omega (arith, length-remove dec_text (pick m) m e b.unique there),
      )
  | inr space ↦ rw space (b.unique, ground arith)
]

-- Storing keeps a cache within its bound, and a later lookup has the result until 24 hours
-- after and not beyond. The map's iteration comes first to a key of the map.
pub store_lem :
    (pick : Cache → Text) (key : Text) (result : MutationResult) (now later : Time) (m : Cache)
    → Picks pick
    → IsBounded m
    → IsBounded (store pick key result now m)
      × (lookup key later (store pick key result now m)
          ≡ (if leb later (now + ttl) then some result else none))
unfolding store lookup
store_lem pick key result now later m picks b =
    let (u, l) = room_fits pick m picks b in
    (
      record {
        unique = Distinct-put dec_text key e (room pick m) u;
        bounded = omega (arith, length-put-le key e (room pick m));
      },
      ground (arith, get-put dec_text key key e (room pick m)),
    )
  where
    e : Cached
    e = record { result = result; expiry = now + ttl }

get-sweep :
    (key : Text) (now : Time) (m : Cache)
    → Distinct dec_text m
    → get dec_text key (sweep now m) ≡ elim (get dec_text key m) [
      | none ↦ none
      | some e ↦ if ltb e.expiry now then none else some e
    ]
unfolding get sweep
get-sweep key now [] d = refl
get-sweep key now ((k, e) ∷ m) d = ground (arith, get-sweep key now m d.1, d.0)

Distinct-sweep : (now : Time) (m : Cache) → Distinct dec_text m → Distinct dec_text (sweep now m)
unfolding sweep
Distinct-sweep now [] d = tt
Distinct-sweep now ((k, e) ∷ m) d = elim (Bool-cases (ltb e.expiry now)) [
  | inl old ↦ rw old (Distinct-sweep now m d.1)
  | inr fresh ↦ rw fresh (ground (arith, get-sweep k now m d.1, d.0), Distinct-sweep now m d.1)
]

length-sweep-le : (now : Time) (m : Cache) → length (sweep now m) ≤ length m
unfolding sweep
length-sweep-le now [] = omega arith
length-sweep-le now ((k, e) ∷ m) = ground (arith, length-sweep-le now m)

-- A sweep changes no lookup at its time or later, and keeps the cache within its size.
pub sweep_lem :
    (key : Text) (now later : Time) (m : Cache)
    → IsBounded m
    → now ≤ later
    → IsBounded (sweep now m) × (lookup key later (sweep now m) ≡ lookup key later m)
unfolding lookup
sweep_lem key now later m b h = (
  record { unique = Distinct-sweep now m b.unique; bounded = omega (arith, length-sweep-le now m) },
  ground (arith, get-sweep key now m b.unique),
)
