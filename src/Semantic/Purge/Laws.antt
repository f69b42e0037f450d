-- ===== src/Semantic/Purge/Laws.antt =====
-- What a sweep deletes, what it remembers, and when it raises an alarm.
use para_mcp.Prelude.{
  ◌+◌, ◌≡◌, ◌&&◌, refl, sym, ap, ◌∙◌, subst, Bool, true, false, Option, none, some, List, [], ◌∷◌,
  arith, leb, length, if◌then◌else◌, keep,
}
use para_mcp.Prelude.Text.{Text, dec_text, contains}
use para_mcp.Prelude.Assoc.{Assoc, get, put, remove, get-put, get-remove}
use para_mcp.Domain.Results.{Result, ok, err, ◌>>=◌}
use para_mcp.Domain.Entities.{Time}
use para_mcp.Domain.Filter.{is_empty}
use para_mcp.Semantic.Purge.{
  Vectors, Config, Failures, no_failures, Purger, window, first_failure, on_sweep_error, old_enough,
  due, forget, track, Swept, finish, sweep_listed, sweep,
}

-- What is chosen is what was listed and is old enough, where its age is known.
due-keep :
    (cfg : Config) (now : Time) (index : Assoc Text Time) (ids : List Text)
    → due cfg now index ids ≡ keep (λ id. old_enough cfg now (get dec_text id index)) ids
unfolding due
due-keep cfg now index [] = refl
due-keep cfg now index (id ∷ ids) = rw (due-keep cfg now index ids) refl

get-forget :
    (k : Text) (ids : List Text) (m : Assoc Text Time)
    → get dec_text k (forget ids m) ≡ (if contains k ids then none else get dec_text k m)
unfolding forget contains
get-forget k [] m = refl
get-forget k (id ∷ ids) m =
    get-forget k ids (remove dec_text id m) ∙ ground (arith, get-remove dec_text id k m)

get-track :
    (k : Text) (now : Time) (ids : List Text) (m : Assoc Text Time)
    → get dec_text k (track now ids m) ≡ (if contains k ids then some now else get dec_text k m)
unfolding track contains
get-track k now [] m = refl
get-track k now (id ∷ ids) m =
    get-track k now ids (put dec_text id now m) ∙ ground (arith, get-put dec_text id k now m)

abbrev pub succeeded : {A : Type 0} → Result A → Bool
succeeded (ok a) = true
succeeded (err e) = false

module _ {V : Type 0} (vs : Vectors V) (cfg : Config) where
  -- the answer of the vector store to a deletion; it is not called for no vectors
  abbrev pub deletion : Purger V → List Text → Result (Unit {0}) × V
  deletion p [] = (ok tt, p.vectors)
  deletion p (id ∷ ids) = vs.delete (id ∷ ids) p.vectors

  -- what a sweep that chose `ids` returns, and what it says of a tombstone, of the failures and of the alarm
  abbrev pub IsSwept : Time → Purger V → List Text → Text → Swept V → Type 0
  IsSwept now p ids k s =
      (s.after.vectors ≡ (deletion p ids).1)
      × (s.count ≡ ((deletion p ids).0 >>= (λ _. ok (length ids))))
      × (get dec_text k s.after.index ≡ (
          if contains k ids
          then (if succeeded s.count then none else some now)
          else get dec_text k p.index))
      × (s.after.failures
          ≡ (if succeeded s.count then no_failures else (on_sweep_error cfg now p.failures).0))
      × (s.escalated ≡ (if succeeded s.count then none else (on_sweep_error cfg now p.failures).1))

  finish-IsSwept :
      (now : Time) (p : Purger V) (id : Text) (ids : List Text) (k : Text)
      (out : Result (Unit {0}) × V)
      → deletion p (id ∷ ids) ≡ out
      → IsSwept now p (id ∷ ids) k (finish vs cfg now (id ∷ ids) p out)
  finish-IsSwept now p id ids k (ok _, v) e = (
    ap (λ o. o.1) (sym e),
    ap (λ o. o.0 >>= (λ _. ok (length (id ∷ ids)))) (sym e),
    get-forget k (id ∷ ids) p.index,
    refl,
    refl,
  )
  finish-IsSwept now p id ids k (err x, v) e = (
    ap (λ o. o.1) (sym e),
    ap (λ o. o.0 >>= (λ _. ok (length (id ∷ ids)))) (sym e),
    get-track k now (id ∷ ids) (forget (id ∷ ids) p.index)
        ∙ ground (arith, get-forget k (id ∷ ids) p.index),
    refl,
    refl,
  )

  -- A sweep that could list the tombstones deletes from the vector store exactly those that it knows no age
  -- of or that are old enough, in one call, and makes no call where there are none; it returns their number,
  -- or the error of the deletion. It forgets the ages of what it has deleted, takes now as the age of these
  -- where the deletion failed, and leaves every other age alone. A success clears the count of failures, and
  -- only a failure can raise an alarm.
  pub purge_sweep_lem :
      (now : Time) (p : Purger V) (candidates : List Text) (k : Text)
      → vs.list_tombstoned p.vectors cfg.startup_sweep_max ≡ ok candidates
      → IsSwept now p
          (keep (λ id. old_enough cfg now (get dec_text id p.index)) candidates)
          k
          (sweep vs cfg now p)
  unfolding sweep contains
  purge_sweep_lem now p candidates k h =
      subst
        (λ o.
          IsSwept now p (keep (λ id. old_enough cfg now (get dec_text id p.index)) candidates) k
            (sweep_listed vs cfg now p o))
        (sym h)
        (rw (due-keep cfg now p.index candidates)
          (go (keep (λ id. old_enough cfg now (get dec_text id p.index)) candidates)))
    where
      go :
          (ids : List Text)
          → IsSwept now p ids k (
              if is_empty ids
              then record {
                count = ok 0;
                escalated = none;
                after = record p { failures = no_failures };
              }
              else finish vs cfg now ids p (vs.delete ids p.vectors))
      go [] = (refl, refl, refl, refl, refl)
      go (id ∷ ids) = finish-IsSwept now p id ids k (vs.delete (id ∷ ids) p.vectors) refl

-- The sweeps so far, the last one first: `some t` failed at `t`, `none` succeeded.
abbrev pub History : Type 0
History = List (Option Time)

-- the counters after them
abbrev pub counters : Config → History → Failures
counters cfg [] = no_failures
counters cfg (none ∷ hs) = no_failures
counters cfg (some t ∷ hs) = (on_sweep_error cfg t (counters cfg hs)).0

-- the times of the failures since the last success
abbrev pub streak : History → List Time
streak [] = []
streak (none ∷ hs) = []
streak (some t ∷ hs) = t ∷ streak hs

-- the oldest of them
abbrev pub oldest : List Time → Option Time
oldest [] = none
oldest (t ∷ ts) = some (elim (oldest ts) [ none ↦ t | some u ↦ u ])

-- The counters are the length of the running series of failures and the time of its first, and a failure
-- raises an alarm exactly where it comes a whole window after that first one and a callback is set.
pub counters_lem :
    (cfg : Config) (hs : History) (now : Time)
    → ((counters cfg hs).failure_count ≡ length (streak hs))
      × ((counters cfg hs).first_failed_at ≡ oldest (streak hs))
      × ((on_sweep_error cfg now (counters cfg hs)).1 ≡ (
          if cfg.escalates && leb (first_failure now (oldest (streak hs)) + window cfg) now
          then some (first_failure now (oldest (streak hs)), length (streak hs) + 1)
          else none))
unfolding on_sweep_error
counters_lem cfg hs now = let (n, first) = counted hs in (n, first, rw (first, n) (ground arith))
  where
    counted :
        (hs : History)
        → ((counters cfg hs).failure_count ≡ length (streak hs))
          × ((counters cfg hs).first_failed_at ≡ oldest (streak hs))
    counted [] = (refl, refl)
    counted (none ∷ hs) = (refl, refl)
    counted (some t ∷ hs) =
        let (n, first) = counted hs in
        (
          omega (arith, n),
          ap (λ o. some (first_failure t o)) first ∙ first_of t (oldest (streak hs)),
        )
      where
        first_of :
            (t : Time) (o : Option Time)
            → ◌≡◌ {A = Option Time}
                (some (first_failure t o))
                (some (elim o [ none ↦ t | some u ↦ u ]))
        first_of t none = refl
        first_of t (some u) = refl
