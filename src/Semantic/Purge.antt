-- ===== src/Semantic/Purge.antt =====
-- infra/semantic/tombstone/tombstone.go: `Purger`, which removes the vectors of deleted notes.
pub mod Laws
use para_mcp.Prelude.{
  ℕ, suc, ◌+◌, ◌*◌, ◌-◌, Bool, true, false, Option, none, some, List, [], ◌∷◌, ◌++◌, leb, ltb,
  length, any, if◌then◌else◌,
}
use para_mcp.Prelude.Int.{ℤ, pos, negsuc, ltb_ℤ}
use para_mcp.Prelude.Text.{Text, dec_text, same}
use para_mcp.Prelude.Assoc.{Assoc, get, put, remove}
use para_mcp.Domain.Results.{Result, ok, err, Error}
use para_mcp.Domain.Entities.{NoteRef, Time}
use para_mcp.Domain.Filter.{is_empty}
use para_mcp.Vault.{Write}

-- `ports.VectorTombstoner`, over the state `V` of the vector store
pub record Vectors (V : Type 0) : Type 0 where
  pub list_tombstoned : V → ℤ → Result (List Text)
  pub delete : List Text → Write V (Unit {0})
  pub tombstone : List Text → Write V (Unit {0})

-- `Config`. No age or window is negative; the callback's calls are results of a sweep.
pub record Config : Type 0 where
  pub startup_sweep_max : ℤ
  pub orphan_max_age : Time
  pub sweep_failure_window : Time
  pub escalates : Bool

-- 24 hours, in nanoseconds
abbrev pub default_failure_window : Time
default_failure_window = 24 * 3600 * 1000000000

-- `sweepFirstFailedAt`, where `none` is the zero time, and `sweepFailureCount`
pub record Failures : Type 0 where
  pub first_failed_at : Option Time
  pub failure_count : ℕ

abbrev pub no_failures : Failures
no_failures = record { first_failed_at = none; failure_count = 0 }

-- `Purger`, with the vector store
pub record Purger (V : Type 0) : Type 0 where
  pub vectors : V
  pub index : Assoc Text Time
  pub queue : List (Text × NoteRef)
  pub failures : Failures

abbrev pub window : Config → Time
window cfg =
    if leb cfg.sweep_failure_window 0 then default_failure_window else cfg.sweep_failure_window

abbrev pub first_failure : Time → Option Time → Time
first_failure now none = now
first_failure now (some t) = t

-- `onSweepError`: the counters after it, and the call of `OnSweepDegraded`, if it makes one
unfoldable pub on_sweep_error : Config → Time → Failures → Failures × Option (Time × ℕ)
on_sweep_error cfg now f =
    let first = first_failure now f.first_failed_at in
    let count = f.failure_count + 1 in
    (
      record { first_failed_at = some first; failure_count = count },
      if leb (first + window cfg) now
          then (if cfg.escalates then some (first, count) else none)
          else none,
    )

-- what `Sweep` deletes: no age is known of what an earlier process left
abbrev pub old_enough : Config → Time → Option Time → Bool
old_enough cfg now none = true
old_enough cfg now (some t) = leb (t + cfg.orphan_max_age) now

unfoldable pub due : Config → Time → Assoc Text Time → List Text → List Text
unfolding get dec_text
due cfg now index [] = []
due cfg now index (id ∷ ids) =
    let rest = due cfg now index ids in
    if old_enough cfg now (get dec_text id index) then id ∷ rest else rest

unfoldable pub forget : List Text → Assoc Text Time → Assoc Text Time
unfolding remove dec_text
forget [] m = m
forget (id ∷ ids) m = forget ids (remove dec_text id m)

unfoldable pub track : Time → List Text → Assoc Text Time → Assoc Text Time
unfolding put dec_text
track now [] m = m
track now (id ∷ ids) m = track now ids (put dec_text id now m)

-- what a sweep returns, with the call of `OnSweepDegraded`
pub record Swept (V : Type 0) : Type 0 where
  pub count : Result ℕ
  pub escalated : Option (Time × ℕ)
  pub after : Purger V

module _ {V : Type 0} (vs : Vectors V) (cfg : Config) where
  abbrev pub finish : Time → List Text → Purger V → Result (Unit {0}) × V → Swept V
  finish now ids p (ok _, v) = record {
    count = ok (length ids);
    escalated = none;
    after = record p { vectors = v; index = forget ids p.index; failures = no_failures };
  }
  finish now ids p (err e, v) =
      let (f, call) = on_sweep_error cfg now p.failures in
      record {
        count = err e;
        escalated = call;
        after = record p { vectors = v; index = track now ids (forget ids p.index); failures = f };
      }

  abbrev pub sweep_listed : Time → Purger V → Result (List Text) → Swept V
  unfolding due forget track on_sweep_error
  sweep_listed now p (err e) =
      let (f, call) = on_sweep_error cfg now p.failures in
      record { count = err e; escalated = call; after = record p { failures = f } }
  sweep_listed now p (ok candidates) =
      let ids = due cfg now p.index candidates in
      if is_empty ids
      then record { count = ok 0; escalated = none; after = record p { failures = no_failures } }
      else finish now ids p (vs.delete ids p.vectors)

  -- `Sweep`
  unfoldable pub sweep : Time → Purger V → Swept V
  unfolding sweep_listed
  sweep now p = sweep_listed now p (vs.list_tombstoned p.vectors cfg.startup_sweep_max)

  abbrev marked : Time → Text → Purger V → Result (Unit {0}) × V → Result (Unit {0}) × Purger V
  marked now id p (err e, v) = (err e, record p { vectors = v })
  marked now id p (ok _, v) = (ok tt, record p { vectors = v; index = put dec_text id now p.index })

  -- `Tombstone`
  unfoldable pub tombstone : Time → Text → Purger V → Result (Unit {0}) × Purger V
  unfolding put
  tombstone now id p = marked now id p (vs.tombstone (id ∷ []) p.vectors)

  abbrev purged : Text → Purger V → Result (Unit {0}) × V → Result (Unit {0}) × Purger V
  purged id p (err e, v) = (err e, record p { vectors = v })
  purged id p (ok _, v) = (ok tt, record p { vectors = v; index = remove dec_text id p.index })

  -- `NotePurge`, without the write to the derived store, whose result is dropped
  unfoldable pub note_purge : Text → Purger V → Result (Unit {0}) × Purger V
  unfolding remove
  note_purge id p = purged id p (vs.delete (id ∷ []) p.vectors)

  -- `NotePurgeExternal`
  unfoldable pub note_purge_external : Text → NoteRef → Purger V → Purger V
  note_purge_external id ref p = record p { queue = p.queue ++ (id, ref) ∷ [] }

  -- `IsPendingExternal`
  unfoldable pub is_pending_external : Text → Purger V → Bool
  unfolding dec_text
  is_pending_external id p = any (λ item. same item.0 id) p.queue
