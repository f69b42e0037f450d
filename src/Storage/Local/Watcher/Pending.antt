-- ===== src/Storage/Local/Watcher/Pending.antt =====
-- localvault/watcher.go and rename_tracker.go: no removal that waits for its pair is lost.
use para_mcp.Prelude.{
  subst, ◌≡◌, refl, ap, sym, ◌∙◌, ◌+◌, ◌⊎◌, inl, inr, Bool, true, false, not, List, [], ◌∷◌, ◌++◌,
  any, arith, if◌then◌else◌, Bool-cases, Option-cases,
}
use para_mcp.Prelude.Assoc.{get, has, get-put, get-remove}
use para_mcp.Prelude.Text.{Text, same, contains, dec_text}
use para_mcp.Domain.Entities.{Time}
use para_mcp.Storage.Links.{base}
use para_mcp.Storage.Local.Watcher.{
  new_watcher, Watching, Watcher, Event, WatchCall, indexes, removes, watches, rescans, Turn, Input,
  notified, elapsed, failed, ticked, rescanned, handle_event, on_create, on_remove, on_conflict,
  mark_removed, claim_if_pending, stop_timer, on_timer, on_tick, turn, turns, fire_all, find_paired,
  is_conflict,
}

abbrev pub waits : Text → Watcher → Bool
waits p w = has dec_text p w.pending

-- Each path that waits has a timer.
unfoldable pub IsTimed : Watcher → Type 0
IsTimed w = (p : Text) → waits p w ≡ true → contains p w.timers ≡ true

pub new_watcher-IsTimed : IsTimed new_watcher
unfolding IsTimed get
new_watcher-IsTimed p h = absurd (cc)

-- a call that drops the path from the index
unfoldable pub drops : Text → WatchCall → Bool
drops p (indexes q) = false
drops p (removes q) = same q p
drops p (watches q) = false
drops p rescans = false

unfoldable pub dropped_in : Text → List WatchCall → Bool
unfolding drops
dropped_in p calls = any (drops p) calls

dropped_in-append-left :
    (p : Text) (a b : List WatchCall) → dropped_in p a ≡ true → dropped_in p (a ++ b) ≡ true
unfolding dropped_in
dropped_in-append-left p [] b h = absurd (cc)
dropped_in-append-left p (x ∷ a) b h = ground (arith, dropped_in-append-left p a b)

dropped_in-append-right :
    (p : Text) (a b : List WatchCall) → dropped_in p b ≡ true → dropped_in p (a ++ b) ≡ true
unfolding dropped_in
dropped_in-append-right p [] b h = h
dropped_in-append-right p (x ∷ a) b h = ground (arith, dropped_in-append-right p a b h)

contains-stop_timer :
    (p name : Text) (ts : List Text)
    → same name p ≡ false
    → contains p ts ≡ true
    → contains p (stop_timer name ts) ≡ true
unfolding contains stop_timer
contains-stop_timer p name [] n h = cc
contains-stop_timer p name (t ∷ ts) n h = ground (arith, contains-stop_timer p name ts n)

-- what a turn has to keep of one path
abbrev Kept : Text → Watcher → Turn → Type 0
Kept p w out =
    ((waits p w ≡ true) → (waits p out.1 ≡ true) ⊎ (dropped_in p out.0 ≡ true))
    × (((waits p w ≡ true) → contains p w.timers ≡ true)
        → (waits p out.1 ≡ true)
        → contains p out.1.timers ≡ true)

still-Kept :
    (p : Text) (w v : Watcher) (calls : List WatchCall)
    → v.pending ≡ w.pending
    → v.timers ≡ w.timers
    → Kept p w (calls, v)
still-Kept p w v calls a b = (
  λ h. inl (ap (has dec_text p) a ∙ h),
  λ k h. ap (contains p) b ∙ k (ap (has dec_text p) (sym a) ∙ h),
)

module _ (c : Watching) where
  on_remove-Kept : (p name : Text) (now : Time) (w : Watcher) → Kept p w (on_remove c now name w)
  unfolding on_remove mark_removed contains
  on_remove-Kept p name now w = (
    λ h. inl (ground (arith, get-put dec_text name p (now + c.window) w.pending)),
    λ k h. elim (dec_text name p) [
      | yes e ↦ ground (arith, get-put dec_text name p (now + c.window) w.pending)
      | no n ↦ ground (arith, get-put dec_text name p (now + c.window) w.pending)
    ],
  )

  on_timer-Kept : (p name : Text) (w : Watcher) → Kept p w (on_timer c name w)
  unfolding on_timer claim_if_pending dropped_in
  on_timer-Kept p name w = (
    λ h. elim (dec_text name p) [
      | yes e ↦ inr (ground (arith))
      | no n ↦ inl (ground (arith, get-remove dec_text name p w.pending))
    ],
    λ k h. elim (dec_text name p) [
      | yes e ↦ absurd (ground (arith, get-remove dec_text name p w.pending))
      | no n ↦
          contains-stop_timer p name w.timers (ground arith)
            (k (ground (arith, get-remove dec_text name p w.pending)))
    ],
  )

  on_create-Kept :
      (p name : Text) (clock : Text → Time) (keys : List Text) (is_dir : Bool) (w : Watcher)
      → Kept p w (on_create c clock keys is_dir name w)
  unfolding on_create dropped_in
  on_create-Kept p name clock keys is_dir w =
      elim (Option-cases (find_paired c clock keys name w.pending)) [
        | inl a ↦ rw a (λ h. inl h, λ k h. k h)
        | inr (old, a) ↦ rw a (
          λ h. elim (dec_text old p) [
            | yes e ↦ inr (
                dropped_in-append-right p (if is_dir then watches name ∷ [] else [])
                  (removes old ∷ indexes name ∷ []) (ground arith))
            | no n ↦ inl (ground (arith, get-remove dec_text old p w.pending))
          ],
          λ k h. k (ground (arith, get-remove dec_text old p w.pending)),
        )
      ]

  handle_event-Kept :
      (p : Text) (now : Time) (clock : Text → Time) (keys : List Text) (is_dir : Bool)
      (event : Event) (w : Watcher)
      → Kept p w (handle_event c now clock keys is_dir event w)
  unfolding handle_event on_conflict
  handle_event-Kept p now clock keys is_dir event w =
      chosen (is_conflict c.patterns (base event.name)) event.has_create event.has_write
        event.has_remove event.has_rename
    where
      chosen :
          (b b1 b2 b3 b4 : Bool)
          → Kept p w (
              if b
              then on_conflict c event w
              else if b1
              then on_create c clock keys is_dir event.name w
              else if b2
              then (indexes event.name ∷ [], w)
              else if b3
              then on_remove c now event.name w
              else if b4
              then on_remove c now event.name w
              else ([], w))
      chosen true b1 b2 b3 b4 =
          still-Kept p w (on_conflict c event w).1 (on_conflict c event w).0 refl refl
      chosen false true b2 b3 b4 = on_create-Kept p event.name clock keys is_dir w
      chosen false false true b3 b4 = still-Kept p w w (indexes event.name ∷ []) refl refl
      chosen false false false true b4 = on_remove-Kept p event.name now w
      chosen false false false false true = on_remove-Kept p event.name now w
      chosen false false false false false = still-Kept p w w [] refl refl

  on_tick-Kept : (p : Text) (w : Watcher) → Kept p w (on_tick c w)
  unfolding on_tick
  on_tick-Kept p w = chosen w.dirty w.rescan_active
    where
      chosen :
          (a b : Bool)
          → Kept p w (
              if not a
              then ([], w)
              else if not b
              then (rescans ∷ [], record w { dirty = false; rescan_active = true })
              else ([], record w { dirty = false }))
      chosen false b = still-Kept p w w [] refl refl
      chosen true false =
          still-Kept p w (record w { dirty = false; rescan_active = true }) (rescans ∷ []) refl refl
      chosen true true = still-Kept p w (record w { dirty = false }) [] refl refl

  turn-Kept : (p : Text) (i : Input) (w : Watcher) → Kept p w (turn c i w)
  unfolding turn
  turn-Kept p (notified now clock keys is_dir event) w =
      handle_event-Kept p now clock keys is_dir event w
  turn-Kept p (elapsed name) w = elim (Bool-cases (contains name w.timers)) [
    | inl a ↦ rw a (on_timer-Kept p name w)
    | inr a ↦ rw a (still-Kept p w w [] refl refl)
  ]
  turn-Kept p failed w = still-Kept p w (record w { dirty = true }) [] refl refl
  turn-Kept p ticked w = on_tick-Kept p w
  turn-Kept p rescanned w = still-Kept p w (record w { rescan_active = false }) [] refl refl

  turns-Kept : (p : Text) (inputs : List Input) (w : Watcher) → Kept p w (turns c inputs w)
  unfolding turns
  turns-Kept p [] w = still-Kept p w w [] refl refl
  turns-Kept p (i ∷ inputs) w =
      let (a, b) = turn-Kept p i w in
      let v = (turn c i w).1 in
      let (a', b') = turns-Kept p inputs v in
      (
        λ h. elim (a h) [
          | inr d ↦ inr (dropped_in-append-left p (turn c i w).0 (turns c inputs v).0 d)
          | inl k ↦ elim (a' k) [
            | inl l ↦ inl l
            | inr d ↦ inr (dropped_in-append-right p (turn c i w).0 (turns c inputs v).0 d)
          ]
        ],
        λ k h. b' (b k) h,
      )

  on_timer-timers :
      (t : Text) (ts : List Text) (w : Watcher) → w.timers ≡ t ∷ ts → (on_timer c t w).1.timers ≡ ts
  unfolding on_timer stop_timer
  on_timer-timers t ts w e = rw e (ground arith)

  on_timer-drops :
      (p : Text) (w : Watcher) → waits p w ≡ true → dropped_in p (on_timer c p w).0 ≡ true
  unfolding on_timer claim_if_pending dropped_in
  on_timer-drops p w k = ground arith

  on_timer-waits :
      (p t : Text) (w : Watcher)
      → same t p ≡ false
      → waits p w ≡ true
      → waits p (on_timer c t w).1 ≡ true
  unfolding on_timer claim_if_pending
  on_timer-waits p t w n k = ground (arith, get-remove dec_text t p w.pending)

  -- the timers of a state fire, each once
  fired :
      (p : Text) (ts : List Text) (w : Watcher)
      → w.timers ≡ ts
      → contains p ts ≡ true
      → waits p w ≡ true
      → dropped_in p (turns c (fire_all ts) w).0 ≡ true
  unfolding turns turn contains
  fired p [] w e h k = absurd (cc)
  fired p (t ∷ ts) w e h k =
      let live : contains t w.timers ≡ true = ap (contains t) e ∙ ground arith in
      let v = (on_timer c t w).1 in
      rw live (elim (dec_text t p) [
        | yes q ↦
            dropped_in-append-left p (on_timer c t w).0 (turns c (fire_all ts) v).0
              (subst (λ t. dropped_in p (on_timer c t w).0 ≡ true) (sym q) (on_timer-drops p w k))
        | no n ↦ dropped_in-append-right p (on_timer c t w).0 (turns c (fire_all ts) v).0 (
            fired p ts v (on_timer-timers t ts w e) (ground arith)
              (on_timer-waits p t w (ground arith) k))
      ])

  pub turns-IsTimed : (inputs : List Input) (w : Watcher) → IsTimed w → IsTimed (turns c inputs w).1
  unfolding IsTimed
  turns-IsTimed inputs w h p = (turns-Kept p inputs w).1 (h p)

  -- A path that waits for its pair is dropped from the index, whatever comes before its timer: in the turns
  -- that come, as one half of a rename or by a timer, or when the timers that are left have fired. Each
  -- path that waits keeps a timer, if it was so before.
  pub removal_dropped :
      (p : Text) (inputs : List Input) (w : Watcher)
      → IsTimed w
      → waits p w ≡ true
      → let out = turns c inputs w in
        IsTimed out.1 × (dropped_in p (out.0 ++ (turns c (fire_all out.1.timers) out.1).0) ≡ true)
  unfolding IsTimed
  removal_dropped p inputs w h k =
      let v = (turns c inputs w).1 in
      let calls = (turns c inputs w).0 in
      let last = (turns c (fire_all v.timers) v).0 in
      (
        turns-IsTimed inputs w h,
        elim ((turns-Kept p inputs w).0 k) [
          | inl l ↦
              dropped_in-append-right p calls last
                (fired p v.timers v refl (turns-IsTimed inputs w h p l) l)
          | inr d ↦ dropped_in-append-left p calls last d
        ],
      )
