-- ===== src/Storage/Local/Watcher.antt =====
-- localvault: watcher.go with rename_tracker.go and conflict_detector.go, as a state machine. A step is one
-- turn of the loop, or one timer; it returns the calls that it makes. It is about an open watcher.
pub mod Pending
use para_mcp.Prelude.{
  ℕ, suc, ◌+◌, Bool, true, false, not, ◌&&◌, Option, none, some, List, [], ◌∷◌, ◌++◌, ltb, any,
  if◌then◌else◌,
}
use para_mcp.Prelude.Assoc.{Assoc, get, put, remove, has}
use para_mcp.Prelude.Text.{Text, Unicode, codes, same, contains, dec_text, equal_fold}
use para_mcp.Domain.Entities.{Time}
use para_mcp.Domain.Filter.{is_empty}
use para_mcp.Domain.Path.Clean.{clean}
use para_mcp.Domain.Tags.{trim_space}
use para_mcp.Storage.Links.{base, ext, trim_suffix}
use para_mcp.Storage.Local.{dir}

-- `regexp.Regexp`: `MatchString`, and `ReplaceAllString` by the empty string
pub record Pattern : Type 0 where
  pub matches : Text → Bool
  pub cleared : Text → Text

-- the paths that were removed, each with its deadline
abbrev pub Pending : Type 0
Pending = Assoc Text Time

-- what a watcher is made of and does not change
pub record Watching : Type 0 where
  pub unicode : Unicode
  pub window : Time
  pub patterns : List Pattern

-- `timers` are the paths of the timers that are to fire.
pub record Watcher : Type 0 where
  pub pending : Pending
  pub timers : List Text
  pub dirty : Bool
  pub rescan_active : Bool
  pub sync_conflicts : ℕ

-- `fsnotify.Event`, with the operations that it has
pub record Event : Type 0 where
  pub name : Text
  pub has_create : Bool
  pub has_write : Bool
  pub has_remove : Bool
  pub has_rename : Bool

-- the calls of the vault, and of `fsnotify` for a new directory
pub data WatchCall : Type 0 where
  indexes removes watches : Text → WatchCall
  rescans : WatchCall

abbrev pub Turn : Type 0
Turn = List WatchCall × Watcher

-- `newWatcher`
abbrev pub new_watcher : Watcher
new_watcher = record {
  pending = [];
  timers = [];
  dirty = false;
  rescan_active = false;
  sync_conflicts = 0;
}

-- `MarkRemoved`
unfoldable pub mark_removed : Time → Time → Text → Pending → Bool × Pending
mark_removed window now path m = (has dec_text path m, put dec_text path (now + window) m)

-- `ClaimIfPending`
unfoldable pub claim_if_pending : Text → Pending → Bool × Pending
claim_if_pending path m =
    if not (has dec_text path m) then (false, m) else (true, remove dec_text path m)

-- `isSameBase`
unfoldable pub is_same_base : Unicode → Text → Text → Bool
is_same_base u old new_path = equal_fold u (base old) (base new_path)

-- `IsConflict`
unfoldable pub is_conflict : List Pattern → Text → Bool
is_conflict patterns name = any (λ re. re.matches name) patterns

-- the loop of `ResolveCanonical`
unfoldable pub first_cleaned : Unicode → List Pattern → Text → Option Text
first_cleaned u [] stem = none
first_cleaned u (re ∷ patterns) stem =
    let rest = first_cleaned u patterns stem in
    let cleaned = trim_space u (re.cleared stem) in
    if not (same cleaned stem) && not (is_empty cleaned) then some cleaned else rest

-- `ResolveCanonical`
unfoldable pub resolve_canonical : Unicode → List Pattern → Text → Option Text
unfolding first_cleaned
resolve_canonical u patterns path =
    let e = ext (base path) in
    elim (first_cleaned u patterns (trim_suffix e (base path))) [
      | none ↦ none
      | some cleaned ↦ some (clean (dir path ++ (b'/' ∷ (cleaned ++ e))))
    ]

-- the timer that fires is no more
unfoldable pub stop_timer : Text → List Text → List Text
stop_timer name [] = []
stop_timer name (t ∷ ts) = let rest = stop_timer name ts in if same t name then ts else t ∷ rest

-- What may come next: an event, with the time and what the loops and `os.Stat` find, a timer of a path,
-- an error of `fsnotify`, the ticker, and the end of a rescan.
pub data Input : Type 0 where
  notified : Time → (Text → Time) → List Text → Bool → Event → Input
  elapsed : Text → Input
  failed ticked rescanned : Input

-- all timers fire, one behind the other
abbrev pub fire_all : List Text → List Input
fire_all [] = []
fire_all (name ∷ names) = elapsed name ∷ fire_all names

module _ (c : Watching) where
  -- whether a removal and a new path are a pair, at the reading of the clock for it
  abbrev pub is_paired : (Text → Time) → Text → Text → Option Time → Bool
  is_paired clock new_path old none = false
  is_paired clock new_path old (some deadline) =
      ltb (clock old) deadline && is_same_base c.unicode old new_path

  -- the loop of `FindPairedRemoval`, over the keys in the order of the iteration
  unfoldable pub find_paired : (Text → Time) → List Text → Text → Pending → Option Text
  unfolding is_same_base
  find_paired clock [] new_path m = none
  find_paired clock (old ∷ keys) new_path m =
      let rest = find_paired clock keys new_path m in
      if is_paired clock new_path old (get dec_text old m) then some old else rest

  abbrev pub taken_from : Pending → Option Text → Pending
  taken_from m none = m
  taken_from m (some old) = remove dec_text old m

  -- `handleRename`, or the indexing of a new file
  abbrev pub renamed_or_new : Text → Option Text → List WatchCall
  renamed_or_new name none = indexes name ∷ []
  renamed_or_new name (some old) = removes old ∷ indexes name ∷ []

  -- a file or a directory is new
  unfoldable pub on_create : (Text → Time) → List Text → Bool → Text → Watcher → Turn
  on_create clock keys is_dir name w =
      let old = find_paired clock keys name w.pending in
      (
        (if is_dir then watches name ∷ [] else []) ++ renamed_or_new name old,
        record w { pending = taken_from w.pending old },
      )

  -- a file is gone: a timer is started, unless the path waits already
  unfoldable pub on_remove : Time → Text → Watcher → Turn
  unfolding mark_removed
  on_remove now name w =
      let marked = mark_removed c.window now name w.pending in
      (
        [],
        record w {
          dirty = true;
          pending = marked.1;
          timers = if not marked.0 then name ∷ w.timers else w.timers;
        },
      )

  -- an event of a file that a tool of synchronization made
  abbrev pub on_canonical : Bool → Option Text → List WatchCall
  on_canonical true (some path) = indexes path ∷ []
  on_canonical _ _ = []

  unfoldable pub on_conflict : Event → Watcher → Turn
  on_conflict event w = (
    on_canonical event.has_remove (resolve_canonical c.unicode c.patterns event.name),
    record w { sync_conflicts = suc w.sync_conflicts },
  )

  -- `handleEvent`
  unfoldable pub handle_event : Time → (Text → Time) → List Text → Bool → Event → Watcher → Turn
  unfolding on_create on_remove on_conflict is_conflict
  handle_event now clock keys is_dir event w =
      if is_conflict c.patterns (base event.name)
      then on_conflict event w
      else if event.has_create
      then on_create clock keys is_dir event.name w
      else if event.has_write
      then (indexes event.name ∷ [], w)
      else if event.has_remove
      then on_remove now event.name w
      else if event.has_rename
      then on_remove now event.name w
      else ([], w)

  -- the function of a timer
  unfoldable pub on_timer : Text → Watcher → Turn
  unfolding claim_if_pending stop_timer
  on_timer name w =
      let claimed = claim_if_pending name w.pending in
      (
        if claimed.0 then removes name ∷ [] else [],
        record w { pending = claimed.1; timers = stop_timer name w.timers },
      )

  -- the ticker: a rescan where events may have been missed and none runs
  unfoldable pub on_tick : Watcher → Turn
  on_tick w =
      if not w.dirty
      then ([], w)
      else if not w.rescan_active
      then (rescans ∷ [], record w { dirty = false; rescan_active = true })
      else ([], record w { dirty = false })

  -- one turn of `loop`, or of a goroutine beside it
  unfoldable pub turn : Input → Watcher → Turn
  unfolding handle_event on_timer on_tick
  turn (notified now clock keys is_dir event) w = handle_event now clock keys is_dir event w
  turn (elapsed name) w = if contains name w.timers then on_timer name w else ([], w)
  turn failed w = ([], record w { dirty = true })
  turn ticked w = on_tick w
  turn rescanned w = ([], record w { rescan_active = false })

  unfoldable pub turns : List Input → Watcher → Turn
  unfolding turn
  turns [] w = ([], w)
  turns (i ∷ inputs) w =
      let (calls, v) = turn i w in let (later, z) = turns inputs v in (calls ++ later, z)
