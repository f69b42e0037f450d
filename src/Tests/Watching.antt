-- ===== src/Tests/Watching.antt =====
-- Runs of the watcher.
use para_mcp.Prelude.{◌≡◌, refl, true, false, [], ◌∷◌, ◌++◌}
use para_mcp.Prelude.Text.{Text, ascii, codes, dec_text}
use para_mcp.Prelude.Assoc.{get, put}
use para_mcp.Storage.Links.{base}
use para_mcp.Storage.Local.Watcher.{
  find_paired, Watching, Watcher, Event, Input, indexes, removes, notified, new_watcher, turns,
  turn, handle_event, on_remove, on_create, mark_removed, is_conflict, fire_all,
}
use para_mcp.Storage.Local.Watcher.Pending.{
  IsTimed, waits, dropped_in, turns-IsTimed, new_watcher-IsTimed, removal_dropped,
}

abbrev watching : Watching
watching = record { unicode = ascii; window = 50; patterns = [] }

abbrev nothing : Text → Event
nothing name = record {
  name = name;
  has_create = false;
  has_write = false;
  has_remove = false;
  has_rename = false;
}

abbrev old_path : Text
old_path = codes "/v/projects/a.md"

abbrev new_path : Text
new_path = codes "/v/archives/A.md"

abbrev gone : Input
gone = notified 1000 (λ p. 1000) [] false (record (nothing old_path) { has_rename = true })

abbrev come : Input
come =
    notified 1010 (λ p. 1010) (old_path ∷ []) false
      (record (nothing new_path) { has_create = true })

abbrev waiting : Watcher
waiting = (turns watching (gone ∷ []) new_watcher).1

old_path-waits : waits old_path waiting ≡ true
unfolding turns turn handle_event is_conflict on_remove mark_removed get put dec_text
old_path-waits = refl

-- A file that gets a new path, within the window, is moved in the index.
pair_found : (turns watching (come ∷ []) waiting).0 ≡ removes old_path ∷ indexes new_path ∷ []
unfolding turns turn handle_event is_conflict on_remove on_create mark_removed get find_paired put
    dec_text base
pair_found = refl

removal_dropped_example :
    let out = turns watching (come ∷ []) waiting in
    IsTimed out.1
    × (dropped_in old_path (out.0 ++ (turns watching (fire_all out.1.timers) out.1).0) ≡ true)
removal_dropped_example =
    removal_dropped watching old_path (come ∷ []) waiting
      (turns-IsTimed watching (gone ∷ []) new_watcher new_watcher-IsTimed) old_path-waits
