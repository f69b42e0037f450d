-- ===== src/Storage/Local/Runs.antt =====
-- localvault: any sequence of writes and scans keeps the graph of links consistent.
use para_mcp.Prelude.{Bool, true, false, ◌++◌, Option, none, some}
use para_mcp.Prelude.Text.{Text, codes, dec_text}
use para_mcp.Domain.Value.{Fields}
use para_mcp.Domain.Results.{ok}
use para_mcp.Domain.Entities.{Time, Note, CreateInput}
use para_mcp.Domain.Filter.{is_empty}
use para_mcp.Domain.Patch.{apply_patch}
use para_mcp.Domain.Path.{NormalizedPath}
use para_mcp.Vault.{attempt}
use para_mcp.Storage.Links.{base, parse_links}
use para_mcp.Storage.Links.Laws.{parse_links-IsLinks}
use para_mcp.Storage.Graph.{remove_links}
use para_mcp.Prelude.Assoc.{get}
use para_mcp.Storage.Local.{
  make_dir, remove_file, mutation_of, Site, Local, normalize_path, remove_from_indexes,
}
use para_mcp.Storage.Local.Mutations
use para_mcp.Storage.Local.Scan
use para_mcp.Storage.Local.Indexed.{index_file-Linked}
use para_mcp.Storage.Local.Linked.{
  IsLinked, Linked, and_then-Linked, attempt-Linked, rename-Linked, save-Linked, create-Linked,
  body_saved-Linked, fields_saved-Linked, remove_links-IsLinked, upsert-IsLinked,
}

-- A call that changes the vault, and the indexing of a file by a scan or the watcher. The actors run the
-- calls of one path one behind the other; a run is a sequence of whole calls. `RemoveFile` is none of them:
-- no actor runs it.
pub data Call : Type 0 where
  creates : Time → CreateInput → Call
  updates_body : Time → Text → Text → Text → Call
  patches : Time → Text → Fields → Text → Call
  replaces : Time → Text → Fields → Text → Text → Call
  moves : Text → Text → Text → Call
  deletes : Text → Bool → Text → Call
  indexes : Text → Text → Call

module _ {N : Type 0} {X : Type 0} (e : Site N X) (derive_note_id : Text → Text → Text) where
  -- the state behind a call, whatever it returns
  unfoldable pub perform : Call → Local X → Local X
  perform (creates now input) w = (Mutations.create e now input w).1
  perform (updates_body now path body if_match) w =
      (Mutations.update_body e now path body if_match w).1
  perform (patches now path fields if_match) w =
      (Mutations.patch_front_matter e now path fields if_match w).1
  perform (replaces now path fields body if_match) w =
      (Mutations.replace e now path fields body if_match w).1
  perform (moves path new_path if_match) w = (Mutations.move e path new_path if_match w).1
  perform (deletes path soft if_match) w = (Mutations.delete e path soft if_match w).1
  perform (indexes tmp path) w = Scan.index_file e derive_note_id tmp path w

  -- The states that a run of calls leads to.
  pub data Reaches : Local X → Local X → Type 0 where
    stop : {w : Local X} → Reaches w w
    then_call : {v w : Local X} (c : Call) → Reaches v w → Reaches v (perform c w)

  update-Linked :
      (caches : NormalizedPath → Note → Local X → Local X) (path if_match : Text)
      (next : NormalizedPath → Note → Note) (w : Local X)
      → ((np : NormalizedPath) (n : Note) (v : Local X) → Linked e v → Linked e (caches np n v))
      → Linked e w
      → Linked e
          (attempt
            (normalize_path e path)
            (λ np v.
              attempt
                (Mutations.current e np.storage if_match v)
                (λ note. Mutations.save e caches np (next np note))
                v)
            w).1
  update-Linked caches path if_match next w k h =
      attempt-Linked e (normalize_path e path)
        (λ np v.
          attempt (Mutations.current e np.storage if_match v)
            (λ note. Mutations.save e caches np (next np note)) v)
        w h
        (λ np.
          attempt-Linked e (Mutations.current e np.storage if_match w)
            (λ note. Mutations.save e caches np (next np note)) w h
            (λ note. save-Linked e caches np (next np note) w (k np (next np note)) h))

  move-Linked :
      (path new_path if_match : Text) (w : Local X)
      → Linked e w
      → Linked e (Mutations.move e path new_path if_match w).1
  unfolding Mutations.move Mutations.moved
  move-Linked path new_path if_match w h =
      attempt-Linked e (Mutations.move_plan e path new_path if_match w)
        (λ x v.
          Mutations.and_then e (Mutations.rename e x.0.storage x.1.storage v)
            (λ _ z. (ok (mutation_of e x.2), Mutations.moved e x.0 x.1 x.2 z)))
        w h
        (λ x.
          and_then-Linked e (Mutations.rename e x.0.storage x.1.storage w)
            (λ _ z. (ok (mutation_of e x.2), Mutations.moved e x.0 x.1 x.2 z))
            (rename-Linked e x.0.storage x.1.storage w h)
            (λ _ z k.
              upsert-IsLinked x.1.storage (parse_links e.unicode x.2.body)
                (remove_links x.0.storage z.graph) (parse_links-IsLinks e.unicode x.2.body)
                (remove_links-IsLinked x.0.storage z.graph k)))

  unlinked-Linked :
      (path : Text) (o : Option Text) (w : Local X)
      → Linked e w
      → Linked e (Mutations.unlinked e o path w).1
  unlinked-Linked path none w h = h
  unlinked-Linked path (some raw) w h = h

  discard-Linked :
      (soft : Bool) (path : Text) (w : Local X)
      → Linked e w
      → Linked e (Mutations.discard e soft path w).1
  unfolding Mutations.discard
  discard-Linked true path w h =
      attempt-Linked e (Mutations.allowed e (e.os.refuse make_dir (codes ".trash")))
        (λ _. Mutations.rename e path (codes ".trash/" ++ base path)) w h
        (λ _. rename-Linked e path (codes ".trash/" ++ base path) w h)
  discard-Linked false path w h =
      attempt-Linked e (Mutations.allowed e (e.os.refuse remove_file path))
        (λ _ v. Mutations.unlinked e (get dec_text path v.files) path v) w h
        (λ _. unlinked-Linked path (get dec_text path w.files) w h)

  delete-Linked :
      (path if_match : Text) (soft : Bool) (w : Local X)
      → Linked e w
      → Linked e (Mutations.delete e path soft if_match w).1
  unfolding Mutations.delete remove_from_indexes
  delete-Linked path if_match soft w h =
      attempt-Linked e (normalize_path e path)
        (λ np v.
          attempt
            (Mutations.version_checked e (is_empty if_match)
              (Mutations.current e np.storage if_match v))
            (λ _ z.
              Mutations.and_then e (Mutations.discard e soft np.storage z)
                (λ _ y. (ok tt, remove_from_indexes e np y)))
            v)
        w h
        (λ np.
          attempt-Linked e
            (Mutations.version_checked e (is_empty if_match)
              (Mutations.current e np.storage if_match w))
            (λ _ z.
              Mutations.and_then e (Mutations.discard e soft np.storage z)
                (λ _ y. (ok tt, remove_from_indexes e np y)))
            w h
            (λ _.
              and_then-Linked e (Mutations.discard e soft np.storage w)
                (λ _ y. (ok tt, remove_from_indexes e np y)) (discard-Linked soft np.storage w h)
                (λ _ y k. remove_links-IsLinked np.storage y.graph k)))

  perform-Linked : (c : Call) (w : Local X) → Linked e w → Linked e (perform c w)
  unfolding perform Mutations.update_body Mutations.patch_front_matter Mutations.replace
  perform-Linked (creates now input) w h = create-Linked e now input w h
  perform-Linked (updates_body now path body if_match) w h =
      update-Linked (Mutations.body_saved e) path if_match
        (λ np note. Mutations.edited e now note note.front_matter body) w (body_saved-Linked e) h
  perform-Linked (patches now path fields if_match) w h =
      update-Linked (Mutations.fields_saved e) path if_match
        (λ np note.
          Mutations.edited e now note (apply_patch e.unicode note.front_matter fields) note.body)
        w (fields_saved-Linked e) h
  perform-Linked (replaces now path fields body if_match) w h =
      update-Linked (Mutations.body_saved e) path if_match
        (λ np note.
          Mutations.edited e now note (apply_patch e.unicode note.front_matter fields) body)
        w (body_saved-Linked e) h
  perform-Linked (moves path new_path if_match) w h = move-Linked path new_path if_match w h
  perform-Linked (deletes path soft if_match) w h = delete-Linked path if_match soft w h
  perform-Linked (indexes tmp path) w h = index_file-Linked e derive_note_id tmp path w h

  -- Through any sequence of writes, refused ones included, and of indexings of files by scans or the watcher,
  -- each of them whole before the next one starts, the inverse index keeps agreeing with the links of the
  -- notes and each link of a note a target of its own, if it was so before. Nothing is said of a `RemoveFile`,
  -- or of a move to the path of another call, that runs in the middle of a call.
  pub reaches-IsLinked : {v w : Local X} → IsLinked v.graph → Reaches v w → IsLinked w.graph
  reaches-IsLinked h stop = h
  reaches-IsLinked h (then_call {w} c r) = perform-Linked c w (reaches-IsLinked h r)
