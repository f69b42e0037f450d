-- ===== src/Storage/Local/Scan.antt =====
-- infrastructure/storage/localvault/scan.go, and `IndexFile` and `RemoveFile` of local.go. An
-- indexing runs in the actor of its path and is one step. `RemoveFile` runs in none: it is one step here, but
-- may come in the middle of another. `derive_note_id` is the UUID of a path and an ETag.
use para_mcp.Prelude.{Bool, true, false, List, [], ◌∷◌, if◌then◌else◌}
use para_mcp.Prelude.Assoc.{remove}
use para_mcp.Prelude.Text.{Text, dec_text}
use para_mcp.Domain.Results.{Result, ok, err}
use para_mcp.Domain.Entities.{Note, FrontMatter, summary}
use para_mcp.Domain.Filter.{is_empty}
use para_mcp.Domain.Patch.{get_note_id, set_note_id}
use para_mcp.Domain.Path.{NormalizedPath}
use para_mcp.Storage.Notes.{parse_note, format_note, is_md_file}
use para_mcp.Storage.Links.{parse_links}
use para_mcp.Storage.Local.{
  Site, Local, read_file, note_of, normalize_path, upsert_with_links, index_doc,
  remove_from_indexes,
}
use para_mcp.Storage.Local.Mutations.{write_file, rename}

module _ {N : Type 0} {X : Type 0} (e : Site N X) (derive_note_id : Text → Text → Text) where
  abbrev pub renamed_over : Text → Result (Unit {0}) × Local X → Local X
  renamed_over tmp (ok u, w) = w
  renamed_over tmp (err x, w) = record w { files = remove dec_text tmp w.files }

  abbrev pub written_aside : Text → Text → Result (Unit {0}) × Local X → Local X
  written_aside tmp path (ok u, w) = renamed_over tmp (rename e tmp path w)
  written_aside tmp path (err x, w) = w

  -- the write through a file of its own, which is dropped where the rename fails
  unfoldable pub write_back : Text → Text → Result Text → Local X → Local X
  unfolding write_file rename
  write_back tmp path (err x) w = w
  write_back tmp path (ok file) w = written_aside tmp path (write_file e tmp file w)

  unfoldable pub with_note_id : Note → Note
  with_note_id note = record note {
    front_matter = set_note_id note.front_matter (derive_note_id note.ref.path note.etag);
  }

  -- the caches of a note that was read from its file
  unfoldable pub index_parsed : NormalizedPath → Note → Local X → Local X
  index_parsed np note w =
      index_doc e (summary e.unicode note) note.body
        (upsert_with_links e np (summary e.unicode note) (parse_links e.unicode note.body) w)

  -- a note without an identity gets one, in its file too
  unfoldable pub index_identified : Bool → Text → NormalizedPath → Note → Local X → Local X
  unfolding index_parsed write_back with_note_id
  index_identified false tmp np note w = index_parsed np note w
  index_identified true tmp np note w =
      let n = with_note_id note in
      index_parsed np n (write_back tmp np.storage (format_note e.codec n.front_matter n.body) w)

  unfoldable pub index_content :
      Text → NormalizedPath → Result (FrontMatter × Text) → Local X → Local X
  unfolding index_identified
  index_content tmp np (err x) w = w
  index_content tmp np (ok parts) w =
      let note = note_of e np.storage parts in
      index_identified (is_empty (get_note_id note.front_matter)) tmp np note w

  -- an empty file is still being written
  abbrev pub index_raw : Text → NormalizedPath → Result Text → Local X → Local X
  index_raw tmp np (err x) w = w
  index_raw tmp np (ok []) w = w
  index_raw tmp np (ok (c ∷ raw)) w = index_content tmp np (parse_note e.codec (c ∷ raw)) w

  -- `indexNote`, with the name of the file beside it
  unfoldable pub index_note : Text → NormalizedPath → Local X → Local X
  unfolding index_content
  index_note tmp np w = index_raw tmp np (read_file e np.storage w) w

  abbrev pub index_normalized : Text → Result NormalizedPath → Local X → Local X
  index_normalized tmp (err x) w = w
  index_normalized tmp (ok np) w = index_note tmp np w

  -- `IndexFile`, for a path from the vault's root
  unfoldable pub index_file : Text → Text → Local X → Local X
  unfolding index_note
  index_file tmp path w =
      if is_md_file e.unicode path then index_normalized tmp (normalize_path e path) w else w

  abbrev pub remove_normalized : Result NormalizedPath → Local X → Local X
  remove_normalized (err x) w = w
  remove_normalized (ok np) w = remove_from_indexes e np w

  -- `RemoveFile`
  unfoldable pub remove_file : Text → Local X → Local X
  remove_file path w =
      if is_md_file e.unicode path then remove_normalized (normalize_path e path) w else w

  -- `scanVault`, over the files in the order of the walk
  unfoldable pub scan_vault : List (Text × Text) → Local X → Local X
  unfolding index_file
  scan_vault [] w = w
  scan_vault ((path, tmp) ∷ files) w = scan_vault files (index_file tmp path w)
