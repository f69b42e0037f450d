-- ===== src/Storage/Local/Versions.antt =====
-- localvault/mutations.go: the version check, and what an update leaves to be read.
use para_mcp.Prelude.{
  ◌≡◌, refl, ap, ◌∙◌, Bool, true, false, not, ◌&&◌, none, some, [], ◌∷◌, ◌++◌, arith,
}
use para_mcp.Prelude.Assoc.{get, put, get-put}
use para_mcp.Prelude.Text.{Text, same, dec_text}
use para_mcp.Domain.Value.{Fields}
use para_mcp.Domain.Results.{ok, err, conflict}
use para_mcp.Domain.Entities.{Time, Note, FrontMatter}
use para_mcp.Domain.Filter.{is_empty}
use para_mcp.Domain.Path.{NormalizedPath}
use para_mcp.Storage.Notes.{newline, note_text, trim_newlines}
use para_mcp.Storage.Notes.RoundTrip.{
  IsYaml, starts_clean, parse_note-note_text, format_note-IsYaml, trim_newlines-clean,
}
use para_mcp.Storage.Local.{
  Site, Local, read, write, normalize_path, read_note, note_of, mutation_of,
}
use para_mcp.Storage.Local.Mutations.{
  current, save, update_body, patch_front_matter, replace, move, move_plan, delete, write_file,
}

-- Whether a version is asked for and another one is there.
abbrev pub is_stale : Text → Text → Bool
is_stale if_match etag = not (is_empty if_match) && not (same etag if_match)

module _ {N : Type 0} {X : Type 0} (e : Site N X) where
  pub current-stale :
      (path if_match : Text) (w : Local X) (note : Note)
      → read_note e path w ≡ ok note
      → is_stale if_match note.etag ≡ true
      → current e path if_match w ≡ err conflict
  unfolding current
  current-stale path if_match w note r s = rw r (rw s refl)

  pub current-fresh :
      (path if_match : Text) (w : Local X) (note : Note)
      → read_note e path w ≡ ok note
      → is_stale if_match note.etag ≡ false
      → current e path if_match w ≡ ok note
  unfolding current
  current-fresh path if_match w note r s = rw r (rw s refl)

  stale_not_empty :
      (if_match etag : Text) → is_stale if_match etag ≡ true → is_empty if_match ≡ false
  stale_not_empty if_match etag s = ground arith

  -- Where the note is at another version than the one asked for, an update of the body, a patch, a
  -- replacement, a move and a deletion are each a conflict and change nothing.
  pub stale_version :
      (now : Time) (path new_path body if_match : Text) (fields : Fields) (soft : Bool)
      (w : Local X) (np nnp : NormalizedPath) (note : Note)
      → normalize_path e path ≡ ok np
      → normalize_path e new_path ≡ ok nnp
      → read_note e np.storage w ≡ ok note
      → is_stale if_match note.etag ≡ true
      → (update_body e now path body if_match w ≡ (err conflict, w))
        × (patch_front_matter e now path fields if_match w ≡ (err conflict, w))
        × (replace e now path fields body if_match w ≡ (err conflict, w))
        × (move e path new_path if_match w ≡ (err conflict, w))
        × (delete e path soft if_match w ≡ (err conflict, w))
  unfolding update_body patch_front_matter replace move move_plan delete
  stale_version now path new_path body if_match fields soft w np nnp note p q r s =
      let c = current-stale np.storage if_match w note r s in
      let n = stale_not_empty if_match note.etag s in
      (
        rw p (rw c refl),
        rw p (rw c refl),
        rw p (rw c refl),
        rw p (rw q (rw c refl)),
        rw p (rw c (rw n refl)),
      )

  -- A file that was written as a note is read as that note.
  pub read_note-written :
      (path lines body : Text) (fm : FrontMatter) (w : Local X)
      → e.os.refuse read path ≡ none
      → IsYaml e.codec fm lines
      → get dec_text path w.files ≡ some (note_text e.codec (lines ++ (newline ∷ [])) body)
      → read_note e path w ≡ ok (note_of e path (fm, trim_newlines body))
  unfolding read_note
  read_note-written path lines body fm w r y g =
      rw r (rw g (rw (parse_note-note_text e.codec fm lines body y) refl))

  get-put_same :
      (path : Text) (file : Text) (w : Local X)
      → get dec_text path (put dec_text path file w.files) ≡ some file
  get-put_same path file w = ground (arith, get-put dec_text path path file w.files)

  -- The tail of an update writes the file, and returns what is read from it.
  pub save-read_note :
      (caches : NormalizedPath → Note → Local X → Local X) (np : NormalizedPath) (fm : FrontMatter)
      (body lines : Text) (w : Local X)
      → ((n : Note) (v : Local X) → (caches np n v).files ≡ v.files)
      → e.os.refuse read np.storage ≡ none
      → e.os.refuse write np.storage ≡ none
      → IsYaml e.codec fm lines
      → starts_clean body ≡ true
      → let note = note_of e np.storage (fm, body) in
        ((save e caches np note w).0 ≡ ok (mutation_of e note))
        × (read_note e np.storage (save e caches np note w).1 ≡ ok note)
  unfolding save note_of write_file
  save-read_note caches np fm body lines w keeps r a y clean =
      let note = note_of e np.storage (fm, body) in
      let file = note_text e.codec (lines ++ (newline ∷ [])) body in
      let v : Local X = record w { files = put dec_text np.storage file w.files } in
      rw (format_note-IsYaml e.codec fm lines body y) (
        rw a (
          refl,
          read_note-written np.storage lines body fm (caches np note v) r y
                (ap (get dec_text np.storage) (keeps note v) ∙ get-put_same np.storage file w)
              ∙ ap (λ b. ok (note_of e np.storage (fm, b))) (trim_newlines-clean body clean),
        ))
