-- ===== src/Storage/Local/Updates.antt =====
-- localvault/mutations.go: what an update returns is what is read from then on.
use para_mcp.Prelude.{◌≡◌, refl, ap, subst, none, sym, true, false}
use para_mcp.Prelude.Text.{Text}
use para_mcp.Domain.Value.{Fields}
use para_mcp.Domain.Results.{Result, ok, err, ◌>>=◌, >>=-eq-ok}
use para_mcp.Domain.Entities.{Time, Note, NoteRef, FrontMatter, MutationResult}
use para_mcp.Domain.Patch.{apply_patch}
use para_mcp.Domain.Path.{NormalizedPath}
use para_mcp.Storage.Notes.{parse_note}
use para_mcp.Storage.Notes.RoundTrip.{IsYaml, starts_clean}
use para_mcp.Storage.Local.{
  Site, Local, read, write, read_file, normalize_path, read_note, note_of, mutation_of, etag_of,
  upsert_with_links, index_doc,
}
use para_mcp.Storage.Local.Mutations.{
  save, edited, body_saved, fields_saved, update_body, patch_front_matter, replace,
}
use para_mcp.Storage.Local.Versions.{is_stale, current-fresh, save-read_note}

module _ {N : Type 0} {X : Type 0} (e : Site N X) where
  abbrev pub at_time : Time → FrontMatter → FrontMatter
  at_time now fm = record fm { updated_at = now }

  -- The result is the note's, and the note is what is read.
  abbrev pub Stores : Text → Note → Result MutationResult × Local X → Type 0
  Stores path note out = (out.0 ≡ ok (mutation_of e note)) × (read_note e path out.1 ≡ ok note)

  pub read_note-ref :
      (path : Text) (w : Local X) (note : Note)
      → read_note e path w ≡ ok note
      → note.ref ≡ record { scope = e.scope; path = path }
  unfolding read_note note_of
  read_note-ref path w note r =
      let (raw, a, b) =
        >>=-eq-ok (read_file e path w)
          (λ raw. parse_note e.codec raw >>= (λ parts. ok (note_of e path parts))) r in
      let (parts, c, d) =
        >>=-eq-ok (parse_note e.codec raw) (λ parts. ok (note_of e path parts)) b in
      ap ref_of (sym d)
    where
      ref_of : Result Note → NoteRef
      ref_of (ok n) = n.ref
      ref_of (err x) = record { scope = e.scope; path = path }

  pub edited-note_of :
      (now : Time) (path body : Text) (note : Note) (fm : FrontMatter)
      → note.ref ≡ record { scope = e.scope; path = path }
      → edited e now note fm body ≡ note_of e path (at_time now fm, body)
  unfolding edited note_of
  edited-note_of now path body note fm r =
      ap
        (λ x. record {
          ref = x;
          front_matter = at_time now fm;
          body = body;
          etag = etag_of e (at_time now fm) body;
        })
        r

  pub body_saved-files :
      (np : NormalizedPath) (n : Note) (v : Local X) → (body_saved e np n v).files ≡ v.files
  unfolding body_saved upsert_with_links index_doc
  body_saved-files np n v = refl

  pub fields_saved-files :
      (np : NormalizedPath) (n : Note) (v : Local X) → (fields_saved e np n v).files ≡ v.files
  unfolding fields_saved upsert_with_links
  fields_saved-files np n v = refl

  save-edited :
      (caches : NormalizedPath → Note → Local X → Local X) (now : Time) (np : NormalizedPath)
      (fm : FrontMatter) (note : Note) (body lines : Text) (w v : Local X)
      → ((n : Note) (v : Local X) → (caches np n v).files ≡ v.files)
      → read_note e np.storage v ≡ ok note
      → e.os.refuse read np.storage ≡ none
      → e.os.refuse write np.storage ≡ none
      → IsYaml e.codec (at_time now fm) lines
      → starts_clean body ≡ true
      → Stores np.storage
          (edited e now note fm body)
          (save e caches np (edited e now note fm body) w)
  save-edited caches now np fm note body lines w v keeps r ra wa y clean =
      subst (λ n. Stores np.storage n (save e caches np n w))
        (sym (edited-note_of now np.storage body note fm (read_note-ref np.storage v note r)))
        (save-read_note e caches np (at_time now fm) body lines w keeps ra wa y clean)

  -- Where the version is the one asked for and the operating system refuses nothing, an update of the
  -- body, a patch and a replacement each succeed, and what they return is what is read from then on, the
  -- version included: the front matter is stamped with the time, and patched by the fields. The YAML of a
  -- front matter decodes to it, and no line end starts a body.
  pub updates-read_note :
      (now : Time) (path body if_match lines patched : Text) (fields : Fields) (w : Local X)
      (np : NormalizedPath) (note : Note)
      → normalize_path e path ≡ ok np
      → read_note e np.storage w ≡ ok note
      → is_stale if_match note.etag ≡ false
      → e.os.refuse read np.storage ≡ none
      → e.os.refuse write np.storage ≡ none
      → IsYaml e.codec (at_time now note.front_matter) lines
      → IsYaml e.codec (at_time now (apply_patch e.unicode note.front_matter fields)) patched
      → starts_clean body ≡ true
      → starts_clean note.body ≡ true
      → let fm = apply_patch e.unicode note.front_matter fields in
        Stores np.storage
          (edited e now note note.front_matter body)
          (update_body e now path body if_match w)
        × Stores np.storage
            (edited e now note fm note.body)
            (patch_front_matter e now path fields if_match w)
        × Stores np.storage (edited e now note fm body) (replace e now path fields body if_match w)
  unfolding update_body patch_front_matter replace
  updates-read_note now path body if_match lines patched fields w np note p r s ra wa y z clean
        old =
      let c = current-fresh e np.storage if_match w note r s in
      let fm = apply_patch e.unicode note.front_matter fields in
      (
        rw p (
            rw c (
              save-edited (body_saved e) now np note.front_matter note body lines w w
                (body_saved-files np) r ra wa y clean)),
        rw p (
            rw c (
              save-edited (fields_saved e) now np fm note note.body patched w w
                (fields_saved-files np) r ra wa z old)),
        rw p (
            rw c (
              save-edited (body_saved e) now np fm note body patched w w (body_saved-files np) r ra
                wa z clean)),
      )
