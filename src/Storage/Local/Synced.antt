-- ===== src/Storage/Local/Synced.antt =====
-- localvault/mutations.go: the updates keep the cached summaries those of the files.
use para_mcp.Prelude.{
  ◌≡◌, refl, ap, sym, subst, ◌∙◌, Bool, true, false, none, some, [], ◌∷◌, arith, if◌then◌else◌,
  Option-cases, Bool-cases, inl, inr, ◌++◌,
}
use para_mcp.Prelude.Assoc.{get, put, get-put}
use para_mcp.Prelude.Text.{Text, dec_text, to_lower}
use para_mcp.Domain.Value.{Fields}
use para_mcp.Domain.Results.{ok, >>=-eq-ok}
use para_mcp.Domain.Entities.{Time, Note, FrontMatter, summary}
use para_mcp.Domain.Path.{NormalizedPath, normalize}
use para_mcp.Domain.Path.Safety.{normalize-IsPara}
use para_mcp.Domain.Patch.{apply_patch}
use para_mcp.Storage.Notes.{newline, note_text, trim_newlines}
use para_mcp.Storage.Notes.RoundTrip.{IsYaml, format_note-IsYaml}
use para_mcp.Storage.Graph.Laws.{by_path}
use para_mcp.Storage.Local.{
  Site, Local, read, write, resolves_outside, inside, note_of, normalize_path, read_note,
  upsert_with_links, index_doc,
}
use para_mcp.Storage.Local.Mutations.{
  save, edited, body_saved, fields_saved, update_body, patch_front_matter, replace, write_file,
}
use para_mcp.Storage.Local.Versions.{read_note-written, is_stale, current-stale, current-fresh}
use para_mcp.Storage.Local.Updates.{
  body_saved-files, fields_saved-files, at_time, edited-note_of, read_note-ref,
}
use para_mcp.Storage.Local.Sync.{IsSynced, IsSyncedAt, untouched, stored}

module _ {N : Type 0} {X : Type 0} (e : Site N X) where
  inside-ok : (b : Bool) (np out : NormalizedPath) → inside e b np ≡ ok out → np ≡ out
  inside-ok false np out h = cc
  inside-ok true np out h = absurd (cc)

  -- On a vault that tells cases apart, a note is cached under its path.
  pub index_key-storage :
      (path : Text) (np : NormalizedPath)
      → e.capabilities.case_sensitive ≡ true
      → normalize_path e path ≡ ok np
      → np.index_key ≡ np.storage
  unfolding normalize_path
  index_key-storage path np cs h =
      let (m, a, b) =
        >>=-eq-ok (normalize e.unicode e.nfc path e.capabilities.case_sensitive)
          (λ m. inside e (resolves_outside e.os e.root m.storage) m) h in
      let i = (normalize-IsPara e.unicode e.nfc path e.capabilities.case_sensitive m a).1 in
      subst (λ x. x.index_key ≡ x.storage)
        (inside-ok (resolves_outside e.os e.root m.storage) m np b)
        (i ∙ ap (λ c. if c then m.storage else to_lower e.unicode m.storage) cs)

module _ {N : Type 0} {X : Type 0} (e : Site N X) (skip : Text → Bool) where
  -- The caches that a written note gets.
  cached-IsSyncedAt :
      (np : NormalizedPath) (fm : FrontMatter) (body lines : Text) (v : Local X)
      → np.index_key ≡ np.storage
      → e.os.refuse read np.storage ≡ none
      → IsYaml e.codec fm lines
      → get dec_text np.index_key v.cache
        ≡ some (summary e.unicode (note_of e np.storage (fm, body)))
      → get dec_text np.storage v.files ≡ some (note_text e.codec (lines ++ (newline ∷ [])) body)
      → IsSyncedAt e skip v np.storage
  unfolding summary note_of
  cached-IsSyncedAt np fm body lines v i r y c f =
      stored e skip np.storage v (note_of e np.storage (fm, trim_newlines body))
        (summary e.unicode (note_of e np.storage (fm, body)))
        (ap (λ k. get dec_text k v.cache) (sym i) ∙ c)
        (read_note-written e np.storage lines body fm v r y f) refl

  save-IsSynced :
      (caches : NormalizedPath → Note → Local X → Local X) (np : NormalizedPath) (fm : FrontMatter)
      (body lines : Text) (w : Local X)
      → ((n : Note) (v : Local X) → (caches np n v).files ≡ v.files)
      → ((n : Note) (v : Local X)
          → (caches np n v).cache ≡ put dec_text np.index_key (summary e.unicode n) v.cache)
      → ((file : Text) → e.os.torn file ≡ none)
      → np.index_key ≡ np.storage
      → e.os.refuse read np.storage ≡ none
      → IsYaml e.codec fm lines
      → IsSynced e skip w
      → IsSynced e skip (save e caches np (note_of e np.storage (fm, body)) w).1
  unfolding save write_file note_of
  save-IsSynced caches np fm body lines w keeps puts t i r y h =
      let note = note_of e np.storage (fm, body) in
      let file = note_text e.codec (lines ++ (newline ∷ [])) body in
      let v : Local X = record w { files = put dec_text np.storage file w.files } in
      rw (format_note-IsYaml e.codec fm lines body y)
        (elim (Option-cases (e.os.refuse write np.storage)) [
          | inl a ↦ rw a (
              by_path (IsSyncedAt e skip (caches np note v)) np.storage
                (cached-IsSyncedAt np fm body lines (caches np note v) i r y
                  (ap (get dec_text np.index_key) (puts note v)
                    ∙ ground (
                      arith,
                      get-put dec_text np.index_key np.index_key (summary e.unicode note) w.cache,
                    ))
                  (ap (get dec_text np.storage) (keeps note v)
                    ∙ ground (arith, get-put dec_text np.storage np.storage file w.files)))
                (λ q n.
                  untouched e skip q (caches np note v) w
                    (ap (get dec_text q) (puts note v)
                      ∙ ground (
                        arith,
                        get-put dec_text np.index_key q (summary e.unicode note) w.cache,
                        i,
                      ))
                    (ap (get dec_text q) (keeps note v)
                      ∙ ground (arith, get-put dec_text np.storage q file w.files))
                    (h q)))
          | inr (x, a) ↦ rw a (rw (t file) h)
        ])

  body_saved-cache :
      (np : NormalizedPath) (n : Note) (v : Local X)
      → (body_saved e np n v).cache ≡ put dec_text np.index_key (summary e.unicode n) v.cache
  unfolding body_saved upsert_with_links index_doc
  body_saved-cache np n v = refl

  fields_saved-cache :
      (np : NormalizedPath) (n : Note) (v : Local X)
      → (fields_saved e np n v).cache ≡ put dec_text np.index_key (summary e.unicode n) v.cache
  unfolding fields_saved upsert_with_links
  fields_saved-cache np n v = refl

  save-edited-IsSynced :
      (caches : NormalizedPath → Note → Local X → Local X) (now : Time) (np : NormalizedPath)
      (fm : FrontMatter) (note : Note) (body lines : Text) (w : Local X)
      → ((n : Note) (v : Local X) → (caches np n v).files ≡ v.files)
      → ((n : Note) (v : Local X)
          → (caches np n v).cache ≡ put dec_text np.index_key (summary e.unicode n) v.cache)
      → read_note e np.storage w ≡ ok note
      → ((file : Text) → e.os.torn file ≡ none)
      → np.index_key ≡ np.storage
      → e.os.refuse read np.storage ≡ none
      → IsYaml e.codec (at_time e now fm) lines
      → IsSynced e skip w
      → IsSynced e skip (save e caches np (edited e now note fm body) w).1
  save-edited-IsSynced caches now np fm note body lines w keeps puts r t i a y h =
      subst (λ n. IsSynced e skip (save e caches np n w).1)
        (sym (edited-note_of e now np.storage body note fm (read_note-ref e np.storage w note r)))
        (save-IsSynced caches np (at_time e now fm) body lines w keeps puts t i a y h)

  -- On a vault that tells cases apart, an update of the body of a note that can be read, a patch and a
  -- replacement, refused or not, each keep the cache in agreement with the files, whichever paths are left out
  -- of the account: at every other path the summary in the cache is the one of the note that the file reads
  -- as, and where no file reads as a note none is cached. A refused write leaves the file as it was, and the
  -- front matter is written as lines of YAML that decode to it, none of them the closing line.
  pub updates-IsSynced :
      (now : Time) (path body if_match lines patched : Text) (fields : Fields) (w : Local X)
      (np : NormalizedPath) (note : Note)
      → e.capabilities.case_sensitive ≡ true
      → ((file : Text) → e.os.torn file ≡ none)
      → normalize_path e path ≡ ok np
      → read_note e np.storage w ≡ ok note
      → e.os.refuse read np.storage ≡ none
      → IsYaml e.codec (at_time e now note.front_matter) lines
      → IsYaml e.codec (at_time e now (apply_patch e.unicode note.front_matter fields)) patched
      → IsSynced e skip w
      → IsSynced e skip (update_body e now path body if_match w).1
        × IsSynced e skip (patch_front_matter e now path fields if_match w).1
        × IsSynced e skip (replace e now path fields body if_match w).1
  unfolding update_body patch_front_matter replace
  updates-IsSynced now path body if_match lines patched fields w np note cs t p r a y z h =
      let i = index_key-storage e path np cs p in
      let fm = apply_patch e.unicode note.front_matter fields in
      elim (Bool-cases (is_stale if_match note.etag)) [
        | inl s ↦
            let c = current-stale e np.storage if_match w note r s in
            (rw p (rw c h), rw p (rw c h), rw p (rw c h))
        | inr s ↦
            let c = current-fresh e np.storage if_match w note r s in
            (
              rw p (
                  rw c (
                    save-edited-IsSynced (body_saved e) now np note.front_matter note body lines w
                      (body_saved-files e np) (body_saved-cache np) r t i a y h)),
              rw p (
                  rw c (
                    save-edited-IsSynced (fields_saved e) now np fm note note.body patched w
                      (fields_saved-files e np) (fields_saved-cache np) r t i a z h)),
              rw p (
                  rw c (
                    save-edited-IsSynced (body_saved e) now np fm note body patched w
                      (body_saved-files e np) (body_saved-cache np) r t i a z h)),
            )
      ]
