-- ===== src/Storage/Local/MovePlan.antt =====
-- localvault/mutations.go: what a move has found before it touches the files, and the note that it moves.
use para_mcp.Prelude.{◌≡◌, ap, sym, ◌∙◌, Bool, true, false, Option, none, some, if◌then◌else◌}
use para_mcp.Prelude.Assoc.{get}
use para_mcp.Prelude.Text.{Text, dec_text}
use para_mcp.Domain.Results.{Result, ok, err, conflict, Error, ◌>>=◌, >>=-eq-ok}
use para_mcp.Domain.Entities.{Note}
use para_mcp.Domain.Path.{NormalizedPath}
use para_mcp.Storage.Notes.{parse_note}
use para_mcp.Storage.Local.{
  dir, make_dir, Site, Local, read, read_file, content, unless_refused, note_of, normalize_path,
  read_note,
}
use para_mcp.Storage.Local.Mutations.{allowed, at_path, current, move_plan}
use para_mcp.Storage.Local.Versions.{is_stale}

module _ {N : Type 0} {X : Type 0} (e : Site N X) where
  -- The file of a note is read as the same note, at another path.
  pub read_note-moved :
      (p q raw : Text) (v w : Local X) (note : Note)
      → read_note e p w ≡ ok note
      → get dec_text p w.files ≡ some raw
      → get dec_text q v.files ≡ some raw
      → e.os.refuse read q ≡ none
      → read_note e q v ≡ ok (at_path e note q)
  unfolding read_note note_of
  read_note-moved p q raw v w note r f g a =
      let (raw', b, c) =
        >>=-eq-ok (read_file e p w)
          (λ raw. parse_note e.codec raw >>= (λ parts. ok (note_of e p parts))) r in
      let (parts, d, n) = >>=-eq-ok (parse_note e.codec raw') (λ parts. ok (note_of e p parts)) c in
      let same_raw : raw' ≡ raw =
        unrefused (e.os.refuse read p) raw raw'
          (ap (λ o. unless_refused e (e.os.refuse read p) (content e o)) (sym f) ∙ b) in
      rw a (
        rw g (
          ap (λ t. parse_note e.codec t >>= (λ parts. ok (note_of e q parts))) (sym same_raw)
          ∙ ap (λ m. m >>= (λ parts. ok (note_of e q parts))) d
          ∙ ap (moved_result q) n))
    where
      moved_result : Text → Result Note → Result Note
      moved_result q (ok n) = ok (at_path e n q)
      moved_result q (err x) = err x

      unrefused :
          (o : Option Error) (raw raw' : Text) → unless_refused e o (ok raw) ≡ ok raw' → raw' ≡ raw
      unrefused none raw raw' h = cc
      unrefused (some x) raw raw' h = absurd (cc)

  current-ok :
      (path if_match : Text) (w : Local X) (out : Note)
      → current e path if_match w ≡ ok out
      → read_note e path w ≡ ok out
  unfolding current
  current-ok path if_match w out h =
      let (note, a, b) =
        >>=-eq-ok (read_note e path w)
          (λ note. if is_stale if_match note.etag then err conflict else ok note) h in
      a ∙ fresh (is_stale if_match note.etag) note b
    where
      fresh :
          (b : Bool) (note : Note)
          → (if b then err conflict else ok note) ≡ ok out
          → ok note ≡ ok out
      fresh true note h = absurd (cc)
      fresh false note h = h

  -- What the steps of a move before the file have found.
  pub move_plan-ok :
      (path new_path if_match : Text) (w : Local X) (x : NormalizedPath × NormalizedPath × Note)
      → move_plan e path new_path if_match w ≡ ok x
      → (note : Note) × (normalize_path e path ≡ ok x.0)
        × (normalize_path e new_path ≡ ok x.1)
        × (read_note e x.0.storage w ≡ ok note)
        × (at_path e note x.1.storage ≡ x.2)
  unfolding move_plan
  move_plan-ok path new_path if_match w x h =
      let (np, a, b) =
        >>=-eq-ok (normalize_path e path)
          (λ np. normalize_path e new_path >>= (λ nnp. current e np.storage if_match w >>= (λ note.
            allowed e (e.os.refuse make_dir (dir nnp.storage))
            >>= (λ _. ok (np, nnp, at_path e note nnp.storage)))))
          h in
      let (nnp, c, d) =
        >>=-eq-ok (normalize_path e new_path)
          (λ nnp. current e np.storage if_match w >>= (λ note.
            allowed e (e.os.refuse make_dir (dir nnp.storage))
            >>= (λ _. ok (np, nnp, at_path e note nnp.storage))))
          b in
      let (note, f, g) =
        >>=-eq-ok (current e np.storage if_match w)
          (λ note.
            allowed e (e.os.refuse make_dir (dir nnp.storage))
            >>= (λ _. ok (np, nnp, at_path e note nnp.storage)))
          d in
      let (u, k, l) =
        >>=-eq-ok (allowed e (e.os.refuse make_dir (dir nnp.storage)))
          (λ _. ok (np, nnp, at_path e note nnp.storage)) g in
      let q : (np, nnp, at_path e note nnp.storage) ≡ x = cc in
      (
        note,
        a ∙ ap (λ y. ok y.0) q,
        c ∙ ap (λ y. ok y.1) q,
        ap (λ y. read_note e y.0.storage w) (sym q) ∙ current-ok np.storage if_match w note f,
        ap (λ y. at_path e note y.1.storage) (sym q) ∙ ap (λ y. y.2) q,
      )
