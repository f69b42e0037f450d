-- ===== src/Service/Boundary.antt =====
-- The boundary that the service keeps: what reaches the vault, and what is refused before it.
use para_mcp.Prelude.{
  ◌≡◌, ◌≢◌, refl, Bool, false, [], ◌∷◌, if◌then◌else◌, arith, inl, inr, Bool-cases, ◌⊎◌, not, ◌&&◌,
  ◌∙◌, sym,
}
use para_mcp.Prelude.Text.{Text, Unicode, same}
use para_mcp.Domain.Value.{Fields}
use para_mcp.Domain.Results.{Result, ok, err, Error, scope_forbidden}
use para_mcp.Domain.Entities.{NoteRef, CreateInput, FrontMatter}
use para_mcp.Domain.Filter.{is_empty}
use para_mcp.Domain.Path.{NormalizedPath}
use para_mcp.Domain.Path.Safety.{IsPara, normalize-IsPara}
use para_mcp.Domain.Patch.{get_note_id, set_note_id}
use para_mcp.Domain.Patch.Laws.{get_note_id-set_note_id}
use para_mcp.Vault.{Write}
use para_mcp.Service.{
  Service, normalize_path, normalize_ref, get_note, prepared, with_template, create, update_body,
  patch_front_matter, replace, move, delete,
}
use para_mcp.Vault.{attempt}

-- A write to a path is refused with the state untouched, or is one call of the vault at the storage form of
-- that path: a PARA folder or what is below one.
pub data Guarded (u : Unicode) (nfc : Text → Text) {W A : Type 0} (s : Service W) (path : Text)
    (call : Text → Write W A) (m : Write W A) : Type 0 where
  refused : (e : Error) → ((w : W) → m w ≡ (err e, w)) → Guarded u nfc s path call m
  passed :
      (np : NormalizedPath)
      → normalize_path u nfc s path ≡ ok np
      → IsPara u np.storage
      → ((w : W) → m w ≡ call np.storage w)
      → Guarded u nfc s path call m

module _ (u : Unicode) (nfc : Text → Text) {W : Type 0} (s : Service W) where
  normalize_ref-cases :
      (ref : NoteRef)
      → (normalize_ref u nfc s ref ≡ err scope_forbidden)
        ⊎ (normalize_ref u nfc s ref ≡ normalize_path u nfc s ref.path)
  unfolding normalize_ref
  normalize_ref-cases ref =
      elim (Bool-cases (not (is_empty ref.scope) && not (same ref.scope s.vault.scope))) [
        | inl e ↦ inl (rw e)
        | inr e ↦ inr (rw e)
      ]

  normalize_path-IsPara :
      (path : Text) (np : NormalizedPath)
      → normalize_path u nfc s path ≡ ok np
      → IsPara u np.storage
  normalize_path-IsPara path np h =
      (normalize-IsPara u nfc path s.vault.capabilities.case_sensitive np h).0

  normalize_ref-ok :
      (ref : NoteRef) (np : NormalizedPath)
      → normalize_ref u nfc s ref ≡ ok np
      → normalize_path u nfc s ref.path ≡ ok np
  normalize_ref-ok ref np h = elim (normalize_ref-cases ref) [
    | inl e ↦ absurd (cc (e, h))
    | inr e ↦ sym e ∙ h
  ]

  attempt-Guarded :
      {A : Type 0} (ref : NoteRef) (call : Text → Write W A)
      → Guarded u nfc s ref.path call (attempt (normalize_ref u nfc s ref) (λ np. call np.storage))
  attempt-Guarded {A} ref call = go (normalize_ref u nfc s ref) refl
    where
      go :
          (r : Result NormalizedPath)
          → normalize_ref u nfc s ref ≡ r
          → Guarded u nfc s ref.path call (attempt r (λ np. call np.storage))
      go (err e) p = refused e (λ w. refl)
      go (ok np) p =
          let q = normalize_ref-ok ref np p in
          passed np q (normalize_path-IsPara ref.path np q) (λ w. refl)

  pub normalize_ref-IsPara :
      (ref : NoteRef) (np : NormalizedPath)
      → normalize_ref u nfc s ref ≡ ok np
      → IsPara u np.storage
  normalize_ref-IsPara ref np h = elim (normalize_ref-cases ref) [
    | inl e ↦ absurd (cc (e, h))
    | inr e ↦ normalize_path-IsPara ref.path np (sym e ∙ h)
  ]

  -- An update of the body, a patch of the front matter, a replacement and a deletion are each refused with
  -- the storage untouched, or are exactly one call of the vault, at the storage form of the path that the
  -- reference names. That path consists of directory entries and starts at a PARA folder, or is one.
  pub writes-Guarded :
      (ref : NoteRef) (body if_match : Text) (fields : Fields) (soft : Bool)
      → Guarded u nfc s ref.path
          (λ p. s.vault.update_body p body if_match)
          (update_body u nfc s ref body if_match)
        × Guarded u nfc s ref.path
            (λ p. s.vault.patch_front_matter p fields if_match)
            (patch_front_matter u nfc s ref fields if_match)
        × Guarded u nfc s ref.path
            (λ p. s.vault.replace p fields body if_match)
            (replace u nfc s ref fields body if_match)
        × Guarded u nfc s ref.path
            (λ p. s.vault.delete p soft if_match)
            (delete u nfc s ref soft if_match)
  unfolding update_body patch_front_matter replace delete
  writes-Guarded ref body if_match fields soft = (
    attempt-Guarded ref (λ p. s.vault.update_body p body if_match),
    attempt-Guarded ref (λ p. s.vault.patch_front_matter p fields if_match),
    attempt-Guarded ref (λ p. s.vault.replace p fields body if_match),
    attempt-Guarded ref (λ p. s.vault.delete p soft if_match),
  )

  -- A move is refused with the storage untouched, or is one move of the vault between two such paths.
  pub move_lem :
      (ref : NoteRef) (new_path if_match : Text)
      → ((e : Error) × ((w : W) → move u nfc s ref new_path if_match w ≡ (err e, w)))
        ⊎ ((from : Text) × (to : Text) × IsPara u from
            × IsPara u to
            × ((w : W) → move u nfc s ref new_path if_match w ≡ s.vault.move from to if_match w))
  unfolding move
  move_lem ref new_path if_match =
      go (normalize_ref u nfc s ref) refl (normalize_path u nfc s new_path) refl
    where
      go :
          (r : Result NormalizedPath)
          → normalize_ref u nfc s ref ≡ r
          → (t : Result NormalizedPath) → normalize_path u nfc s new_path ≡ t
          → ((e : Error) × ((w : W) → move u nfc s ref new_path if_match w ≡ (err e, w)))
            ⊎ ((from : Text) × (to : Text) × IsPara u from
                × IsPara u to
                × ((w : W)
                    → move u nfc s ref new_path if_match w ≡ s.vault.move from to if_match w))
      go (err e) p t q = inl (e, λ w. rw p)
      go (ok np) p (err e) q = inl (e, λ w. rw (p, q))
      go (ok np) p (ok to) q = inr (
        np.storage,
        to.storage,
        normalize_ref-IsPara ref np p,
        normalize_path-IsPara new_path to q,
        λ w. rw (p, q),
      )

  -- A reference that names another scope than the vault's is refused by each write and by the
  -- read, and the state stays as it is.
  pub foreign_scope :
      (ref : NoteRef) (body if_match new_path : Text) (fields : Fields) (soft : Bool) (w : W)
      → ref.scope ≢ []
      → ref.scope ≢ s.vault.scope
      → (update_body u nfc s ref body if_match w ≡ (err scope_forbidden, w))
        × (patch_front_matter u nfc s ref fields if_match w ≡ (err scope_forbidden, w))
        × (replace u nfc s ref fields body if_match w ≡ (err scope_forbidden, w))
        × (move u nfc s ref new_path if_match w ≡ (err scope_forbidden, w))
        × (delete u nfc s ref soft if_match w ≡ (err scope_forbidden, w))
        × (get_note u nfc s w ref ≡ err scope_forbidden)
  unfolding update_body patch_front_matter replace delete move get_note
  foreign_scope ref body if_match new_path fields soft w ne h = (rw e, rw e, rw e, rw e, rw e, rw e)
    where
      e : normalize_ref u nfc s ref ≡ err scope_forbidden
      e = unfold normalize_ref in ground arith

  text_cases : (t : Text) → (t ≡ []) ⊎ (is_empty t ≡ false)
  text_cases [] = inl refl
  text_cases (c ∷ t) = inr refl

  prepared_lem :
      (mint : Text) (np : NormalizedPath) (input : CreateInput)
      → mint ≢ []
      → ((prepared u nfc s mint np input).path ≡ np.storage)
        × ((prepared u nfc s mint np input).body ≡ input.body)
        × (get_note_id (prepared u nfc s mint np input).front_matter ≢ [])
  unfolding prepared
  prepared_lem mint np input h = (refl, refl, go (with_template _ input.front_matter))
    where
      go :
          (fm : FrontMatter)
          → get_note_id (if is_empty (get_note_id fm) then set_note_id fm mint else fm) ≢ []
      go fm = elim (text_cases (get_note_id fm)) [
        | inl e ↦ rw e (rw get_note_id-set_note_id h)
        | inr e ↦ rw e (λ p. cc (e, p))
      ]

  -- A note is created with an identity, at a path below a PARA folder and with the given body, or
  -- the call is refused with the storage untouched; the minter gives no empty identity.
  pub create_lem :
      (mint : Text) (input : CreateInput)
      → mint ≢ []
      → ((e : Error) × ((w : W) → create u nfc s mint input w ≡ (err e, w)))
        ⊎ ((stored : CreateInput) × IsPara u stored.path
            × (stored.body ≡ input.body)
            × (get_note_id stored.front_matter ≢ [])
            × ((w : W) → create u nfc s mint input w ≡ s.vault.create stored w))
  unfolding create
  create_lem mint input h = go (normalize_path u nfc s input.path) refl
    where
      go :
          (r : Result NormalizedPath)
          → normalize_path u nfc s input.path ≡ r
          → ((e : Error) × ((w : W) → create u nfc s mint input w ≡ (err e, w)))
            ⊎ ((stored : CreateInput) × IsPara u stored.path
                × (stored.body ≡ input.body)
                × (get_note_id stored.front_matter ≢ [])
                × ((w : W) → create u nfc s mint input w ≡ s.vault.create stored w))
      go (err e) p = inl (e, λ w. rw p)
      go (ok np) p =
          let (at_path, same_body, has_id) = prepared_lem mint np input h in
          inr (
            prepared u nfc s mint np input,
            rw at_path (normalize_path-IsPara input.path np p),
            same_body,
            has_id,
            λ w. rw p,
          )
