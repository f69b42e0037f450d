-- ===== src/Federation/Writes.antt =====
-- application/federation.go: the operations that go to the vault of one reference.
use para_mcp.Prelude.{◌≡◌, refl, true, ◌⊎◌, [], some}
use para_mcp.Prelude.Text.{Text, Unicode}
use para_mcp.Domain.Value.{Fields}
use para_mcp.Domain.Results.{Result, ok, err, Error, ◌>>=◌}
use para_mcp.Domain.Entities.{Note, NoteRef, CreateInput, MutationResult}
use para_mcp.Domain.Path.Safety.{IsPara}
use para_mcp.Vault.{Vault, Write}
use para_mcp.Service
use para_mcp.Service.{Service}
use para_mcp.Vault.{attempt}
use para_mcp.Service.Boundary.{Guarded, refused, passed, writes-Guarded}
use para_mcp.Domain.Path.{NormalizedPath, normalize}
use para_mcp.Federation.{Registry, Entry, entry_for, entry_for_ref, local_entry}
use para_mcp.Federation.Routing.{IsConsistent, entry_for_ref_lem}

module _ (u : Unicode) (nfc : Text → Text) {W : Type 0} (r : Registry W) where
  -- `Get`
  unfoldable pub get_note : W → NoteRef → Result Note
  get_note w ref = do e ← entry_for_ref r ref; Service.get_note u nfc e.svc w ref

  -- `Create`, at the first vault
  unfoldable pub create : Text → CreateInput → Write W MutationResult
  create mint input = attempt (local_entry r) (λ e. Service.create u nfc e.svc mint input)

  -- `UpdateBody`
  unfoldable pub update_body : NoteRef → Text → Text → Write W MutationResult
  update_body ref body if_match =
      attempt (entry_for_ref r ref) (λ e. Service.update_body u nfc e.svc ref body if_match)

  -- `PatchFrontMatter`
  unfoldable pub patch_front_matter : NoteRef → Fields → Text → Write W MutationResult
  patch_front_matter ref fields if_match =
      attempt (entry_for_ref r ref)
        (λ e. Service.patch_front_matter u nfc e.svc ref fields if_match)

  -- `Replace`
  unfoldable pub replace : NoteRef → Fields → Text → Text → Write W MutationResult
  replace ref fields body if_match =
      attempt (entry_for_ref r ref) (λ e. Service.replace u nfc e.svc ref fields body if_match)

  -- `Move`
  unfoldable pub move : NoteRef → Text → Text → Write W MutationResult
  move ref new_path if_match =
      attempt (entry_for_ref r ref) (λ e. Service.move u nfc e.svc ref new_path if_match)

  -- A write is refused with the state untouched, or is one call of the vault of the registered entry that
  -- the reference names, the first one where it names none, at the storage form of the reference's path.
  pub data Routed {A : Type 0} (ref : NoteRef) (call : Vault W → Text → Write W A) (m : Write W A)
      : Type 0 where
    stopped : (e : Error) → ((w : W) → m w ≡ (err e, w)) → Routed ref call m
    routed :
        (e : Entry W) (np : NormalizedPath)
        → ((ref.scope ≡ []) × (local_entry r ≡ ok e))
          ⊎ ((e.svc.vault.scope ≡ ref.scope) × (entry_for r ref.scope ≡ some e))
        → normalize u nfc ref.path e.svc.vault.capabilities.case_sensitive ≡ ok np
        → IsPara u np.storage
        → ((w : W) → m w ≡ call e.svc.vault np.storage w)
        → Routed ref call m

  attempt-Routed :
      {A : Type 0} (ref : NoteRef) (call : Vault W → Text → Write W A) (op : Service W → Write W A)
      → IsConsistent r
      → ((s : Service W) → Guarded u nfc s ref.path (call s.vault) (op s))
      → Routed ref call (attempt (entry_for_ref r ref) (λ e. op e.svc))
  attempt-Routed ref call op c guarded = go (entry_for_ref r ref) refl
    where
      passes :
          (e : Entry W)
          → entry_for_ref r ref ≡ ok e
          → Guarded u nfc e.svc ref.path (call e.svc.vault) (op e.svc)
          → Routed ref call (op e.svc)
      passes e p (refused x f) = stopped x f
      passes e p (passed np n para f) = routed e np (entry_for_ref_lem r ref e c p) n para f

      go :
          (o : Result (Entry W))
          → entry_for_ref r ref ≡ o
          → Routed ref call (attempt o (λ e. op e.svc))
      go (err x) p = stopped x (λ w. refl)
      go (ok e) p = passes e p (guarded e.svc)

  -- In a consistent registry an update of the body, a patch of the front matter and a replacement are each
  -- refused with the state untouched, or are exactly one call of the vault of a registered entry: the one of
  -- the scope that the reference names, the first one where it names none. The call is at the storage form of
  -- the reference's path, which consists of directory entries and starts at a PARA folder, or is one.
  pub writes-Routed :
      (ref : NoteRef) (body if_match : Text) (fields : Fields)
      → IsConsistent r
      → Routed ref (λ v p. v.update_body p body if_match) (update_body ref body if_match)
        × Routed ref
            (λ v p. v.patch_front_matter p fields if_match)
            (patch_front_matter ref fields if_match)
        × Routed ref (λ v p. v.replace p fields body if_match) (replace ref fields body if_match)
  unfolding update_body patch_front_matter replace
  writes-Routed ref body if_match fields c =
      let writes = λ (s : Service W). writes-Guarded u nfc s ref body if_match fields true in
      (
        attempt-Routed ref (λ v p. v.update_body p body if_match) _ c (λ s. (writes s).0),
        attempt-Routed ref (λ v p. v.patch_front_matter p fields if_match) _ c (λ s. (writes s).1),
        attempt-Routed ref (λ v p. v.replace p fields body if_match) _ c (λ s. (writes s).2),
      )
