-- ===== src/Storage/Local/Deleted.antt =====
-- localvault/mutations.go: `Delete` keeps the cache of summaries in agreement with the files.
use para_mcp.Prelude.{
  ◌≡◌, refl, ap, subst, ◌∙◌, Bool, true, false, Option, none, some, arith, Option-cases, inl, inr,
  ◌++◌, ◌⊎◌,
}
use para_mcp.Prelude.Assoc.{get, put, remove, get-put, get-remove}
use para_mcp.Prelude.Text.{Text, codes, same, cut_prefix, dec_text}
use para_mcp.Domain.Results.{ok}
use para_mcp.Domain.Path.{NormalizedPath}
use para_mcp.Domain.Filter.{is_empty}
use para_mcp.Storage.Links.{base}
use para_mcp.Vault.{Write, attempt}
use para_mcp.Storage.Graph.Laws.{by_path}
use para_mcp.Storage.Local.{
  make_dir, rename_file, remove_file, Site, Local, normalize_path, remove_from_indexes,
}
use para_mcp.Storage.Local.Mutations.{
  version_checked, current, rename, renamed, delete, discard, unlinked, and_then,
}
use para_mcp.Storage.Local.Synced.{index_key-storage}
use para_mcp.Storage.Local.Sync.{
  attempt-keeps, IsSynced, IsSyncedAt, is_trash, untouched, dropped, skipped,
}

-- `skip` are the paths that are left out of the account, the trash among them.
module _ {N : Type 0} {X : Type 0} (e : Site N X) (skip : Text → Bool)
    (trash : (q : Text) → is_trash q ≡ true → skip q ≡ true) where
  remove_from_indexes-cache :
      (np : NormalizedPath) (v : Local X)
      → (remove_from_indexes e np v).cache ≡ remove dec_text np.index_key v.cache
  unfolding remove_from_indexes
  remove_from_indexes-cache np v = refl

  remove_from_indexes-files :
      (np : NormalizedPath) (v : Local X) → (remove_from_indexes e np v).files ≡ v.files
  unfolding remove_from_indexes
  remove_from_indexes-files np v = refl

  -- the state behind a removal and the update of the caches
  removed-IsSynced :
      (np : NormalizedPath) (v w : Local X)
      → np.index_key ≡ np.storage
      → v.cache ≡ w.cache
      → ((q : Text)
          → same np.storage q ≡ false
          → (get dec_text q v.files ≡ get dec_text q w.files) ⊎ (is_trash q ≡ true))
      → (get dec_text np.storage v.files ≡ none) ⊎ (is_trash np.storage ≡ true)
      → IsSynced e skip w
      → IsSynced e skip (remove_from_indexes e np v)
  removed-IsSynced np v w i c f g h =
      let z = remove_from_indexes e np v in
      by_path (IsSyncedAt e skip z) np.storage
        (elim g [
          | inl none_there ↦
              dropped e skip np.storage z
                (ap (get dec_text np.storage) (remove_from_indexes-cache np v)
                  ∙ ground (arith, get-remove dec_text np.index_key np.storage v.cache, i))
                (ap (get dec_text np.storage) (remove_from_indexes-files np v) ∙ none_there)
          | inr t ↦ skipped e skip np.storage z (trash np.storage t)
        ])
        (λ q n. elim (f q n) [
          | inl g ↦
              untouched e skip q z w
                (ap (get dec_text q) (remove_from_indexes-cache np v)
                  ∙ ap (λ m. get dec_text q (remove dec_text np.index_key m)) c
                  ∙ ground (arith, get-remove dec_text np.index_key q w.cache, i))
                (ap (get dec_text q) (remove_from_indexes-files np v) ∙ g) (h q)
          | inr t ↦ skipped e skip q z (trash q t)
        ])

  trash_path : (s : Text) → is_trash (codes ".trash/" ++ s) ≡ true
  unfolding cut_prefix
  trash_path s = refl

  -- A file that is renamed into the trash.
  trashed :
      (raw from name q : Text) (w : Local X)
      → same from q ≡ false
      → (get dec_text q (put dec_text (codes ".trash/" ++ name) raw (remove dec_text from w.files))
          ≡ get dec_text q w.files)
        ⊎ (is_trash q ≡ true)
  trashed raw from name q w n = elim (dec_text (codes ".trash/" ++ name) q) [
    | yes p ↦ inr (subst (λ t. is_trash t ≡ true) p (trash_path name))
    | no m ↦ inl (
        ground (
          arith,
          get-put dec_text (codes ".trash/" ++ name) q raw (remove dec_text from w.files),
          get-remove dec_text from q w.files,
        ))
  ]

  trashed_from :
      (raw from name : Text) (w : Local X)
      → (get dec_text from
            (put dec_text (codes ".trash/" ++ name) raw (remove dec_text from w.files))
          ≡ none)
        ⊎ (is_trash from ≡ true)
  trashed_from raw from name w = elim (dec_text (codes ".trash/" ++ name) from) [
    | yes p ↦ inr (subst (λ t. is_trash t ≡ true) p (trash_path name))
    | no m ↦ inl (
        ground (
          arith,
          get-put dec_text (codes ".trash/" ++ name) from raw (remove dec_text from w.files),
          get-remove dec_text from from w.files,
        ))
  ]

  abbrev forget : NormalizedPath → Unit {0} → Write (Local X) (Unit {0})
  forget np _ v = (ok tt, remove_from_indexes e np v)

  renamed-IsSynced :
      (np : NormalizedPath) (name : Text) (o : Option Text) (w : Local X)
      → np.index_key ≡ np.storage
      → IsSynced e skip w
      → IsSynced e skip
          (and_then e (renamed e o np.storage (codes ".trash/" ++ name) w) (forget np)).1
  renamed-IsSynced np name none w i h = h
  renamed-IsSynced np name (some raw) w i h =
      removed-IsSynced np
        (record w {
          files = put dec_text (codes ".trash/" ++ name) raw (remove dec_text np.storage w.files);
        })
        w i refl (λ q n. trashed raw np.storage name q w n) (trashed_from raw np.storage name w) h

  unlinked-IsSynced :
      (np : NormalizedPath) (o : Option Text) (w : Local X)
      → np.index_key ≡ np.storage
      → IsSynced e skip w
      → IsSynced e skip (and_then e (unlinked e o np.storage w) (forget np)).1
  unlinked-IsSynced np none w i h = h
  unlinked-IsSynced np (some raw) w i h =
      removed-IsSynced np (record w { files = remove dec_text np.storage w.files }) w i refl
        (λ q n. inl (ground (arith, get-remove dec_text np.storage q w.files)))
        (inl (ground (arith, get-remove dec_text np.storage np.storage w.files))) h

  discard-IsSynced :
      (soft : Bool) (np : NormalizedPath) (w : Local X)
      → np.index_key ≡ np.storage
      → IsSynced e skip w
      → IsSynced e skip (and_then e (discard e soft np.storage w) (forget np)).1
  unfolding discard rename
  discard-IsSynced true np w i h = elim (Option-cases (e.os.refuse make_dir (codes ".trash"))) [
    | inr (x, a) ↦ rw a h
    | inl a ↦ rw a (elim (Option-cases (e.os.refuse rename_file np.storage)) [
      | inr (x, b) ↦ rw b h
      | inl b ↦ rw b (renamed-IsSynced np (base np.storage) (get dec_text np.storage w.files) w i h)
    ])
  ]
  discard-IsSynced false np w i h = elim (Option-cases (e.os.refuse remove_file np.storage)) [
    | inr (x, a) ↦ rw a h
    | inl a ↦ rw a (unlinked-IsSynced np (get dec_text np.storage w.files) w i h)
  ]

  pub delete-IsSynced :
      (path if_match : Text) (soft : Bool) (w : Local X)
      → e.capabilities.case_sensitive ≡ true
      → IsSynced e skip w
      → IsSynced e skip (delete e path soft if_match w).1
  unfolding delete
  delete-IsSynced path if_match soft w cs h =
      attempt-keeps (IsSynced e skip) (normalize_path e path)
        (λ np v.
          attempt (version_checked e (is_empty if_match) (current e np.storage if_match v))
            (λ _ z. and_then e (discard e soft np.storage z) (forget np)) v)
        w h
        (λ np p.
          attempt-keeps (IsSynced e skip)
            (version_checked e (is_empty if_match) (current e np.storage if_match w))
            (λ _ z. and_then e (discard e soft np.storage z) (forget np)) w h
            (λ _ r. discard-IsSynced soft np w (index_key-storage e path np cs p) h))
