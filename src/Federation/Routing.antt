-- ===== src/Federation/Routing.antt =====
-- Registration keeps the two indexes of the registry in agreement, and routing reaches the entry of
-- the scope that a reference names.
use mathlib.Core.Logic.{ite}
use para_mcp.Prelude.{
  ◌≡◌, ◌⊎◌, refl, true, false, Option, none, some, [], ◌∷◌, ◌++◌, arith, All, All-append, All-imp,
  ap, inl, inr, Bool-cases,
}
use para_mcp.Prelude.Text.{Text, dec_text}
use para_mcp.Prelude.Assoc.{put, has, get-put, Distinct, Distinct-put}
use para_mcp.Domain.Results.{ok}
use para_mcp.Domain.Entities.{ScopeId, NoteRef}
use para_mcp.Domain.Filter.{is_empty}
use para_mcp.Service.{Service}
use para_mcp.Federation.{
  Entry, Registry, new_registry, entry_for, add_vault, local_entry, entry_for_ref, or_forbidden,
}

module _ {W : Type 0} where
  -- Each entry serves the scope of its vault, is found under it, and the lookup finds nothing else.
  pub record IsConsistent (r : Registry W) : Type 0 where
    pub own_scope : All (λ e. e.scope_id ≡ e.svc.vault.scope) r.entries
    pub listed : All (λ e. entry_for r e.scope_id ≡ some e) r.entries
    pub found :
        (scope : ScopeId) (e : Entry W)
        → entry_for r scope ≡ some e
        → (e.scope_id ≡ scope) × (e.svc.vault.scope ≡ scope)
    pub unique : Distinct dec_text r.by_scope

  pub new_registry-IsConsistent : IsConsistent (new_registry W)
  unfolding entry_for
  new_registry-IsConsistent = record {
    own_scope = tt;
    listed = tt;
    found = λ scope e h. cc;
    unique = tt;
  }

  added : Registry W → Entry W → ScopeId → Registry W
  added r e scope = record {
    entries = r.entries ++ e ∷ [];
    by_scope = put dec_text scope e r.by_scope;
  }

  entry_for-added :
      (r : Registry W) (e : Entry W) (scope k : ScopeId)
      → entry_for (added r e scope) k ≡ (ite (dec_text scope k) (some e) (entry_for r k))
  unfolding entry_for added
  entry_for-added r e scope k = get-put dec_text scope k e r.by_scope

  not_taken :
      (r : Registry W) (scope : ScopeId)
      → has dec_text scope r.by_scope ≡ false
      → entry_for r scope ≡ none
  unfolding entry_for
  not_taken r scope h = ground arith

  listed-added :
      (r : Registry W) (e e' : Entry W) (scope : ScopeId)
      → entry_for r scope ≡ none
      → entry_for r e'.scope_id ≡ some e'
      → entry_for (added r e scope) e'.scope_id ≡ some e'
  listed-added r e e' scope free h = elim (dec_text scope e'.scope_id) [
    | yes p ↦ absurd (cc (h, free, ap (entry_for r) p))
    | no p ↦ ground (arith, entry_for-added r e scope e'.scope_id)
  ]

  -- Registering a vault that is not refused keeps the registry consistent: the scope was free, it leads to
  -- the new entry, and that entry stands behind all others, which stay as they are.
  pub add_vault-IsConsistent :
      (r r' : Registry W) (svc : Service W) (canonical_remote : Text)
      → IsConsistent r
      → add_vault r svc canonical_remote ≡ some r'
      → IsConsistent r'
        × (entry_for r svc.vault.scope ≡ none)
        × (entry_for r' svc.vault.scope
            ≡ some (record {
              scope_id = svc.vault.scope;
              canonical_remote = canonical_remote;
              svc = svc;
            }))
        × (r'.entries
            ≡ r.entries
              ++ record {
                scope_id = svc.vault.scope;
                canonical_remote = canonical_remote;
                svc = svc;
              }
                ∷ [])
  unfolding add_vault added
  add_vault-IsConsistent r r' svc cr c h = elim (Bool-cases (has dec_text scope r.by_scope)) [
    | inl taken ↦ absurd (ground arith)
    | inr free ↦
        let none_yet = not_taken r scope free in
        let same_registry : r' ≡ added r e scope = ground arith in
        rw same_registry (
          record {
            own_scope =
                All-append (λ x. x.scope_id ≡ x.svc.vault.scope) r.entries (e ∷ []) c.own_scope
                  (refl, tt);
            listed =
                All-append (λ x. entry_for (added r e scope) x.scope_id ≡ some x) r.entries (e ∷ [])
                  (All-imp (λ x. entry_for r x.scope_id ≡ some x)
                    (λ x. entry_for (added r e scope) x.scope_id ≡ some x) r.entries
                    (λ x. listed-added r e x scope none_yet) c.listed)
                  (ground (arith, entry_for-added r e scope scope), tt);
            found = λ k x p. ground (arith, entry_for-added r e scope k, c.found k x);
            unique = Distinct-put dec_text scope e r.by_scope c.unique;
          },
          none_yet,
          ground (arith, entry_for-added r e scope scope),
          refl,
        )
  ]
    where
      scope : ScopeId
      scope = svc.vault.scope

      e : Entry W
      e = record { scope_id = scope; canonical_remote = cr; svc = svc }

  -- A reference that names a scope reaches only the vault of that scope, one that names none only the
  -- first vault that was registered.
  pub entry_for_ref_lem :
      (r : Registry W) (ref : NoteRef) (e : Entry W)
      → IsConsistent r
      → entry_for_ref r ref ≡ ok e
      → ((ref.scope ≡ []) × (local_entry r ≡ ok e))
        ⊎ ((e.svc.vault.scope ≡ ref.scope) × (entry_for r ref.scope ≡ some e))
  unfolding entry_for_ref
  entry_for_ref_lem r ref e c h = elim (Bool-cases (is_empty ref.scope)) [
    | inl none_named ↦ inl (empty_text ref.scope none_named, rw none_named at h)
    | inr named ↦
        let there = found_of (entry_for r ref.scope) (rw named at h) in
        inr ((c.found ref.scope e there).1, there)
  ]
    where
      found_of : (o : Option (Entry W)) → or_forbidden o ≡ ok e → o ≡ some e
      found_of none k = absurd (cc k)
      found_of (some x) k = cc k

      empty_text : (t : Text) → is_empty t ≡ true → t ≡ []
      empty_text [] k = refl
      empty_text (a ∷ t) k = absurd (cc k)
