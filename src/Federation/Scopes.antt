-- ===== src/Federation/Scopes.antt =====
-- application/federation.go: which scopes a request reaches, and from which offsets.
use para_mcp.Prelude.{
  ◌≡◌, ◌≢◌, refl, Bool, true, not, none, some, List, [], ◌∷◌, if◌then◌else◌, keep, All, All-keep,
  is_some, inl, inr, Bool-cases, All-keep_of, subst,
}
use para_mcp.Prelude.Int.{ℤ, pos, ltb_ℤ}
use para_mcp.Prelude.Text.{Text, dec_text, contains, All-contains}
use para_mcp.Prelude.Assoc.{Assoc, get, put}
use para_mcp.Domain.Results.{Result, ok, err, invalid_cursor}
use para_mcp.Domain.Entities.{ScopeId, SortField, QueryRequest}
use para_mcp.Domain.Filter.{is_empty}
use para_mcp.Federation.{Registry, entry_for}

-- `cursorPayload`
pub record Payload : Type 0 where
  pub sort : SortField
  pub desc : Bool
  pub scopes : List ScopeId
  pub offsets : Assoc ScopeId ℤ

abbrev pub max_cursor_offset : ℤ
max_cursor_offset = pos 500

-- `offsets[sc]`; a missing key reads 0
unfoldable pub offset_of : ScopeId → Assoc ScopeId ℤ → ℤ
unfolding get dec_text
offset_of sc m = elim (get dec_text sc m) [ none ↦ pos 0 | some n ↦ n ]

-- the same offset for every scope
unfoldable pub uniform : ℤ → List ScopeId → Assoc ScopeId ℤ → Assoc ScopeId ℤ
unfolding put dec_text
uniform n [] m = m
uniform n (sc ∷ scs) m = uniform n scs (put dec_text sc n m)

empty_of : (l : List ScopeId) → is_empty l ≡ true → l ≡ []
empty_of [] h = refl
empty_of (x ∷ xs) h = cc

-- The scopes that a request reaches, each with its offset.
abbrev pub Reached : Type 0
Reached = List ScopeId × Assoc ScopeId ℤ

-- the branch of a cursor: its scopes, as far as they are still allowed, with its offsets
unfoldable pub after_cursor : List ScopeId → Result Payload → Result Reached
after_cursor allowed (err e) = err e
after_cursor allowed (ok p) = ok (keep (λ sc. contains sc allowed) p.scopes, p.offsets)

module _ {W : Type 0} (r : Registry W) where
  -- `effectiveScopes`
  unfoldable pub effective_scopes : List ScopeId → List ScopeId → List ScopeId
  effective_scopes allowed requested =
      let out = keep (λ sc. is_some (entry_for r sc)) allowed in
      if is_empty requested then out else keep (λ sc. contains sc requested) out

  -- `resolveScopesAndOffsets`; `decode` is `decodeCursor` with the service's key and store
  unfoldable pub resolve : (Text → Result Payload) → List ScopeId → QueryRequest → Result Reached
  unfolding effective_scopes after_cursor
  resolve decode allowed q =
      if not (is_empty q.cursor)
      then after_cursor allowed (decode q.cursor)
      else if ltb_ℤ max_cursor_offset q.offset
      then err invalid_cursor
      else let scopes = effective_scopes allowed q.filter.scopes in
        ok (scopes, uniform q.offset scopes [])

  -- The scopes of a fresh request are allowed, registered, and among those asked for.
  pub effective_scopes_lem :
      (allowed requested : List ScopeId)
      → All (λ sc. contains sc allowed ≡ true) (effective_scopes allowed requested)
        × All (λ sc. is_some (entry_for r sc) ≡ true) (effective_scopes allowed requested)
        × (requested ≢ []
            → All (λ sc. contains sc requested ≡ true) (effective_scopes allowed requested))
  unfolding effective_scopes
  effective_scopes_lem allowed requested = elim (Bool-cases (is_empty requested)) [
    | inl e ↦ rw e (permitted, registered, λ ne. absurd (ne (empty_of requested e)))
    | inr e ↦ rw e (
      All-keep_of (λ sc. contains sc allowed ≡ true) asked out permitted,
      All-keep_of (λ sc. is_some (entry_for r sc) ≡ true) asked out registered,
      λ ne. All-keep (λ sc. contains sc requested ≡ true) asked out (λ sc h. h),
    )
  ]
    where
      known : ScopeId → Bool
      known sc = is_some (entry_for r sc)

      asked : ScopeId → Bool
      asked sc = contains sc requested

      out : List ScopeId
      out = keep known allowed

      permitted : All (λ sc. contains sc allowed ≡ true) out
      permitted =
          All-keep_of (λ sc. contains sc allowed ≡ true) known allowed (All-contains allowed)

      registered : All (λ sc. is_some (entry_for r sc) ≡ true) out
      registered = All-keep (λ sc. is_some (entry_for r sc) ≡ true) known allowed (λ sc h. h)

  -- Whatever a cursor holds, only scopes that the server allows now are read.
  pub resolve-allowed :
      (decode : Text → Result Payload) (allowed : List ScopeId) (q : QueryRequest)
      (scopes : List ScopeId) (offsets : Assoc ScopeId ℤ)
      → resolve decode allowed q ≡ ok (scopes, offsets)
      → All (λ sc. contains sc allowed ≡ true) scopes
  unfolding resolve
  resolve-allowed decode allowed q scopes offsets h = elim (Bool-cases (is_empty q.cursor)) [
    | inl fresh ↦ elim (Bool-cases (ltb_ℤ max_cursor_offset q.offset)) [
      | inl far ↦ absurd (cc (rw (fresh, far) at h))
      | inr near ↦
          let e : effective_scopes allowed q.filter.scopes ≡ scopes =
            ok_scopes _ _ (rw (fresh, near) at h) in
          subst Permitted e (effective_scopes_lem allowed q.filter.scopes).0
    ]
    | inr sticky ↦ from_cursor (decode q.cursor) (rw sticky at h)
  ]
    where
      Permitted : List ScopeId → Type 0
      Permitted scs = All (λ sc. contains sc allowed ≡ true) scs

      ok_scopes :
          (scs : List ScopeId) (m : Assoc ScopeId ℤ)
          → ◌≡◌ {A = Result Reached} (ok (scs, m)) (ok (scopes, offsets))
          → scs ≡ scopes
      ok_scopes scs m e = cc

      from_cursor :
          (o : Result Payload) → after_cursor allowed o ≡ ok (scopes, offsets) → Permitted scopes
      from_cursor (err e) k = absurd (cc k)
      from_cursor (ok p) k = subst Permitted (ok_scopes _ _ k) (
          All-keep (λ sc. contains sc allowed ≡ true) (λ sc. contains sc allowed) p.scopes
            (λ sc h. h))
