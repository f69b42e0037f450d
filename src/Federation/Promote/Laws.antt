-- ===== src/Federation/Promote/Laws.antt =====
-- What a deletion and a promotion change, on every branch.
use para_mcp.Prelude.{
  [], ◌∷◌, ◌≡◌, ◌≢◌, refl, sym, ◌∙◌, true, false, not, ◌&&◌, none, some, ◌⊎◌, inl, inr, arith,
  Bool-cases, if◌then◌else◌, ap, Option, subst, Bool,
}
use para_mcp.Prelude.Text.{Text, Unicode, same}
use para_mcp.Domain.Results.{
  Result, ok, err, Error, conflict, other, not_found, invalid_path, invalid_front_matter,
  scope_forbidden, unavailable, invalid_cursor, capability_unavailable, allowed_scopes_nil, panic,
}
use para_mcp.Domain.Entities.{
  Note, MutationResult, PromoteInput, FrontMatter, ConflictStrategy, conflict_error,
  conflict_overwrite, other_strategy, Time,
}
use para_mcp.Domain.Filter.{is_empty}
use para_mcp.Service
use para_mcp.Federation.{Registry, Entry}
use para_mcp.Federation.Idempotency.{Cache, store}
use para_mcp.Federation.Promote.{
  State, parties, carry, transfer, archived, archived_on_success, replayed, remember, promote,
  promote_from, promoted_input, aliased, front_matter_fields, overwrites, or_resolved,
  resolve_conflict, move_to_archive,
}
use para_mcp.Domain.Path.{archive_path}

pub is_empty-ne : (t : Text) → t ≢ [] → is_empty t ≡ false
is_empty-ne [] ne = absurd (ne refl)
is_empty-ne (c ∷ t) ne = refl

matched :
    (if_match etag : Text)
    → (not (is_empty if_match) && not (same etag if_match)) ≡ false
    → (if_match ≡ []) ⊎ (etag ≡ if_match)
matched [] etag h = inl refl
matched (c ∷ t) etag h = inr (ground arith)

ok_of : {A : Type 0} {a b : A} → ◌≡◌ {A = Result A} (ok a) (ok b) → a ≡ b
ok_of h = cc h

not_ok :
    {W : Type 0} {res : MutationResult} {w' : W} (e : Error) (w : W)
    → ◌≢◌ {A = Result MutationResult × W} (err e, w) (ok res, w')
not_ok e w h = cc (ap (λ x. x.0) h)

overwrites_lem :
    (e : Error) (c : ConflictStrategy)
    → overwrites e c ≡ true
    → (e ≡ conflict) × (c ≡ conflict_overwrite)
unfolding overwrites
overwrites_lem conflict conflict_overwrite h = (refl, refl)
overwrites_lem conflict conflict_error h = absurd (cc h)
overwrites_lem conflict (other_strategy t) h = absurd (cc h)
overwrites_lem not_found c h = absurd (cc h)
overwrites_lem invalid_path c h = absurd (cc h)
overwrites_lem invalid_front_matter c h = absurd (cc h)
overwrites_lem scope_forbidden c h = absurd (cc h)
overwrites_lem unavailable c h = absurd (cc h)
overwrites_lem invalid_cursor c h = absurd (cc h)
overwrites_lem capability_unavailable c h = absurd (cc h)
overwrites_lem allowed_scopes_nil c h = absurd (cc h)
overwrites_lem panic c h = absurd (cc h)
overwrites_lem (other t) c h = absurd (cc h)

module _ (u : Unicode) (nfc : Text → Text) {W : Type 0} (r : Registry W) where
  -- Where the key names a completed promotion, that result is returned again and nothing is written.
  pub promote_replay :
      (pick : Cache → Text) (id mint : Text) (now later : Time) (input : PromoteInput)
      (st : State W) (res : MutationResult)
      → replayed u nfc r input now st.done ≡ some res
      → promote u nfc r pick id mint now later input st ≡ (ok res, st)
  unfolding promote promote_from
  promote_replay pick id mint now later input st res h =
      ap (promote_from u nfc r pick id mint later input st) h

  -- Where the source is not at the version asked for, the promotion is a conflict and writes nothing.
  pub promote_conflict :
      (pick : Cache → Text) (id mint : Text) (now later : Time) (input : PromoteInput)
      (st : State W) (entry dest : Entry W) (src : Note)
      → replayed u nfc r input now st.done ≡ none
      → parties u nfc r input st.world ≡ ok (entry, dest, src)
      → input.if_match ≢ []
      → src.etag ≢ input.if_match
      → promote u nfc r pick id mint now later input st ≡ (err conflict, st)
  unfolding promote promote_from carry remember
  promote_conflict pick id mint now later input st entry dest src h p ne differs =
      ap (promote_from u nfc r pick id mint later input st) h
      ∙ ap (λ x. remember u nfc r pick input later st (carry u nfc r id mint input st.world x)) p
      ∙ rw e refl
    where
      e : (not (is_empty input.if_match) && not (same src.etag input.if_match)) ≡ true
      e = ground (arith, is_empty-ne input.if_match ne)

  -- How the destination came to hold the promoted note: it was created, or it was there, which the
  -- input allows to overwrite, and was replaced.
  pub data Written (input : PromoteInput) (id mint : Text) (dest : Entry W) (src : Note) (w : W)
      (res : MutationResult) (w' : W) : Type 0 where
    created :
        Service.create u nfc dest.svc mint (promoted_input input id src) w ≡ (ok res, w')
        → Written input id mint dest src w res w'
    replaced :
        (w1 : W)
        → Service.create u nfc dest.svc mint (promoted_input input id src) w ≡ (err conflict, w1)
        → input.on_conflict ≡ conflict_overwrite
        → Service.replace u nfc dest.svc
            (record { scope = input.to_scope; path = input.ref.path })
            (front_matter_fields (aliased src.front_matter id))
            src.body
            []
            w1
          ≡ (ok res, w')
        → Written input id mint dest src w res w'

  -- What became of the source: it is to be kept, it has no path in the archive, or it was asked to move
  -- there at the version that was read, whatever the vault answered.
  pub data Archived (input : PromoteInput) (entry : Entry W) (src : Note) (w w' : W) : Type 0 where
    source_kept : input.keep_source ≡ true → w' ≡ w → Archived input entry src w w'
    no_archive :
        input.keep_source ≡ false
        → archive_path input.ref.path ≡ none
        → w' ≡ w
        → Archived input entry src w w'
    source_moved :
        (path : Text) (answer : Result MutationResult)
        → input.keep_source ≡ false
        → archive_path input.ref.path ≡ some path
        → Service.move u nfc entry.svc input.ref path src.etag w ≡ (answer, w')
        → Archived input entry src w w'

  archived-Archived :
      (input : PromoteInput) (entry : Entry W) (src : Note) (w : W)
      → Archived input entry src w (archived u nfc r input entry src w)
  unfolding archived
  archived-Archived input entry src w = by_kept input.keep_source refl
    where
      by_path :
          input.keep_source ≡ false
          → (o : Option Text) → archive_path input.ref.path ≡ o
          → Archived input entry src w (move_to_archive u nfc r input entry src w o)
      by_path k none p = no_archive k p refl
      by_path k (some path) p =
          source_moved path (Service.move u nfc entry.svc input.ref path src.etag w).0 k p refl

      by_kept :
          (b : Bool)
          → input.keep_source ≡ b
          → Archived input entry src w (
              if b
              then w
              else move_to_archive u nfc r input entry src w (archive_path input.ref.path))
      by_kept true k = source_kept k refl
      by_kept false k = by_path k (archive_path input.ref.path) refl

  transfer-Written :
      (id mint : Text) (input : PromoteInput) (dest : Entry W) (src : Note) (w w' : W)
      (res : MutationResult)
      → transfer u nfc r id mint input dest src w ≡ (ok res, w')
      → Written input id mint dest src w res w'
  unfolding transfer resolve_conflict
  transfer-Written id mint input dest src w w' res h =
      go (Service.create u nfc dest.svc mint (promoted_input input id src) w) refl h
    where
      fm : FrontMatter
      fm = aliased src.front_matter id

      go :
          (o : Result MutationResult × W)
          → Service.create u nfc dest.svc mint (promoted_input input id src) w ≡ o
          → or_resolved u nfc r input dest src fm o ≡ (ok res, w')
          → Written input id mint dest src w res w'
      go (ok a, w1) p k = created (p ∙ k)
      go (err e, w1) p k = elim (Bool-cases (overwrites e input.on_conflict)) [
        | inl o ↦
            let (is_conflict, on_conflict) = overwrites_lem e input.on_conflict o in
            replaced w1 (p ∙ ap (λ x. (err x, w1)) is_conflict) on_conflict (rw o at k)
        | inr o ↦ absurd (not_ok e w1 (rw o at k))
      ]

  -- What a promotion that is not a replay has done when it succeeds: the source was read at the version
  -- asked for; the destination created the note, or had one there, which the input allows to overwrite, and
  -- replaced it; only then the source was asked to move into the archive at the version that was read,
  -- unless it is to be kept or has no path there. An error of this move is not reported: the source may still
  -- be there. No tombstone is added, and the result is what the cache now has for the key.
  pub promote_ok :
      (pick : Cache → Text) (id mint : Text) (now later : Time) (input : PromoteInput)
      (st st' : State W) (res : MutationResult)
      → replayed u nfc r input now st.done ≡ none
      → promote u nfc r pick id mint now later input st ≡ (ok res, st')
      → (entry : Entry W) × (dest : Entry W) × (src : Note) × (w1 : W) × (parties u nfc r input
            st.world
          ≡ ok (entry, dest, src))
        × ((input.if_match ≡ []) ⊎ (src.etag ≡ input.if_match))
        × Written input id mint dest src st.world res w1
        × Archived input entry src w1 st'.world
        × (st'.dead ≡ st.dead)
        × (st'.done ≡ (
            if is_empty input.idempotency_key
            then st.done
            else store pick input.idempotency_key res later st.done))
  unfolding promote promote_from carry remember
  promote_ok pick id mint now later input st st' res h k =
      go (parties u nfc r input st.world) refl
        (sym (ap (promote_from u nfc r pick id mint later input st) h) ∙ k)
    where
      Goal : Type 0
      Goal =
          (entry : Entry W) × (dest : Entry W) × (src : Note) × (w1 : W) × (parties u nfc r input
              st.world
            ≡ ok (entry, dest, src))
          × ((input.if_match ≡ []) ⊎ (src.etag ≡ input.if_match))
          × Written input id mint dest src st.world res w1
          × Archived input entry src w1 st'.world
          × (st'.dead ≡ st.dead)
          × (st'.done ≡ (
              if is_empty input.idempotency_key
              then st.done
              else store pick input.idempotency_key res later st.done))

      kept :
          (entry dest : Entry W) (src : Note) (o : Result MutationResult × W)
          → parties u nfc r input st.world ≡ ok (entry, dest, src)
          → (input.if_match ≡ []) ⊎ (src.etag ≡ input.if_match)
          → transfer u nfc r id mint input dest src st.world ≡ o
          → remember u nfc r pick input later st (archived_on_success u nfc r input entry src o)
            ≡ (ok res, st')
          → Goal
      kept entry dest src (err e, w1) p m t x = absurd (cc (ap (λ z. z.0) x))
      kept entry dest src (ok a, w1) p m t x =
          let a_res : a ≡ res = ok_of (ap (λ z. z.0) x) in
          (
            entry,
            dest,
            src,
            w1,
            p,
            m,
            transfer-Written id mint input dest src st.world w1 res
                (t ∙ ap (λ z. (ok z, w1)) a_res),
            subst (Archived input entry src w1) (ap (λ z. z.1.world) x)
                (archived-Archived input entry src w1),
            sym (ap (λ z. z.1.dead) x),
            sym (ap (λ z. z.1.done) x)
                ∙ ap
                    (λ z.
                      if is_empty input.idempotency_key
                      then st.done
                      else store pick input.idempotency_key z later st.done)
                    a_res,
          )

      go :
          (o : Result (Entry W × Entry W × Note))
          → parties u nfc r input st.world ≡ o
          → remember u nfc r pick input later st (carry u nfc r id mint input st.world o)
            ≡ (ok res, st')
          → Goal
      go (err e) p x = absurd (cc (ap (λ z. z.0) x))
      go (ok (entry, dest, src)) p x =
          elim (Bool-cases (not (is_empty input.if_match) && not (same src.etag input.if_match))) [
            | inl stale ↦ absurd (cc (ap (λ z. z.0) (rw stale at x)))
            | inr fresh ↦
                kept entry dest src _ p (matched input.if_match src.etag fresh) refl (rw fresh at x)
          ]
