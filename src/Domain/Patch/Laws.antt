-- ===== src/Domain/Patch/Laws.antt =====
-- What a patch changes, and that a note's identity can be read back.
use para_mcp.Prelude.{
  ◌≡◌, refl, ◌∙◌, ◌≢◌, Bool, true, false, Option, some, if◌then◌else◌, arith, is, ap, sym,
}
use para_mcp.Prelude.Text.{Text, Unicode, same, dec_text}
use para_mcp.Domain.Value.{
  Value, string, strings, object, Fields, end, field, get_field, put_field, get_field-put_field,
}
use para_mcp.Domain.Entities.{FrontMatter}
use para_mcp.Domain.Patch.{
  Setter, title, status, area, project, tags, extra, setter_of, entries_of, apply_setter,
  apply_patch, derived_key, note_id_key, as_object, get_note_id, set_note_id,
}

-- the value that a map written in this order has at the key, and before it `old`
unfoldable pub last_field : Text → Fields → Option Value → Option Value
last_field k end old = old
last_field k (field j v fs) old = last_field k fs (if same j k then some v else old)

abbrev pub is_extra : Setter → Bool
is_extra extra = true
is_extra title = false
is_extra status = false
is_extra area = false
is_extra project = false
is_extra tags = false

extra-apply_setter :
    (u : Unicode) (s : Setter) (k j : Text) (v : Value) (fm : FrontMatter)
    → get_field j (entries_of (apply_setter u s k v fm).extra) ≡ (
        if is_extra s
        then (if same k j then some v else get_field j (entries_of fm.extra))
        else get_field j (entries_of fm.extra))
unfolding apply_setter
extra-apply_setter u title k j (string s) fm = refl
extra-apply_setter u title k j _ fm = refl
extra-apply_setter u status k j (string s) fm = refl
extra-apply_setter u status k j _ fm = refl
extra-apply_setter u area k j (string s) fm = refl
extra-apply_setter u area k j _ fm = refl
extra-apply_setter u project k j (string s) fm = refl
extra-apply_setter u project k j _ fm = refl
extra-apply_setter u tags k j (strings s) fm = refl
extra-apply_setter u tags k j _ fm = refl
extra-apply_setter u extra k j v fm = get_field-put_field k j v (entries_of fm.extra)

times-apply_setter :
    (u : Unicode) (s : Setter) (k : Text) (v : Value) (fm : FrontMatter)
    → ((apply_setter u s k v fm).created_at ≡ fm.created_at)
      × ((apply_setter u s k v fm).updated_at ≡ fm.updated_at)
unfolding apply_setter
times-apply_setter u title k (string s) fm = (refl, refl)
times-apply_setter u title k _ fm = (refl, refl)
times-apply_setter u status k (string s) fm = (refl, refl)
times-apply_setter u status k _ fm = (refl, refl)
times-apply_setter u area k (string s) fm = (refl, refl)
times-apply_setter u area k _ fm = (refl, refl)
times-apply_setter u project k (string s) fm = (refl, refl)
times-apply_setter u project k _ fm = (refl, refl)
times-apply_setter u tags k (strings s) fm = (refl, refl)
times-apply_setter u tags k _ fm = (refl, refl)
times-apply_setter u extra k v fm = (refl, refl)

same_branch :
    {A : Type 0} {P : Type 0} (d : Dec P) (a b : Bool) (x y : A)
    → (P → a ≡ b)
    → (if b then (if is d then x else y) else y) ≡ (if a then (if is d then x else y) else y)
same_branch (yes p) a b x y h = rw (h p)
same_branch (no p) true true x y h = refl
same_branch (no p) true false x y h = refl
same_branch (no p) false true x y h = refl
same_branch (no p) false false x y h = refl

-- the key of an entry decides its setter
extra-step :
    (u : Unicode) (k j : Text) (v : Value) (fm : FrontMatter)
    → get_field k (entries_of (apply_setter u (setter_of j) j v fm).extra) ≡ (
        if is_extra (setter_of k)
        then (if same j k then some v else get_field k (entries_of fm.extra))
        else get_field k (entries_of fm.extra))
extra-step u k j v fm =
    extra-apply_setter u (setter_of j) j k v fm
    ∙ same_branch (dec_text j k) (is_extra (setter_of k)) (is_extra (setter_of j)) _ _
        (λ p. ap (λ t. is_extra (setter_of t)) (sym p))

after_step :
    {A : Type 0} (f : A → A) (a : Bool) (x y z : A)
    → z ≡ (if a then y else x)
    → (if a then f z else z) ≡ (if a then f y else x)
after_step f true x y z h = ap f h
after_step f false x y z h = h

-- After a patch, an entry that is no named field has the value that the patch gives it last, or its
-- old one; the patch adds no named field to the further entries, and keeps both times.
pub apply_patch_lem :
    (u : Unicode) (fm : FrontMatter) (fs : Fields) (k : Text)
    → (get_field k (entries_of (apply_patch u fm fs).extra) ≡ (
        if is_extra (setter_of k)
        then last_field k fs (get_field k (entries_of fm.extra))
        else get_field k (entries_of fm.extra)))
      × ((apply_patch u fm fs).created_at ≡ fm.created_at)
      × ((apply_patch u fm fs).updated_at ≡ fm.updated_at)
unfolding apply_patch last_field
apply_patch_lem u fm end k = (ground arith, refl, refl)
apply_patch_lem u fm (field j v fs) k =
    let fm' = apply_setter u (setter_of j) j v fm in
    let (e, c, p) = apply_patch_lem u fm' fs k in
    let (c', p') = times-apply_setter u (setter_of j) j v fm in
    (
      e ∙ after_step (last_field k fs) (is_extra (setter_of k)) _ _ _ (extra-step u k j v fm),
      c ∙ c',
      p ∙ p',
    )

-- The identity written is the identity read, whatever the front matter held.
pub get_note_id-set_note_id : (fm : FrontMatter) (id : Text) → get_note_id (set_note_id fm id) ≡ id
unfolding get_note_id set_note_id
get_note_id-set_note_id fm id =
    let m = entries_of fm.extra in
    let d = entries_of (as_object (get_field derived_key m)) in
    let inner = put_field note_id_key (string id) d in
    let e = get_field-put_field derived_key derived_key (object inner) m in
    let i = get_field-put_field note_id_key note_id_key (string id) d in
    unfold dec_text in ground (arith, e, i)

-- Writing the identity changes no other entry of the front matter.
pub set_note_id-keeps :
    (fm : FrontMatter) (id k : Text)
    → k ≢ derived_key
    → get_field k (entries_of (set_note_id fm id).extra) ≡ get_field k (entries_of fm.extra)
unfolding set_note_id
set_note_id-keeps fm id k h = rw get_field-put_field (ground arith)
