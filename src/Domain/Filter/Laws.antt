-- ===== src/Domain/Filter/Laws.antt =====
-- What the guards of a filter amount to.
use para_mcp.Prelude.{
  ◌<◌, ◌≡◌, ◌≢◌, ◌↔◌, ◌⊎◌, inl, inr, Bool, true, false, Option, none, some, List, [], ◌∷◌, any, all,
  All, arith, if◌then◌else◌, refl, not, ◌&&◌,
}
use para_mcp.Prelude.Text.{Text, Unicode, dec_text, contains, equal_fold}
use para_mcp.Domain.Entities.{Filter, NoteSummary, Time, archives}
use para_mcp.Domain.Filter.{is_empty, has_tag, after, before, category_passes, matches_filter}

-- What a filter asks of a note. Its scopes, text, purpose and entities are for others to look at.
pub record IsAccepted (u : Unicode) (n : NoteSummary) (f : Filter) : Type 0 where
  -- An archived note wants the flag or its category; any other its category, if one is asked for.
  pub archived :
      n.category ≡ archives
      → (f.include_archives ≡ true) ⊎ (contains n.category f.categories ≡ true)
  pub listed :
      n.category ≢ archives → (f.categories ≡ []) ⊎ (contains n.category f.categories ≡ true)
  pub status : (f.status ≡ []) ⊎ (equal_fold u n.status f.status ≡ true)
  pub area : (f.area ≡ []) ⊎ (equal_fold u n.area f.area ≡ true)
  pub project : (f.project ≡ []) ⊎ (equal_fold u n.project f.project ≡ true)
  pub tags : All (λ t. has_tag u n.tags t ≡ true) f.tags
  pub any_tags : (f.any_tags ≡ []) ⊎ (any (has_tag u n.tags) f.any_tags ≡ true)
  pub later : (t : Time) → f.updated_after ≡ some t → t < n.updated_at
  pub earlier : (t : Time) → f.updated_before ≡ some t → n.updated_at < t

contains-nil : (t : Text) → contains t [] ≡ false
unfolding contains
contains-nil t = refl

empty_of : {A : Type 0} (l : List A) → is_empty l ≡ true → l ≡ []
empty_of [] h = refl
empty_of (x ∷ xs) h = cc

all→All : {A : Type 0} (p : A → Bool) (l : List A) → all p l ≡ true → All (λ x. p x ≡ true) l
all→All p [] h = tt
all→All p (x ∷ xs) h = (ground arith, all→All p xs (ground arith))

All→all : {A : Type 0} (p : A → Bool) (l : List A) → All (λ x. p x ≡ true) l → all p l ≡ true
All→all p [] h = refl
All→all p (x ∷ xs) h = ground (arith, All→all p xs h.1)

category_passes→ :
    (n : NoteSummary) (f : Filter)
    → category_passes n f ≡ true
    → (n.category ≡ archives
        → (f.include_archives ≡ true) ⊎ (contains n.category f.categories ≡ true))
      × (n.category ≢ archives → (f.categories ≡ []) ⊎ (contains n.category f.categories ≡ true))
unfolding category_passes
category_passes→ n f h = (λ a. ground (arith, contains-nil n.category), λ a. ground arith)

→category_passes :
    (n : NoteSummary) (f : Filter)
    → (n.category ≡ archives
        → (f.include_archives ≡ true) ⊎ (contains n.category f.categories ≡ true))
    → (n.category ≢ archives → (f.categories ≡ []) ⊎ (contains n.category f.categories ≡ true))
    → category_passes n f ≡ true
unfolding category_passes
→category_passes n f a l = elim (dec_text n.category archives) [
  | yes p ↦ elim (a p) [ inl i ↦ ground arith | inr r ↦ ground (arith, contains-nil n.category) ]
  | no p ↦ elim (l p) [ inl i ↦ ground arith | inr r ↦ ground (arith, contains-nil n.category) ]
]

after→ : (n : Time) (o : Option Time) (t : Time) → after n o ≡ true → o ≡ some t → t < n
after→ n o t h e = ground arith

→after : (n : Time) (o : Option Time) → ((t : Time) → o ≡ some t → t < n) → after n o ≡ true
→after n none h = refl
→after n (some t) h = let k : t < n = h t refl in ground arith

before→ : (n : Time) (o : Option Time) (t : Time) → before n o ≡ true → o ≡ some t → n < t
before→ n o t h e = ground arith

→before : (n : Time) (o : Option Time) → ((t : Time) → o ≡ some t → n < t) → before n o ≡ true
→before n none h = refl
→before n (some t) h = let k : n < t = h t refl in ground arith

-- The chain of guards, over the tests themselves.
abbrev chain : (c es s ea a ep p t ex x la be : Bool) → Bool
chain c es s ea a ep p t ex x la be =
    if not c
    then false
    else if not es && not s
    then false
    else if not ea && not a
    then false
    else if not ep && not p
    then false
    else if not t
    then false
    else if not ex && not x
    then false
    else if not la
    then false
    else be

abbrev Passes : (c es s ea a ep p t ex x la be : Bool) → Type 0
Passes c es s ea a ep p t ex x la be =
    (c ≡ true)
    × ((es ≡ true) ⊎ (s ≡ true))
    × ((ea ≡ true) ⊎ (a ≡ true))
    × ((ep ≡ true) ⊎ (p ≡ true))
    × (t ≡ true)
    × ((ex ≡ true) ⊎ (x ≡ true))
    × (la ≡ true)
    × (be ≡ true)

chain→ :
    (c es s ea a ep p t ex x la be : Bool)
    → chain c es s ea a ep p t ex x la be ≡ true
    → Passes c es s ea a ep p t ex x la be
chain→ c es s ea a ep p t ex x la be h = ground arith

→chain :
    (c es s ea a ep p t ex x la be : Bool)
    → Passes c es s ea a ep p t ex x la be
    → chain c es s ea a ep p t ex x la be ≡ true
→chain c es s ea a ep p t ex x la be h = ground arith

empty_or : {A : Type 0} {P : Type 0} (l : List A) → (is_empty l ≡ true) ⊎ P → (l ≡ []) ⊎ P
empty_or l (inl e) = inl (empty_of l e)
empty_or l (inr p) = inr p

or_empty : {A : Type 0} {P : Type 0} (l : List A) → (l ≡ []) ⊎ P → (is_empty l ≡ true) ⊎ P
or_empty l (inl e) = inl (rw e)
or_empty l (inr p) = inr p

abbrev GuardsPass : Unicode → NoteSummary → Filter → Type 0
GuardsPass u n f =
    Passes (category_passes n f) (is_empty f.status) (equal_fold u n.status f.status)
      (is_empty f.area) (equal_fold u n.area f.area) (is_empty f.project)
      (equal_fold u n.project f.project) (all (has_tag u n.tags) f.tags) (is_empty f.any_tags)
      (any (has_tag u n.tags) f.any_tags) (after n.updated_at f.updated_after)
      (before n.updated_at f.updated_before)

guards→ :
    (u : Unicode) (n : NoteSummary) (f : Filter) → matches_filter u n f ≡ true → GuardsPass u n f
unfolding matches_filter
guards→ u n f h =
    chain→ (category_passes n f) (is_empty f.status) (equal_fold u n.status f.status)
      (is_empty f.area) (equal_fold u n.area f.area) (is_empty f.project)
      (equal_fold u n.project f.project) (all (has_tag u n.tags) f.tags) (is_empty f.any_tags)
      (any (has_tag u n.tags) f.any_tags) (after n.updated_at f.updated_after)
      (before n.updated_at f.updated_before) h

→guards :
    (u : Unicode) (n : NoteSummary) (f : Filter) → GuardsPass u n f → matches_filter u n f ≡ true
unfolding matches_filter
→guards u n f h =
    →chain (category_passes n f) (is_empty f.status) (equal_fold u n.status f.status)
      (is_empty f.area) (equal_fold u n.area f.area) (is_empty f.project)
      (equal_fold u n.project f.project) (all (has_tag u n.tags) f.tags) (is_empty f.any_tags)
      (any (has_tag u n.tags) f.any_tags) (after n.updated_at f.updated_after)
      (before n.updated_at f.updated_before) h

-- A filter accepts exactly the notes that meet its constraints on the category, the status, the area, the
-- project, the tags and the time of the update. Its scopes, text, purpose and entities are not looked at.
pub matches_filter_iff :
    (u : Unicode) (n : NoteSummary) (f : Filter) → (matches_filter u n f ≡ true) ↔ IsAccepted u n f
matches_filter_iff u n f = (sound, complete)
  where
    sound : matches_filter u n f ≡ true → IsAccepted u n f
    sound h =
        let (c, s, a, p, t, x, la, be) = guards→ u n f h in
        record {
          archived = (category_passes→ n f c).0;
          listed = (category_passes→ n f c).1;
          status = empty_or f.status s;
          area = empty_or f.area a;
          project = empty_or f.project p;
          tags = all→All (has_tag u n.tags) f.tags t;
          any_tags = empty_or f.any_tags x;
          later = λ i e. after→ n.updated_at f.updated_after i la e;
          earlier = λ i e. before→ n.updated_at f.updated_before i be e;
        }

    complete : IsAccepted u n f → matches_filter u n f ≡ true
    complete h = →guards u n f (
      →category_passes n f h.archived h.listed,
      or_empty f.status h.status,
      or_empty f.area h.area,
      or_empty f.project h.project,
      All→all (has_tag u n.tags) f.tags h.tags,
      or_empty f.any_tags h.any_tags,
      →after n.updated_at f.updated_after h.later,
      →before n.updated_at f.updated_before h.earlier,
    )
