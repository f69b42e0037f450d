-- ===== src/Domain/Tags/Laws.antt =====
-- What a normalized tag looks like, and when normalizing it again changes nothing.
use para_mcp.Prelude.{
  ℕ, ◌≤◌, ◌≡◌, ◌≢◌, refl, Bool, true, false, Option, none, some, List, [], ◌∷◌, length, All,
  if◌then◌else◌, Bool-cases, inl, inr, arith,
}
use para_mcp.Prelude.Text.{Text, Unicode, codes, to_lower, cut_prefix}
use para_mcp.Domain.Tags.{
  trim_left, trim_right, trim_space, trim_prefix, dashed, max_runes, normalize_tag, normalize_tags,
}

-- A tag as it is stored.
pub record IsTag (u : Unicode) (t : Text) : Type 0 where
  pub not_empty : t ≢ []
  pub short : length t ≤ max_runes
  pub no_space : All (λ c. u.is_space c ≡ false) t

module _ (u : Unicode) where
  -- Each kept code point satisfies what the dash and the code points that are no space satisfy.
  All-dashed :
      (P : ℕ → Type 0) (o j : Bool) (s : Text)
      → P b'-'
      → All (λ c. u.is_space c ≡ false → P c) s
      → All P (dashed u o j s)
  unfolding dashed
  All-dashed P o j [] d h = tt
  All-dashed P o j (c ∷ s) d h = elim (Bool-cases (u.is_space c)) [
    | inl e ↦ rw e (All-dashed P false j s d h.1)
    | inr e ↦ rw e (go o j (h.0 e) (All-dashed P true true s d h.1))
  ]
    where
      go :
          (o j : Bool)
          → P c
          → All P (dashed u true true s)
          → All P (
              if o
              then c ∷ dashed u true true s
              else if j
              then b'-' ∷ c ∷ dashed u true true s
              else c ∷ dashed u true true s)
      go true j p r = (p, r)
      go false true p r = (d, (p, r))
      go false false p r = (p, r)

  All-trivial : (s : Text) → All (λ c. u.is_space c ≡ false → u.is_space c ≡ false) s
  All-trivial [] = tt
  All-trivial (c ∷ s) = (λ e. e, All-trivial s)

  normalized_by :
      (s t : Text)
      → normalize_tag u s ≡ some t
      → (t ≡ dashed u false false (to_lower u (trim_prefix (codes "#") (trim_space u s))))
        × (t ≢ [])
        × (length t ≤ max_runes)
  unfolding normalize_tag
  normalized_by s t h = (ground arith, λ e. ground arith, ground arith)

  -- A normalized tag is not empty, has at most 64 runes and no white space, if the dash is none.
  pub normalize_tag-IsTag :
      u.is_space b'-' ≡ false → (s t : Text) → normalize_tag u s ≡ some t → IsTag u t
  normalize_tag-IsTag d s t h =
      let (e, n, l) = normalized_by s t h in
      record {
        not_empty = n;
        short = l;
        no_space = rw e (All-dashed (λ c. u.is_space c ≡ false) false false _ d (All-trivial _));
      }

  trim_left-id : (t : Text) → All (λ c. u.is_space c ≡ false) t → trim_left u t ≡ t
  unfolding trim_left
  trim_left-id [] h = refl
  trim_left-id (c ∷ t) h = rw h.0

  trim_right-id : (t : Text) → All (λ c. u.is_space c ≡ false) t → trim_right u t ≡ t
  unfolding trim_right
  trim_right-id [] h = refl
  trim_right-id (c ∷ []) h = rw h.0
  trim_right-id (c ∷ d ∷ t) h = rw (trim_right-id (d ∷ t) h.1)

  dashed-id : (j : Bool) (t : Text) → All (λ c. u.is_space c ≡ false) t → dashed u true j t ≡ t
  unfolding dashed
  dashed-id j [] h = refl
  dashed-id j (c ∷ t) h = rw (h.0, dashed-id true t h.1)

  dashed-start : (t : Text) → All (λ c. u.is_space c ≡ false) t → dashed u false false t ≡ t
  unfolding dashed
  dashed-start [] h = refl
  dashed-start (c ∷ t) h = rw (h.0, dashed-id true t h.1)

  lower-id : (t : Text) → All (λ c. u.lower c ≡ c) t → to_lower u t ≡ t
  lower-id [] h = refl
  lower-id (c ∷ t) h = rw (h.0, lower-id t h.1)

  All-lower :
      (s : Text)
      → ((c : ℕ) → u.lower (u.lower c) ≡ u.lower c)
      → All (λ c. u.is_space c ≡ false → u.lower c ≡ c) (to_lower u s)
  All-lower [] h = tt
  All-lower (c ∷ s) h = (λ _. h c, All-lower s h)

  trim_prefix_absent : (p t : Text) → cut_prefix p t ≡ none → trim_prefix p t ≡ t
  unfolding trim_prefix
  trim_prefix_absent p t h = rw (h, trim_prefix)

  -- A stored tag that does not start with `#` is normalized to itself, where lowering a code point
  -- twice is lowering it once and the dash is its own lower case and no space.
  pub normalize_tag-stable :
      u.is_space b'-' ≡ false
      → u.lower b'-' ≡ b'-'
      → ((c : ℕ) → u.lower (u.lower c) ≡ u.lower c)
      → (s t : Text) → normalize_tag u s ≡ some t
      → cut_prefix (codes "#") t ≡ none
      → normalize_tag u t ≡ some t
  unfolding normalize_tag
  normalize_tag-stable sp lo idem s t h hash =
      let tag = normalize_tag-IsTag sp s t h in
      let low : All (λ c. u.lower c ≡ c) t =
        rw (normalized_by s t h).0
          (All-dashed (λ c. u.lower c ≡ c) false false _ lo (All-lower _ idem)) in
      let short = tag.short in
      let ne = tag.not_empty in
      rw
        (
          trim_left-id t tag.no_space,
          trim_right-id t tag.no_space,
          trim_prefix_absent (codes "#") t hash,
          lower-id t low,
          dashed-start t tag.no_space,
        )
        (ground arith)

  -- Every tag of a normalized list is not empty, has at most 64 runes and no white space, if the dash
  -- is no white space.
  pub normalize_tags-IsTag :
      u.is_space b'-' ≡ false → (ts : List Text) → All (IsTag u) (normalize_tags u ts)
  unfolding normalize_tags
  normalize_tags-IsTag d [] = tt
  normalize_tags-IsTag d (t ∷ ts) = go (normalize_tag u t) refl (normalize_tags-IsTag d ts)
    where
      go :
          (o : Option Text)
          → normalize_tag u t ≡ o
          → All (IsTag u) (normalize_tags u ts)
          → All (IsTag u) (elim o [ none ↦ normalize_tags u ts | some n ↦ n ∷ normalize_tags u ts ])
      go none e r = r
      go (some n) e r = (normalize_tag-IsTag d t n e, r)
