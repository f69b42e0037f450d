-- ===== src/Prelude/Compare.antt =====
-- Three-way comparisons, as `cmp.Compare` and `strings.Compare` give them, and their laws.
use Prim.Native.Nat.{compare, Ordering}
use mathlib.Core.Path.{◌≡◌, refl}
use mathlib.Core.Bool.{Bool, true, false}
use mathlib.Core.List.{[], ◌∷◌}
use native.Mathlib.Omega.{arith}
use para_mcp.Prelude.Text.{Text, compare_text}

-- `-n`
abbrev pub swap : Ordering → Ordering
swap Ordering.lt = Ordering.gt
swap Ordering.eq = Ordering.eq
swap Ordering.gt = Ordering.lt

-- `n <= 0`
abbrev pub at_most : Ordering → Bool
at_most Ordering.gt = false
at_most Ordering.eq = true
at_most Ordering.lt = true

-- `n`, or the second comparison where `n` is 0
abbrev pub or_else : Ordering → Ordering → Ordering
or_else Ordering.eq o = o
or_else Ordering.lt o = Ordering.lt
or_else Ordering.gt o = Ordering.gt

-- A comparison of a total preorder.
pub record IsCompare {ℓ} {A : Type ℓ} (c : A → A → Ordering) : Type ℓ where
  pub flip : (a b : A) → c b a ≡ swap (c a b)
  pub trans : (x y z : A) → at_most (c x y) ≡ true → at_most (c y z) ≡ true → at_most (c x z) ≡ true

text-flip : (a b : Text) → compare_text b a ≡ swap (compare_text a b)
unfolding compare_text
text-flip [] [] = refl
text-flip [] (b ∷ bs) = refl
text-flip (a ∷ s) [] = refl
text-flip (a ∷ s) (b ∷ bs) = ground (arith, text-flip s bs)

text_trans :
    (x y z : Text)
    → at_most (compare_text x y) ≡ true
    → at_most (compare_text y z) ≡ true
    → at_most (compare_text x z) ≡ true
unfolding compare_text
text_trans [] y [] h k = refl
text_trans [] y (c ∷ z) h k = refl
text_trans (a ∷ x) [] z h k = cc
text_trans (a ∷ x) (b ∷ y) [] h k = cc
text_trans (a ∷ x) (b ∷ y) (c ∷ z) h k = ground (arith, text_trans x y z)

pub compare_text-IsCompare : IsCompare compare_text
compare_text-IsCompare = record { flip = text-flip; trans = text_trans }

module _ {ℓ} {A : Type ℓ} where
  pub IsCompare-swap : (c : A → A → Ordering) → IsCompare c → IsCompare (λ a b. swap (c a b))
  IsCompare-swap c h = record {
    flip = λ a b. rw (h.flip a b) refl;
    trans = λ x y z p q. ground (arith, h.flip x y, h.flip y z, h.flip x z, h.trans z y x);
  }

  pub IsCompare-or_else :
      (c d : A → A → Ordering)
      → IsCompare c
      → IsCompare d
      → IsCompare (λ a b. or_else (c a b) (d a b))
  IsCompare-or_else c d h k = record {
    flip = λ a b. ground (arith, h.flip a b, k.flip a b);
    trans = λ x y z p q. ground (
      arith,
      h.flip x y,
      h.flip y z,
      h.flip x z,
      h.trans x y z,
      h.trans z x y,
      h.trans y z x,
      k.trans x y z,
    );
  }

  pub IsCompare-on {κ} :
      {B : Type κ} (f : A → B) (c : B → B → Ordering)
      → IsCompare c
      → IsCompare (λ a b. c (f a) (f b))
  IsCompare-on f c h = record {
    flip = λ a b. h.flip (f a) (f b);
    trans = λ x y z. h.trans (f x) (f y) (f z);
  }

pub compare-IsCompare : IsCompare compare
compare-IsCompare = record { flip = λ a b. ground arith; trans = λ x y z p q. ground arith }
