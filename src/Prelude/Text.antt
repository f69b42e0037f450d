-- ===== src/Prelude/Text.antt =====
-- Text as a list of code points, with the operations of the package `strings` that the program uses.
use Prim.Native.Nat.{ℕ, ◌+◌, Ordering}
use Prim.Native.Char.{code}
use Prim.Native.String.{String}
use mathlib.Core.Path.{◌≡◌, refl, ap, ap₂, subst}
use mathlib.Core.Logic.{inl, inr}
use mathlib.Core.Bool.{Bool, true, false}
use mathlib.Core.List.{List, [], ◌∷◌, ◌++◌, map}
use mathlib.Core.Option.{Option, none, some}
use native.Mathlib.Decide.{ℕ_discrete}
use native.Mathlib.Omega.{arith}
use para_mcp.Prelude.Tests.{Bool-cases, ltb, leb, is, if◌then◌else◌, ◌==◌}
use para_mcp.Prelude.Lists.{All, All-imp}

abbrev pub Text : Type 0
Text = List ℕ

-- The code points of a literal.
abbrev pub codes : String → Text
codes String.[] = []
codes (String.◌∷◌ c s) = code c ∷ codes s

unfoldable pub dec_text : Discrete Text
unfolding ℕ_discrete
dec_text [] [] = yes refl
dec_text [] (b ∷ bs) = no (λ e. cc e)
dec_text (a ∷ as') [] = no (λ e. cc e)
dec_text (a ∷ as') (b ∷ bs) = elim (ℕ_discrete a b) [
  | yes p ↦ elim (dec_text as' bs) [ yes q ↦ yes (ap₂ ◌∷◌ p q) | no q ↦ no (λ e. q (cc e)) ]
  | no p ↦ no (λ e. p (cc e))
]

-- `a == b` on strings
abbrev pub same : Text → Text → Bool
same a b = is (dec_text a b)

-- `strings.Compare`
unfoldable pub compare_text : Text → Text → Ordering
compare_text [] [] = Ordering.eq
compare_text [] (b ∷ bs) = Ordering.lt
compare_text (a ∷ s) [] = Ordering.gt
compare_text (a ∷ s) (b ∷ bs) =
    let rest = compare_text s bs in
    if ltb a b then Ordering.lt else if ltb b a then Ordering.gt else rest

-- `slices.Contains` over strings
unfoldable pub contains : Text → List Text → Bool
contains a [] = false
contains a (b ∷ bs) = let rest = contains a bs in if same b a then true else rest

-- `strings.ContainsRune`
unfoldable pub has_rune : ℕ → Text → Bool
has_rune c [] = false
has_rune c (b ∷ bs) = let rest = has_rune c bs in if b == c then true else rest

-- `strings.CutPrefix`: what follows the prefix
unfoldable pub cut_prefix : Text → Text → Option Text
cut_prefix [] s = some s
cut_prefix (a ∷ p) [] = none
cut_prefix (a ∷ p) (b ∷ s) = let rest = cut_prefix p s in if a == b then rest else none

-- `strings.Cut` at the first code point `c`
unfoldable pub cut : ℕ → Text → Text × Option Text
cut c [] = ([], none)
cut c (b ∷ s) = let rest = cut c s in if b == c then ([], some s) else (b ∷ rest.0, rest.1)

-- `len` of a string: the bytes of its UTF-8 form
abbrev rune_bytes : ℕ → ℕ
rune_bytes c = if ltb c 0x80 then 1 else if ltb c 0x800 then 2 else if ltb c 0x10000 then 3 else 4

unfoldable pub byte_length : Text → ℕ
byte_length [] = 0
byte_length (c ∷ s) = rune_bytes c + byte_length s

-- The tables of the package `unicode` that the program reads.
pub record Unicode : Type 0 where
  pub lower : ℕ → ℕ
  pub fold : ℕ → ℕ
  pub is_space : ℕ → Bool

-- `strings.ToLower`
abbrev pub to_lower : Unicode → Text → Text
to_lower u = map u.lower

-- `strings.EqualFold`: equal after simple folding
abbrev pub equal_fold : Unicode → Text → Text → Bool
equal_fold u a b = same (map u.fold a) (map u.fold b)

abbrev ascii_lower : ℕ → ℕ
ascii_lower c = if leb b'A' c then if leb c b'Z' then c + 32 else c else c

abbrev ascii_space : ℕ → Bool
ascii_space c = if c == 32 then true else if leb 9 c then leb c 13 else false

-- The tables restricted to ASCII, for tests.
abbrev pub ascii : Unicode
ascii = record { lower = ascii_lower; fold = ascii_lower; is_space = ascii_space }

pub contains-refl_head : (a : Text) (bs : List Text) → contains a (a ∷ bs) ≡ true
unfolding contains
contains-refl_head a bs = ground arith

-- Membership in a list of texts, as the code tests it.
pub contains_imp :
    (P : Text → Type 0) (a : Text) (bs : List Text) → All P bs → contains a bs ≡ true → P a
unfolding contains
contains_imp P a [] h e = cc
contains_imp P a (b ∷ bs) h e = elim (dec_text b a) [
  | yes p ↦ subst P p h.0
  | no p ↦ contains_imp P a bs h.1 (ground arith)
]

-- A text is what stands before the first `c`, that `c`, and what `cut` returns as the rest.
pub cut-has_rune :
    (c : ℕ) (s : Text)
    → has_rune c s ≡ true
    → (rest : Text) × ((cut c s).1 ≡ some rest) × ((cut c s).0 ++ c ∷ rest ≡ s)
unfolding has_rune cut
cut-has_rune c [] h = absurd (ground arith)
cut-has_rune c (b ∷ s) h = elim (Bool-cases (b == c)) [
  | inl e ↦ (s, rw e refl, rw e (ground arith))
  | inr e ↦
      let (rest, found, whole) = cut-has_rune c s (ground arith) in
      (rest, rw e found, rw e (ap (◌∷◌ b) whole))
]

-- The separator splits a text in one way only, where it does not stand before.
pub separator_unique :
    (c : ℕ) (s t x y : Text)
    → has_rune c s ≡ false
    → has_rune c t ≡ false
    → s ++ c ∷ x ≡ t ++ c ∷ y
    → (s ≡ t) × (x ≡ y)
unfolding has_rune
separator_unique c [] [] x y h k p = (refl, cc)
separator_unique c [] (b ∷ t) x y h k p = absurd (ground arith)
separator_unique c (a ∷ s) [] x y h k p = absurd (ground arith)
separator_unique c (a ∷ s) (b ∷ t) x y h k p =
    let (e, r) = separator_unique c s t x y (ground arith) (ground arith) (cc) in (ground arith, r)

contains-cons : (a b : Text) (bs : List Text) → contains a bs ≡ true → contains a (b ∷ bs) ≡ true
unfolding contains
contains-cons a b bs h = ground arith

-- Every element of a list is contained in it.
pub All-contains : (bs : List Text) → All (λ a. contains a bs ≡ true) bs
All-contains [] = tt
All-contains (b ∷ bs) = (
  contains-refl_head b bs,
  All-imp (λ a. contains a bs ≡ true) (λ a. contains a (b ∷ bs) ≡ true) bs
      (λ a. contains-cons a b bs) (All-contains bs),
)
