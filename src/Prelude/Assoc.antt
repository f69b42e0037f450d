-- ===== src/Prelude/Assoc.antt =====
-- The program's maps: association lists, the entry written last first.
use Prim.Native.Nat.{◌+◌, ◌≤◌}
use mathlib.Core.Path.{◌≡◌, refl, ap, ◌∙◌}
use mathlib.Core.Bool.{Bool}
use mathlib.Core.List.{List, [], ◌∷◌, ◌++◌, map}
use mathlib.Core.Logic.{ite, inl, inr}
use mathlib.Core.Option.{Option, none, some}
use native.Mathlib.Omega.{arith}
use para_mcp.Prelude.Tests.{if◌then◌else◌, is_some, Bool-cases}
use para_mcp.Prelude.Lists.{length, keep}

abbrev pub Assoc {ℓ} : Type ℓ → Type ℓ → Type ℓ
Assoc K V = List (K × V)

module _ {ℓ} {K V : Type ℓ} where
  abbrev pub keys : Assoc K V → List K
  keys = map (λ e. e.0)

  abbrev pub values : Assoc K V → List V
  values = map (λ e. e.1)

module _ {ℓ} {K V : Type ℓ} (dec : Discrete K) where
  -- `m[k]`, with whether the key is there
  unfoldable pub get : K → Assoc K V → Option V
  get k [] = none
  get k (e ∷ m) = ite (dec e.0 k) (some e.1) (get k m)

  -- `delete(m, k)`
  unfoldable pub remove : K → Assoc K V → Assoc K V
  remove k [] = []
  remove k (e ∷ m) = let rest = remove k m in ite (dec e.0 k) rest (e ∷ rest)

  -- `m[k] = v`
  unfoldable pub put : K → V → Assoc K V → Assoc K V
  unfolding remove
  put k v m = (k, v) ∷ remove k m

  abbrev pub has : K → Assoc K V → Bool
  has k m = is_some (get k m)

  pub get-remove : (k j : K) (m : Assoc K V) → get j (remove k m) ≡ ite (dec k j) none (get j m)
  unfolding get remove
  get-remove k j [] = ground arith
  get-remove k j (e ∷ m) = ground (arith, get-remove k j m)

  pub get-put :
      (k j : K) (v : V) (m : Assoc K V) → get j (put k v m) ≡ ite (dec k j) (some v) (get j m)
  unfolding get put
  get-put k j v m = ground (arith, get-remove k j m)

  pub get-head : (k : K) (v : V) (m : Assoc K V) → get k ((k, v) ∷ m) ≡ some v
  unfolding get
  get-head k v m = ground arith

  -- An entry at the end of a map that does not have its key.
  pub get-append :
      (k j : K) (v : V) (m : Assoc K V)
      → get k m ≡ none
      → get j (m ++ (k, v) ∷ []) ≡ ite (dec k j) (some v) (get j m)
  unfolding get
  get-append k j v [] h = refl
  get-append k j v (e ∷ m) h = elim (dec e.0 k) [
    | yes p ↦ absurd (ground arith)
    | no p ↦ ground (arith, get-append k j v m)
  ]

  pub length-remove-le : (k : K) (m : Assoc K V) → length (remove k m) ≤ length m
  unfolding remove
  length-remove-le k [] = omega arith
  length-remove-le k (e ∷ m) = ground (arith, length-remove-le k m)

  -- Every entry has a key of its own.
  abbrev pub Distinct : Assoc K V → Type ℓ
  Distinct [] = Unit
  Distinct (e ∷ m) = (get e.0 m ≡ none) × Distinct m

  pub Distinct-remove : (k : K) (m : Assoc K V) → Distinct m → Distinct (remove k m)
  unfolding remove
  Distinct-remove k [] h = tt
  Distinct-remove k (e ∷ m) h =
      elim (dec e.0 k) as (λ d. Distinct (ite d (remove k m) (e ∷ remove k m))) [
        | yes p ↦ Distinct-remove k m h.1
        | no p ↦ (ground (arith, get-remove k e.0 m), Distinct-remove k m h.1)
      ]

  pub Distinct-put : (k : K) (v : V) (m : Assoc K V) → Distinct m → Distinct (put k v m)
  unfolding put
  Distinct-put k v m h = (ground (arith, get-remove k k m), Distinct-remove k m h)

  pub Distinct-append :
      (k : K) (v : V) (m : Assoc K V) → get k m ≡ none → Distinct m → Distinct (m ++ (k, v) ∷ [])
  unfolding get
  Distinct-append k v [] h d = (refl, tt)
  Distinct-append k v (e ∷ m) h d = elim (dec e.0 k) [
    | yes p ↦ absurd (ground arith)
    | no p ↦ (ground (arith, get-append k e.0 v m, d.0), Distinct-append k v m (ground arith) d.1)
  ]

  pub remove_absent : (k : K) (m : Assoc K V) → get k m ≡ none → remove k m ≡ m
  unfolding get remove
  remove_absent k [] h = refl
  remove_absent k (e ∷ m) h = ground (arith, remove_absent k m)

  pub length-remove :
      (k : K) (m : Assoc K V) (v : V)
      → Distinct m
      → get k m ≡ some v
      → length (remove k m) + 1 ≡ length m
  unfolding get remove
  length-remove k [] v d h = cc
  length-remove k (e ∷ m) v d h = ground (arith, length-remove k m v d.1, remove_absent e.0 m d.0)

  -- the value, if it passes the test
  abbrev pub passing : (V → Bool) → Option V → Option V
  passing p none = none
  passing p (some v) = if p v then some v else none

  -- A loop that deletes entries by a test on their values.
  pub get-keep :
      (p : V → Bool) (k : K) (m : Assoc K V)
      → Distinct m
      → get k (keep (λ e. p e.1) m) ≡ passing p (get k m)
  unfolding get
  get-keep p k [] d = refl
  get-keep p k (e ∷ m) d = ground (arith, get-keep p k m d.1, d.0)

  pub Distinct-keep : (p : V → Bool) (m : Assoc K V) → Distinct m → Distinct (keep (λ e. p e.1) m)
  Distinct-keep p [] d = tt
  Distinct-keep p (e ∷ m) d = elim (Bool-cases (p e.1)) [
    | inl h ↦ rw h (get-keep p e.0 m d.1 ∙ ap (passing p) d.0, Distinct-keep p m d.1)
    | inr h ↦ rw h (Distinct-keep p m d.1)
  ]
