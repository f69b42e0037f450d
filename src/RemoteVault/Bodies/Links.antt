-- ===== src/RemoteVault/Bodies/Links.antt =====
-- The map and the list of the body cache: how they are linked, through every change.
use para_mcp.Prelude.{
  ℕ, ◌+◌, ◌≤◌, ◌≡◌, ◌≢◌, refl, sym, ap, ◌∙◌, Option, none, some, List, [], ◌∷◌, ◌++◌, length,
  ℕ_discrete, arith,
}
use para_mcp.Prelude.Int.{pos}
use para_mcp.Prelude.Text.{Text, dec_text}
use para_mcp.Prelude.Assoc.{
  Assoc, get, remove, get-remove, Distinct, Distinct-remove, remove_absent, length-remove, get-head,
}
use para_mcp.RemoteVault.Bodies.{
  BodyEntry, Elem, BodyCache, minus, remove_locked, drop_entry, invalidate, drop_front,
}

-- the sizes of the elements, added up
abbrev pub sum : List Elem → ℕ
sum [] = 0
sum (e ∷ es) = e.1.size_b + sum es

-- The map and the list hold the same elements, each once and under its path, and the size is theirs.
pub record IsLinked (c : BodyCache) : Type 0 where
  pub linked :
      (path : Text) (e : Elem)
      → get dec_text path c.entries ≡ some e
      → (get ℕ_discrete e.0 c.order ≡ some e.1) × (e.1.path ≡ path)
  pub held :
      (i : ℕ) (b : BodyEntry)
      → get ℕ_discrete i c.order ≡ some b
      → get dec_text b.path c.entries ≡ some (i, b)
  pub ids : Distinct ℕ_discrete c.order
  pub fresh : (i : ℕ) → c.next ≤ i → get ℕ_discrete i c.order ≡ none
  pub sized : c.size_b ≡ pos (sum c.order)

pub sum-append : (es : List Elem) (e : Elem) → sum (es ++ e ∷ []) ≡ sum es + e.1.size_b
sum-append [] e = omega arith
sum-append (x ∷ es) e = omega (arith, sum-append es e)

minus-pos : (a b : ℕ) → minus (pos (a + b)) b ≡ pos a
unfolding minus
minus-pos a b = ground arith

sum-remove :
    (i : ℕ) (es : List Elem) (b : BodyEntry)
    → Distinct ℕ_discrete es
    → get ℕ_discrete i es ≡ some b
    → sum (remove ℕ_discrete i es) + b.size_b ≡ sum es
unfolding get remove
sum-remove i [] b d h = absurd (cc h)
sum-remove i (e ∷ es) b d h =
    ground (arith, sum-remove i es b d.1, remove_absent ℕ_discrete e.0 es d.0)

pub remove-some :
    {K V : Type 0} (dec : Discrete K) (j k : K) (m : Assoc K V) (v : V)
    → get dec k (remove dec j m) ≡ some v
    → (j ≢ k) × (get dec k m ≡ some v)
remove-some dec j k m v h = elim (dec j k) [
  | yes p ↦ absurd (ground (arith, get-remove dec j k m))
  | no p ↦ (p, ground (arith, get-remove dec j k m))
]

pub some_inj : {A : Type 0} {a b : A} → ◌≡◌ {A = Option A} (some a) (some b) → a ≡ b
some_inj h = cc h

pub remove_locked-IsLinked :
    (path : Text) (e : Elem) (c : BodyCache)
    → get dec_text path c.entries ≡ some e
    → IsLinked c
    → IsLinked (remove_locked path e e.1.size_b c)
unfolding remove_locked
remove_locked-IsLinked path e c there l = record {
  linked = still_linked;
  held = still_held;
  ids = Distinct-remove ℕ_discrete e.0 c.order l.ids;
  fresh = λ i h. ground (arith, get-remove ℕ_discrete e.0 i c.order, l.fresh i h);
  sized = shrunk;
}
  where
    found : get ℕ_discrete e.0 c.order ≡ some e.1
    found = (l.linked path e there).0

    at_path : e.1.path ≡ path
    at_path = (l.linked path e there).1

    still_linked :
        (p : Text) (x : Elem)
        → get dec_text p (remove dec_text path c.entries) ≡ some x
        → (get ℕ_discrete x.0 (remove ℕ_discrete e.0 c.order) ≡ some x.1) × (x.1.path ≡ p)
    still_linked p x h =
        let (ne, there2) = remove-some dec_text path p c.entries x h in
        let (found2, at_p) = l.linked p x there2 in
        elim (ℕ_discrete e.0 x.0) [
          | yes q ↦ absurd (
              ne (
                sym at_path
                ∙ ap (λ b. b.path)
                    (some_inj (sym found ∙ ap (λ i. get ℕ_discrete i c.order) q ∙ found2))
                ∙ at_p))
          | no q ↦ (ground (arith, get-remove ℕ_discrete e.0 x.0 c.order), at_p)
        ]

    still_held :
        (i : ℕ) (b : BodyEntry)
        → get ℕ_discrete i (remove ℕ_discrete e.0 c.order) ≡ some b
        → get dec_text b.path (remove dec_text path c.entries) ≡ some (i, b)
    still_held i b h =
        let (ne, found2) = remove-some ℕ_discrete e.0 i c.order b h in
        let there2 = l.held i b found2 in
        elim (dec_text path b.path) [
          | yes q ↦ absurd (
              ne (
                ap (λ x. x.0)
                  (some_inj (sym there ∙ ap (λ p. get dec_text p c.entries) q ∙ there2))))
          | no q ↦ ground (arith, get-remove dec_text path b.path c.entries)
        ]

    shrunk : minus c.size_b e.1.size_b ≡ pos (sum (remove ℕ_discrete e.0 c.order))
    shrunk =
        ap (λ n. minus n e.1.size_b)
          (l.sized ∙ ap pos (sym (sum-remove e.0 c.order e.1 l.ids found)))
        ∙ minus-pos (sum (remove ℕ_discrete e.0 c.order)) e.1.size_b

pub sum-remove-le : (i : ℕ) (es : List Elem) → sum (remove ℕ_discrete i es) ≤ sum es
unfolding remove
sum-remove-le i [] = omega arith
sum-remove-le i (e ∷ es) = ground (arith, sum-remove-le i es)

drop_entry-IsLinked :
    (path : Text) (c : BodyCache) (o : Option Elem)
    → get dec_text path c.entries ≡ o
    → IsLinked c
    → IsLinked (drop_entry path c o)
      × (get dec_text path (drop_entry path c o).entries ≡ none)
      × (sum (drop_entry path c o).order ≤ sum c.order)
unfolding remove_locked
drop_entry-IsLinked path c none p l = (l, p, omega arith)
drop_entry-IsLinked path c (some e) p l = (
  remove_locked-IsLinked path e c p l,
  ground (arith, get-remove dec_text path path c.entries),
  sum-remove-le e.0 c.order,
)

-- Invalidating a path drops it, and keeps the cache linked.
pub invalidate-IsLinked :
    (path : Text) (c : BodyCache)
    → IsLinked c
    → IsLinked (invalidate path c)
      × (get dec_text path (invalidate path c).entries ≡ none)
      × (sum (invalidate path c).order ≤ sum c.order)
unfolding invalidate
invalidate-IsLinked path c l = drop_entry-IsLinked path c (get dec_text path c.entries) refl l

-- an empty path stays empty where elements are dropped
pub drop_front-IsLinked :
    (path : Text) (c : BodyCache) (front : Elem) (rest : List Elem)
    → c.order ≡ front ∷ rest
    → IsLinked c
    → get dec_text path c.entries ≡ none
    → IsLinked (drop_front c (front ∷ rest))
      × (get dec_text path (drop_front c (front ∷ rest)).entries ≡ none)
      × (length (drop_front c (front ∷ rest)).order + 1 ≡ length c.order)
      × (sum (drop_front c (front ∷ rest)).order ≤ sum c.order)
unfolding remove_locked
drop_front-IsLinked path c (i, b) rest p l absent = (
  remove_locked-IsLinked b.path (i, b) c (l.held i b found) l,
  ground (arith, get-remove dec_text b.path path c.entries),
  length-remove ℕ_discrete i c.order b l.ids found,
  sum-remove-le i c.order,
)
  where
    found : get ℕ_discrete i c.order ≡ some b
    found = rw p (get-head ℕ_discrete i b rest)
