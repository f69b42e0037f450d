-- ===== src/RemoteVault/Bodies/Evict.antt =====
-- The loop that makes room in the body cache.
use para_mcp.Prelude.{
  ℕ, zero, suc, ◌+◌, ◌≤◌, ◌≡◌, refl, sym, ap, ◌∙◌, subst, true, none, List, [], ◌∷◌, ltb, length,
  if◌then◌else◌, arith, Bool-cases, inl, inr,
}
use para_mcp.Prelude.Int.{pos, ◌+ℤ◌, ltb_ℤ, +ℤ_pos}
use para_mcp.Prelude.Text.{Text, dec_text}
use para_mcp.Prelude.Assoc.{get}
use para_mcp.RemoteVault.Bodies.{Elem, BodyCache, body_cache_max, drop_front, evict}
use para_mcp.RemoteVault.Bodies.Links.{sum, IsLinked, drop_front-IsLinked}

-- whether an element of this size fits
abbrev pub Fits : ℕ → BodyCache → Type 0
Fits size c = sum c.order + size ≤ body_cache_max

sum_of_empty : (es : List Elem) → length es ≤ 0 → sum es ≡ 0
sum_of_empty [] h = refl
sum_of_empty (e ∷ es) h = absurd (omega arith)

positive : (es : List Elem) → ltb 0 (suc (length es)) ≡ true
positive es = ground arith

-- what the loop compares
over-sized :
    (size : ℕ) (c : BodyCache)
    → IsLinked c
    → ltb_ℤ (pos body_cache_max) (c.size_b +ℤ pos size) ≡ ltb body_cache_max (sum c.order + size)
over-sized size c l =
    ap (λ n. ltb_ℤ (pos body_cache_max) (n +ℤ pos size)) l.sized
    ∙ ap (ltb_ℤ (pos body_cache_max)) (+ℤ_pos (sum c.order) size)
    ∙ ground arith

-- The loop leaves room for the size, if anything does, where its fuel is the length of the list.
pub evict-IsLinked :
    (fuel size limit : ℕ) (path : Text) (c : BodyCache)
    → length c.order ≤ fuel
    → sum c.order ≤ limit
    → IsLinked c
    → get dec_text path c.entries ≡ none
    → IsLinked (evict fuel size c)
      × (get dec_text path (evict fuel size c).entries ≡ none)
      × (size ≤ body_cache_max → Fits size (evict fuel size c))
      × (sum (evict fuel size c).order ≤ limit)
unfolding evict
evict-IsLinked zero size limit path c short below l absent =
    (l, absent, λ fits. omega (arith, sum_of_empty c.order short), below)
evict-IsLinked (suc fuel) size limit path c short below l absent =
    elim (Bool-cases (ltb_ℤ (pos body_cache_max) (c.size_b +ℤ pos size))) [
      | inl full ↦
          rw full (go c.order refl (λ c' s b l' a. evict-IsLinked fuel size limit path c' s b l' a))
      | inr room ↦ rw room (l, absent, λ fits. ground (arith, over-sized size c l), below)
    ]
  where
    Done : BodyCache → Type 0
    Done x =
        IsLinked x
        × (get dec_text path x.entries ≡ none)
        × (size ≤ body_cache_max → Fits size x)
        × (sum x.order ≤ limit)

    go :
        (es : List Elem)
        → c.order ≡ es
        → ((c' : BodyCache)
            → length c'.order ≤ fuel
            → sum c'.order ≤ limit
            → IsLinked c'
            → get dec_text path c'.entries ≡ none
            → Done (evict fuel size c'))
        → Done (if ltb 0 (length c.order) then evict fuel size (drop_front c c.order) else c)
    go [] p next =
        rw (ap (λ es. ltb 0 (length es)) p)
          (l, absent, λ fits. omega (arith, ap (λ es. sum es) p), below)
    go (x ∷ es) p next =
        let (l', absent', shorter, lighter) = drop_front-IsLinked path c x es p l absent in
        rw (ap (λ es. ltb 0 (length es)) p ∙ positive es) (
          subst (λ es. Done (evict fuel size (drop_front c es))) (sym p)
            (next (drop_front c (x ∷ es)) (omega arith) (omega arith) l' absent'))
