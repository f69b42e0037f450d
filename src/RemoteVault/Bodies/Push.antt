-- ===== src/RemoteVault/Bodies/Push.antt =====
-- A new element of the body cache.
use para_mcp.Prelude.{
  ℕ, suc, ◌≤◌, ◌≡◌, sym, ap, ◌∙◌, subst, none, some, [], ◌∷◌, ◌++◌, ℕ_discrete, arith,
}
use para_mcp.Prelude.Int.{pos, ◌+ℤ◌, +ℤ_pos}
use para_mcp.Prelude.Text.{Text, dec_text}
use para_mcp.Prelude.Assoc.{get, put, get-put, get-append, Distinct-append}
use para_mcp.RemoteVault.Bodies.{BodyEntry, Elem, BodyCache, push_back}
use para_mcp.RemoteVault.Bodies.Links.{sum, IsLinked, sum-append, some_inj}

pub push_back-IsLinked :
    (path : Text) (entry : BodyEntry) (c : BodyCache)
    → entry.path ≡ path
    → IsLinked c
    → get dec_text path c.entries ≡ none
    → IsLinked (push_back path entry c)
unfolding push_back
push_back-IsLinked path entry c e l absent = record {
  linked = now_linked;
  held = now_held;
  ids = Distinct-append ℕ_discrete c.next entry c.order vacant l.ids;
  fresh = now_fresh;
  sized = grown;
}
  where
    vacant : get ℕ_discrete c.next c.order ≡ none
    vacant = l.fresh c.next (omega arith)

    kept :
        (i : ℕ) (b : BodyEntry)
        → get ℕ_discrete i c.order ≡ some b
        → get ℕ_discrete i (c.order ++ (c.next, entry) ∷ []) ≡ some b
    kept i b found = elim (ℕ_discrete c.next i) [
      | yes q ↦ absurd (ground (arith, vacant))
      | no q ↦ ground (arith, get-append ℕ_discrete c.next i entry c.order vacant)
    ]

    now_linked :
        (p : Text) (x : Elem)
        → get dec_text p (put dec_text path (c.next, entry) c.entries) ≡ some x
        → (get ℕ_discrete x.0 (c.order ++ (c.next, entry) ∷ []) ≡ some x.1) × (x.1.path ≡ p)
    now_linked p x h = elim (dec_text path p) [
      | yes q ↦
          let same_elem : (c.next, entry) ≡ x =
            some_inj (ground (arith, get-put dec_text path p (c.next, entry) c.entries)) in
          subst
            (λ y.
              (get ℕ_discrete y.0 (c.order ++ (c.next, entry) ∷ []) ≡ some y.1) × (y.1.path ≡ p))
            same_elem
            (ground (arith, get-append ℕ_discrete c.next c.next entry c.order vacant), e ∙ q)
      | no q ↦
          let there : get dec_text p c.entries ≡ some x =
            ground (arith, get-put dec_text path p (c.next, entry) c.entries) in
          let (found, at_p) = l.linked p x there in (kept x.0 x.1 found, at_p)
    ]

    now_held :
        (i : ℕ) (b : BodyEntry)
        → get ℕ_discrete i (c.order ++ (c.next, entry) ∷ []) ≡ some b
        → get dec_text b.path (put dec_text path (c.next, entry) c.entries) ≡ some (i, b)
    now_held i b h = elim (ℕ_discrete c.next i) [
      | yes q ↦
          let same_entry : entry ≡ b =
            some_inj (ground (arith, get-append ℕ_discrete c.next i entry c.order vacant)) in
          subst
            (λ y. get dec_text y.path (put dec_text path (c.next, entry) c.entries) ≡ some (i, y))
            same_entry (ground (arith, get-put dec_text path entry.path (c.next, entry) c.entries))
      | no q ↦
          let found : get ℕ_discrete i c.order ≡ some b =
            ground (arith, get-append ℕ_discrete c.next i entry c.order vacant) in
          let there = l.held i b found in
          elim (dec_text path b.path) [
            | yes r ↦ absurd (cc (ap (λ z. get dec_text z c.entries) r, there, absent))
            | no r ↦ ground (arith, get-put dec_text path b.path (c.next, entry) c.entries)
          ]
    ]

    now_fresh : (i : ℕ) → suc c.next ≤ i → get ℕ_discrete i (c.order ++ (c.next, entry) ∷ []) ≡ none
    now_fresh i h =
        ground (arith, get-append ℕ_discrete c.next i entry c.order vacant, l.fresh i (omega arith))

    grown : c.size_b +ℤ pos entry.size_b ≡ pos (sum (c.order ++ (c.next, entry) ∷ []))
    grown =
        ap (λ n. n +ℤ pos entry.size_b) l.sized
        ∙ +ℤ_pos (sum c.order) entry.size_b
        ∙ ap pos (sym (sum-append c.order (c.next, entry)))
