-- ===== src/Storage/Links/Laws.antt =====
-- noteutil.go: what the links of a body and the keys of a path are.
use para_mcp.Prelude.{
  ℕ, map, ◌≡◌, refl, Bool, true, false, List, [], ◌∷◌, arith, any, Bool-cases, inl, inr,
}
use para_mcp.Prelude.Text.{Text, Unicode, dec_text, same, contains, contains-refl_head}
use para_mcp.Domain.Filter.{is_empty}
use para_mcp.Storage.Links.{
  OutLink, Match, link_key, skipped, now_seen, collect_links, find_links, parse_links,
}

-- Each link has a target of its own, which is not empty.
abbrev pub IsLinks : List OutLink → Type 0
IsLinks [] = Unit
IsLinks (l ∷ ls) =
    (is_empty l.target_key ≡ false)
    × (any (λ m. same m.target_key l.target_key) ls ≡ false)
    × IsLinks ls

is_empty-map : (f : ℕ → ℕ) (s : Text) → is_empty (map f s) ≡ is_empty s
is_empty-map f [] = refl
is_empty-map f (c ∷ s) = refl

module _ (u : Unicode) where
  skipped-false :
      (seen : List Text) (m : Match)
      → skipped u seen m ≡ false
      → (is_empty (link_key u m.target) ≡ false) × (contains (link_key u m.target) seen ≡ false)
  unfolding skipped link_key
  skipped-false seen m e = (rw is_empty-map (ground arith), ground arith)

  seen-contains :
      (skip : Bool) (k key : Text) (seen : List Text)
      → contains k seen ≡ true
      → contains k (now_seen u skip key seen) ≡ true
  unfolding contains
  seen-contains true k key seen h = h
  seen-contains false k key seen h = ground arith

  different :
      (seen : List Text) (key k : Text)
      → key ≡ k
      → contains k seen ≡ true
      → contains key seen ≡ false
      → ⊥
  different seen key k p h n = cc

  collect_links-unseen :
      (k : Text) (seen : List Text) (ms : List Match)
      → contains k seen ≡ true
      → any (λ l. same l.target_key k) (collect_links u seen ms) ≡ false
  unfolding collect_links
  collect_links-unseen k seen [] h = refl
  collect_links-unseen k seen (m ∷ ms) h = elim (Bool-cases (skipped u seen m)) [
    | inl e ↦ rw e (collect_links-unseen k seen ms h)
    | inr e ↦
        let key = link_key u m.target in
        let rest = collect_links-unseen k (key ∷ seen) ms (seen-contains false k key seen h) in
        rw e (elim (dec_text key k) [
          | yes p ↦ absurd (different seen key k p h (skipped-false seen m e).1)
          | no n ↦ ground (arith, rest)
        ])
  ]

  collect_links-IsLinks : (seen : List Text) (ms : List Match) → IsLinks (collect_links u seen ms)
  unfolding collect_links
  collect_links-IsLinks seen [] = tt
  collect_links-IsLinks seen (m ∷ ms) =
      let key = link_key u m.target in
      elim (Bool-cases (skipped u seen m)) [
        | inl e ↦ rw e (collect_links-IsLinks seen ms)
        | inr e ↦ rw e (
          (skipped-false seen m e).0,
          collect_links-unseen key (key ∷ seen) ms (contains-refl_head key seen),
          collect_links-IsLinks (key ∷ seen) ms,
        )
      ]

  -- Each link of a body has a target that is not empty and that no other link has.
  pub parse_links-IsLinks : (body : Text) → IsLinks (parse_links u body)
  unfolding parse_links
  parse_links-IsLinks body = collect_links-IsLinks [] (find_links 0 body)
