-- ===== src/Storage/Graph/Diff.antt =====
-- noteutil.go: `UpsertDiff` does what `Upsert` does.
use para_mcp.Prelude.{
  ◌≡◌, refl, sym, subst, Bool, true, false, not, List, [], ◌∷◌, suc, arith, all, keep, length,
  if◌then◌else◌, ◌≤◌, Bool-cases, inl, inr,
}
use para_mcp.Prelude.Text.{Text, same, dec_text}
use para_mcp.Storage.Links.{OutLink}
use para_mcp.Storage.Links.Laws.{IsLinks}
use para_mcp.Storage.Graph.{
  Backlinks, Graph, links, backlinks_of, has_key, dropped, unchanged, upsert, upsert_diff,
  drop_sources, add_sources,
}
use para_mcp.Storage.Graph.Laws.{
  IsConsistent, has_path, links_to, links_to-drop_sources, links_to-add_sources, has_key-dropped,
  links-put_links, by_path, links_to-upsert, links-upsert,
}

abbrev without_key : Text → List OutLink → List OutLink
without_key k ls = keep (λ l. not (same l.target_key k)) ls

length-without_key :
    (k : Text) (ls : List OutLink)
    → (if has_key k ls then suc (length (without_key k ls)) else length (without_key k ls))
      ≤ length ls
unfolding has_key
length-without_key k [] = omega arith
length-without_key k (l ∷ ls) = ground (arith, length-without_key k ls)

has_key-without_key :
    (k j : Text) (ls : List OutLink)
    → has_key j (without_key k ls) ≡ (if same k j then false else has_key j ls)
unfolding has_key
has_key-without_key k j [] = ground arith
has_key-without_key k j (l ∷ ls) = ground (arith, has_key-without_key k j ls)

all-has_key :
    (k : Text) (old new : List OutLink)
    → all (λ l. has_key l.target_key new) old ≡ true
    → has_key k old ≡ true
    → has_key k new ≡ true
unfolding has_key
all-has_key k [] new h e = absurd (ground arith)
all-has_key k (l ∷ ls) new h e = elim (dec_text l.target_key k) [
  | yes p ↦ subst (λ j. has_key j new ≡ true) p (ground arith)
  | no n ↦ all-has_key k ls new (ground arith) (ground arith)
]

all-without_key :
    (k : Text) (old new : List OutLink)
    → has_key k old ≡ false
    → all (λ l. has_key l.target_key new) old ≡ true
    → all (λ l. has_key l.target_key (without_key k new)) old ≡ true
unfolding has_key
all-without_key k [] new n h = refl
all-without_key k (l ∷ ls) new n h = ground (
  arith,
  all-without_key k ls new (ground arith) (ground arith),
  has_key-without_key k l.target_key new,
)

-- As many links, all of them present: then they are all the links.
has_key-all :
    (old new : List OutLink)
    → IsLinks old
    → length new ≤ length old
    → all (λ l. has_key l.target_key new) old ≡ true
    → (k : Text) → has_key k new ≡ true
    → has_key k old ≡ true
unfolding has_key
has_key-all [] [] d le h k e = e
has_key-all [] (l ∷ ls) d le h k e = absurd (omega arith)
has_key-all (l ∷ ls) new d le h k e = elim (dec_text l.target_key k) [
  | yes p ↦ ground arith
  | no n ↦
      let rest =
        has_key-all ls (without_key l.target_key new) d.2
          (ground (arith, length-without_key l.target_key new))
          (all-without_key l.target_key ls new d.1 (ground arith)) k
          (ground (arith, has_key-without_key l.target_key k new)) in
      ground (arith, rest)
]

Bool-iff : (a b : Bool) → (a ≡ true → b ≡ true) → (b ≡ true → a ≡ true) → a ≡ b
Bool-iff true b f g = sym (f refl)
Bool-iff false true f g = g refl
Bool-iff false false f g = refl

-- Where the fast path is taken, the links have the same targets.
unchanged_lem :
    (old new : List OutLink)
    → IsLinks old
    → unchanged old new ≡ true
    → (k : Text) → has_key k old ≡ has_key k new
unfolding unchanged
unchanged_lem old new d e k =
    Bool-iff (has_key k old) (has_key k new) (all-has_key k old new (ground arith))
      (has_key-all old new d (ground arith) (ground arith) k)

links_to-diff :
    (p : Text) (added gone : List OutLink) (m : Backlinks) (k q : Text)
    → links_to k q (add_sources p added (drop_sources p gone m)) ≡ (
        if not (same p q)
        then links_to k q m
        else if has_key k added
        then true
        else if has_key k gone
        then false
        else links_to k q m)
links_to-diff p added gone m k q = ground (
  arith,
  links_to-add_sources p added (drop_sources p gone m) k q,
  links_to-drop_sources p gone m k q,
)

module _ (p : Text) (new : List OutLink) (g : Graph) (c : IsConsistent g)
    (d : IsLinks (links p g)) where
  has_key-upsert_diff :
      (k q : Text)
      → has_key k (links q (upsert_diff p (links p g) new g))
        ≡ (if same p q then has_key k new else has_key k (links q g))
  unfolding upsert_diff links
  has_key-upsert_diff k q = elim (Bool-cases (unchanged (links p g) new)) [
    | inl e ↦ rw e (
        by_path
          (λ j. has_key k (links j g) ≡ (if same p j then has_key k new else has_key k (links j g)))
          p (ground (arith, unchanged_lem (links p g) new d e k)) (λ j n. ground arith) q)
    | inr e ↦ rw e (ground (arith, links-put_links p q new g.out_links))
  ]

  links_to-upsert_diff :
      (k q : Text)
      → links_to k q (upsert_diff p (links p g) new g).backlinks
        ≡ (if same p q then has_key k new else links_to k q g.backlinks)
  unfolding upsert_diff backlinks_of
  links_to-upsert_diff k =
      let diff = λ (q : Text).
        links_to-diff p (dropped new (links p g)) (dropped (links p g) new) g.backlinks k q in
      by_path
        (λ q.
          links_to k q (upsert_diff p (links p g) new g).backlinks
          ≡ (if same p q then has_key k new else links_to k q g.backlinks))
        p
        (elim (Bool-cases (unchanged (links p g) new)) [
          | inl e ↦ rw e (ground (arith, c k p, unchanged_lem (links p g) new d e k))
          | inr e ↦ rw e (
              ground (
                arith,
                c k p,
                diff p,
                has_key-dropped k (links p g) new,
                has_key-dropped k new (links p g),
              ))
        ])
        (λ q n. elim (Bool-cases (unchanged (links p g) new)) [
          | inl e ↦ rw e (ground arith)
          | inr e ↦ rw e (ground (arith, diff q))
        ])

  -- The update by difference keeps the index consistent.
  pub upsert_diff-IsConsistent : IsConsistent (upsert_diff p (links p g) new g)
  unfolding backlinks_of
  upsert_diff-IsConsistent k q =
      ground (arith, c k q, links_to-upsert_diff k q, has_key-upsert_diff k q)

  -- For a consistent graph and links with a target each, the update by difference and the full update give
  -- each key the same sources and each note the same targets.
  pub upsert_diff-upsert :
      (k q : Text)
      → (has_path q (backlinks_of k (upsert_diff p (links p g) new g))
          ≡ has_path q (backlinks_of k (upsert p new g)))
        × (has_key k (links q (upsert_diff p (links p g) new g))
            ≡ has_key k (links q (upsert p new g)))
  unfolding backlinks_of has_key
  upsert_diff-upsert k q = (
    ground (arith, links_to-upsert_diff k q, links_to-upsert p new g c k q),
    ground (arith, has_key-upsert_diff k q, links-upsert p new g q),
  )
