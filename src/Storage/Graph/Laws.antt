-- ===== src/Storage/Graph/Laws.antt =====
-- noteutil.go: the inverse index agrees with the links, and the update by difference is a full update.
use para_mcp.Prelude.{
  ◌≡◌, refl, subst, Option-cases, Bool, true, false, not, ◌&&◌, List, [], ◌∷◌, ◌++◌, arith, any,
  keep, if◌then◌else◌, inl, inr,
}
use para_mcp.Prelude.Text.{Text, same, dec_text}
use para_mcp.Prelude.Assoc.{Assoc, get, get-put, get-remove}
use para_mcp.Storage.Links.{OutLink, BacklinkSrc}
use para_mcp.Storage.Graph.{
  Backlinks, Graph, or_nil, links, backlinks_of, put_sources, drop_source, add_source, drop_sources,
  add_sources, remove_links, put_links, linked, upsert, has_key, dropped,
}

-- whether the note at a path is among the sources of a key
abbrev pub has_path : Text → List BacklinkSrc → Bool
has_path q srcs = any (λ s. same s.path q) srcs

abbrev pub sources_at : Text → Backlinks → List BacklinkSrc
sources_at k m = or_nil (get dec_text k m)

abbrev pub links_to : Text → Text → Backlinks → Bool
links_to k q m = has_path q (sources_at k m)

-- A note is a source of a key exactly where one of its links has that key.
abbrev pub IsConsistent : Graph → Type 0
IsConsistent g = (k q : Text) → has_path q (backlinks_of k g) ≡ has_key k (links q g)

has_path-without :
    (p q : Text) (srcs : List BacklinkSrc)
    → has_path q (keep (λ s. not (same s.path p)) srcs)
      ≡ (if same p q then false else has_path q srcs)
has_path-without p q [] = ground arith
has_path-without p q (s ∷ srcs) = ground (arith, has_path-without p q srcs)

has_path-append :
    (q : Text) (srcs : List BacklinkSrc) (s : BacklinkSrc)
    → has_path q (srcs ++ s ∷ []) ≡ (if same s.path q then true else has_path q srcs)
has_path-append q [] s = ground arith
has_path-append q (t ∷ srcs) s = ground (arith, has_path-append q srcs s)

sources_at-put :
    (k j : Text) (srcs : List BacklinkSrc) (m : Backlinks)
    → sources_at j (put_sources k srcs m) ≡ (if same k j then srcs else sources_at j m)
sources_at-put k j [] m = ground (arith, get-remove dec_text k j m)
sources_at-put k j (s ∷ srcs) m = ground (arith, get-put dec_text k j (s ∷ srcs) m)

links_to-drop_source :
    (p k : Text) (m : Backlinks) (j q : Text)
    → links_to j q (drop_source p k m) ≡ (if same k j && same p q then false else links_to j q m)
unfolding drop_source
links_to-drop_source p k m j q = ground (
  arith,
  sources_at-put k j (keep (λ s. not (same s.path p)) (sources_at k m)) m,
  has_path-without p q (sources_at k m),
)

links_to-add_source :
    (p : Text) (l : OutLink) (m : Backlinks) (j q : Text)
    → links_to j q (add_source p l m)
      ≡ (if same l.target_key j && same p q then true else links_to j q m)
unfolding add_source
links_to-add_source p l m j q =
    let s : BacklinkSrc = record { path = p; is_asset = l.is_asset } in
    ground (
      arith,
      get-put dec_text l.target_key j (sources_at l.target_key m ++ s ∷ []) m,
      has_path-append q (sources_at l.target_key m) s,
    )

pub links_to-drop_sources :
    (p : Text) (ls : List OutLink) (m : Backlinks) (j q : Text)
    → links_to j q (drop_sources p ls m)
      ≡ (if has_key j ls && same p q then false else links_to j q m)
unfolding drop_sources has_key
links_to-drop_sources p [] m j q = refl
links_to-drop_sources p (l ∷ ls) m j q = ground (
  arith,
  links_to-drop_sources p ls (drop_source p l.target_key m) j q,
  links_to-drop_source p l.target_key m j q,
)

pub links_to-add_sources :
    (p : Text) (ls : List OutLink) (m : Backlinks) (j q : Text)
    → links_to j q (add_sources p ls m)
      ≡ (if has_key j ls && same p q then true else links_to j q m)
unfolding add_sources has_key
links_to-add_sources p [] m j q = refl
links_to-add_sources p (l ∷ ls) m j q =
    ground (arith, links_to-add_sources p ls (add_source p l m) j q, links_to-add_source p l m j q)

pub has_key-dropped :
    (k : Text) (old new : List OutLink)
    → has_key k (dropped old new) ≡ (if has_key k new then false else has_key k old)
unfolding has_key dropped
has_key-dropped k [] new = ground arith
has_key-dropped k (l ∷ ls) new = elim (dec_text l.target_key k) [
  | yes e ↦
      subst
        (λ j.
          has_key j (dropped (l ∷ ls) new) ≡ (if has_key j new then false else has_key j (l ∷ ls)))
        e (ground (arith, has_key-dropped l.target_key ls new))
  | no n ↦ ground (arith, has_key-dropped k ls new)
]

pub links-put_links :
    (p q : Text) (ls : List OutLink) (m : Assoc Text (List OutLink))
    → or_nil (get dec_text q (put_links p ls m))
      ≡ (if same p q then ls else or_nil (get dec_text q m))
links-put_links p q [] m = ground (arith, get-remove dec_text p q m)
links-put_links p q (l ∷ ls) m = ground (arith, get-put dec_text p q (l ∷ ls) m)

pub links-remove_links :
    (p q : Text) (g : Graph) → links q (remove_links p g) ≡ (if same p q then [] else links q g)
unfolding links remove_links
links-remove_links p q g = elim (Option-cases (get dec_text p g.out_links)) [
  | inl e ↦ rw e (elim (dec_text p q) [
    | yes i ↦
        subst
          (λ j.
            or_nil (get dec_text j g.out_links)
            ≡ (if same p j then [] else or_nil (get dec_text j g.out_links)))
          i (ground arith)
    | no n ↦ ground arith
  ])
  | inr (old, e) ↦ rw e (ground (arith, get-remove dec_text p q g.out_links))
]

links_to-remove_links :
    (p : Text) (g : Graph) (k q : Text)
    → links_to k q (remove_links p g).backlinks
      ≡ (if has_key k (links p g) && same p q then false else links_to k q g.backlinks)
unfolding remove_links links has_key
links_to-remove_links p g k q = elim (Option-cases (get dec_text p g.out_links)) [
  | inl e ↦ rw e refl
  | inr (old, e) ↦ rw e (links_to-drop_sources p old g.backlinks k q)
]

-- A statement on every path, from the one for a given path and the one for the others.
pub by_path :
    (P : Text → Type 0) (p : Text) → P p → ((q : Text) → same p q ≡ false → P q) → (q : Text) → P q
by_path P p here elsewhere q = elim (dec_text p q) [
  | yes e ↦ subst P e here
  | no n ↦ elsewhere q (ground arith)
]

-- Dropping the links of a note keeps the index consistent.
pub remove_links-IsConsistent :
    (p : Text) (g : Graph) → IsConsistent g → IsConsistent (remove_links p g)
unfolding links backlinks_of has_key
remove_links-IsConsistent p g c k =
    by_path
      (λ q. links_to k q (remove_links p g).backlinks ≡ has_key k (links q (remove_links p g))) p
      (ground (arith, c k p, links_to-remove_links p g k p, links-remove_links p p g))
      (λ q n. ground (arith, c k q, links_to-remove_links p g k q, links-remove_links p q g))

links_to-linked :
    (p : Text) (ls : List OutLink) (g : Graph) (k q : Text)
    → links_to k q (linked p ls g).backlinks
      ≡ (if has_key k ls && same p q then true else links_to k q g.backlinks)
unfolding has_key
links_to-linked p [] g k q = refl
links_to-linked p (l ∷ ls) g k q = links_to-add_sources p (l ∷ ls) g.backlinks k q

links-linked :
    (p : Text) (ls : List OutLink) (g : Graph) (q : Text)
    → links p g ≡ []
    → links q (linked p ls g) ≡ (if same p q then ls else links q g)
unfolding links
links-linked p [] g q e =
    by_path (λ j. links j g ≡ (if same p j then [] else links j g)) p (ground arith)
      (λ j n. ground arith) q
links-linked p (l ∷ ls) g q e = ground (arith, get-put dec_text p q (l ∷ ls) g.out_links)

pub links-upsert :
    (p : Text) (ls : List OutLink) (g : Graph) (q : Text)
    → links q (upsert p ls g) ≡ (if same p q then ls else links q g)
unfolding upsert
links-upsert p ls g q = ground (
  arith,
  links-linked p ls (remove_links p g) q (ground (arith, links-remove_links p p g)),
  links-remove_links p q g,
)

pub links_to-upsert :
    (p : Text) (ls : List OutLink) (g : Graph)
    → IsConsistent g
    → (k q : Text)
    → links_to k q (upsert p ls g).backlinks
      ≡ (if same p q then has_key k ls else links_to k q g.backlinks)
unfolding upsert backlinks_of
links_to-upsert p ls g c k =
    let step = λ (q : Text). (links_to-linked p ls (remove_links p g) k q) in
    by_path
      (λ q.
        links_to k q (upsert p ls g).backlinks
        ≡ (if same p q then has_key k ls else links_to k q g.backlinks))
      p (ground (arith, c k p, step p, links_to-remove_links p g k p))
      (λ q n. ground (arith, step q, links_to-remove_links p g k q))

-- `Upsert` keeps the index consistent, and gives the note exactly these links.
pub upsert-IsConsistent :
    (p : Text) (ls : List OutLink) (g : Graph) → IsConsistent g → IsConsistent (upsert p ls g)
unfolding backlinks_of
upsert-IsConsistent p ls g c k =
    by_path (λ q. links_to k q (upsert p ls g).backlinks ≡ has_key k (links q (upsert p ls g))) p
      (ground (arith, links_to-upsert p ls g c k p, links-upsert p ls g p))
      (λ q n. ground (arith, c k q, links_to-upsert p ls g c k q, links-upsert p ls g q))
