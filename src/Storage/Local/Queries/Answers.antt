-- ===== src/Storage/Local/Queries/Answers.antt =====
-- localvault/queries.go: searches, backlinks and counts.
use para_mcp.Prelude.{
  ℕ, zero, suc, ◌-◌, ◌*◌, ◌≡◌, refl, ap, subst, ◌∙◌, Bool, true, false, ◌||◌, Option, none, some,
  List, [], ◌∷◌, ◌++◌, take, ◌<◌, if◌then◌else◌, arith, Bool-cases, inl, inr, any,
}
use para_mcp.Prelude.Int.{ℤ, pos, negsuc}
use para_mcp.Prelude.Assoc.{passing}
use para_mcp.Prelude.Text.{Text, same, contains, dec_text}
use para_mcp.Domain.Results.{ok}
use para_mcp.Domain.Entities.{NoteSummary, NoteRef, Filter, RankedNote, BacklinkEntry}
use para_mcp.Storage.Links.{BacklinkSrc}
use para_mcp.Storage.Graph.{Graph, links, has_key, backlinks_of}
use para_mcp.Storage.Graph.Laws.{IsConsistent, has_path}
use para_mcp.Storage.Local.{Site, Local, SearchResult}
use para_mcp.Storage.Links.{link_match_keys}
use para_mcp.Storage.Local.Queries.{
  backlinks, entries, entry_of, search, search_limit, accepted, found, search_hits,
  distinct_sources, sources_of, passes_over,
}

passing-some :
    {V : Type 0} (p : V → Bool) (o : Option V) (v : V)
    → passing dec_text p o ≡ some v
    → (o ≡ some v) × (p v ≡ true)
passing-some p none v h = absurd (cc)
passing-some p (some u) v h = passed (p u) refl h
  where
    passed :
        (b : Bool)
        → p u ≡ b
        → (if b then some u else none) ≡ some v
        → (some u ≡ some v) × (p v ≡ true)
    passed true e k = (k, cc)
    passed false e k = absurd (cc)

module _ {N : Type 0} {X : Type 0} (e : Site N X) (w : Local X) (f : Filter) where
  abbrev pub and_hit : Option NoteSummary → SearchResult → List RankedNote → List RankedNote
  and_hit none h rest = rest
  and_hit (some s) h rest = record { summary = s; score = h.score; body = [] } ∷ rest

  -- the cached notes that the hits stand for and the filter accepts, in the order of the hits
  unfoldable pub accepted_hits : List SearchResult → List RankedNote
  accepted_hits [] = []
  accepted_hits (h ∷ hs) = and_hit (accepted e w f h.ref.path) h (accepted_hits hs)

  found-step :
      (n : ℕ) (o : Option NoteSummary) (h : SearchResult) (skip more rest : List RankedNote)
      → skip ≡ take (suc n) rest
      → (0 < n → more ≡ take n rest)
      → found e (suc n) o h skip more ≡ take (suc n) (and_hit o h rest)
  found-step n none h skip more rest a b = a
  found-step zero (some s) h skip more rest a b = refl
  found-step (suc n) (some s) h skip more rest a b = ground (arith, b (omega arith))

  search_hits-take :
      (n : ℕ) (hs : List SearchResult) → 0 < n → search_hits e w f n hs ≡ take n (accepted_hits hs)
  unfolding search_hits accepted_hits
  search_hits-take zero hs p = absurd (omega arith)
  search_hits-take (suc n) [] p = refl
  search_hits-take (suc n) (h ∷ hs) p =
      found-step n (accepted e w f h.ref.path) h (search_hits e w f (suc n) hs)
        (search_hits e w f (suc n - 1) hs) (accepted_hits hs) (search_hits-take (suc n) hs p)
        (λ q. ap (λ m. search_hits e w f m hs) (omega arith) ∙ search_hits-take n hs q)

  search_limit-positive : (limit : ℤ) → 0 < search_limit e limit
  search_limit-positive (negsuc n) = omega arith
  search_limit-positive (pos zero) = omega arith
  search_limit-positive (pos (suc n)) = omega arith

  -- A search returns the first of the cached notes that the hits of the index stand for and the filter
  -- accepts, in the order of the hits, as many as asked for.
  pub search-take :
      (text : Text) (limit : ℤ)
      → let n = search_limit e limit in
        search e w text f limit
        ≡ ok (take n (accepted_hits (e.fts.find text (pos (n * 3)) w.index)))
  unfolding search
  search-take text limit =
      let n = search_limit e limit in
      ap ok
        (search_hits-take n (e.fts.find text (pos (n * 3)) w.index) (search_limit-positive limit))

contains-same :
    (p q : Text) (seen : List Text)
    → (if same p q then contains p seen else true) ≡ (if same p q then contains q seen else true)
contains-same p q seen = elim (dec_text p q) [
  | yes e ↦
      subst
        (λ r.
          (if same p r then contains p seen else true)
          ≡ (if same p r then contains r seen else true))
        e refl
  | no n ↦ ground arith
]

-- Each note is found once, if one of the lists has it.
has_path-distinct_sources :
    (seen : List Text) (srcs : List BacklinkSrc) (q : Text)
    → has_path q (distinct_sources true seen srcs)
      ≡ (if contains q seen then false else has_path q srcs)
unfolding distinct_sources contains
has_path-distinct_sources seen [] q = ground arith
has_path-distinct_sources seen (src ∷ srcs) q = elim (Bool-cases (contains src.path seen)) [
  | inl b ↦
      rw b (ground (arith, has_path-distinct_sources seen srcs q, contains-same src.path q seen))
  | inr b ↦ rw b (
      ground
        (arith, has_path-distinct_sources (src.path ∷ seen) srcs q, contains-same src.path q seen))
]

has_path-append :
    (q : Text) (a b : List BacklinkSrc) → has_path q (a ++ b) ≡ has_path q a || has_path q b
has_path-append q [] b = refl
has_path-append q (s ∷ a) b = ground (arith, has_path-append q a b)

has_path-sources_of :
    (q : Text) (ks : List Text) (g : Graph)
    → IsConsistent g
    → has_path q (sources_of ks g) ≡ any (λ k. has_key k (links q g)) ks
unfolding sources_of
has_path-sources_of q [] g c = refl
has_path-sources_of q (k ∷ ks) g c = ground (
  arith,
  has_path-append q (backlinks_of k g) (sources_of ks g),
  c k q,
  has_path-sources_of q ks g c,
)

-- each path at most once, and none that was seen
abbrev pub IsOnce : List Text → List BacklinkSrc → Type 0
IsOnce seen [] = Unit
IsOnce seen (s ∷ srcs) = (contains s.path seen ≡ false) × IsOnce (s.path ∷ seen) srcs

distinct_sources-IsOnce :
    (include_assets : Bool) (seen : List Text) (srcs : List BacklinkSrc)
    → IsOnce seen (distinct_sources include_assets seen srcs)
unfolding distinct_sources
distinct_sources-IsOnce include_assets seen [] = tt
distinct_sources-IsOnce include_assets seen (src ∷ srcs) =
    elim (Bool-cases (passes_over include_assets seen src)) [
      | inl b ↦ rw b (distinct_sources-IsOnce include_assets seen srcs)
      | inr b ↦ rw b (ground arith, distinct_sources-IsOnce include_assets (src.path ∷ seen) srcs)
    ]

module _ {N : Type 0} {X : Type 0} (e : Site N X) (w : Local X) (f : Filter) where
  -- the entries of the sources whose note is cached and passes the filter
  abbrev pub accepted_sources : List BacklinkSrc → List BacklinkEntry
  accepted_sources [] = []
  accepted_sources (s ∷ srcs) = elim (accepted e w f s.path) [
    | none ↦ accepted_sources srcs
    | some n ↦ record { summary = n; is_asset = s.is_asset } ∷ accepted_sources srcs
  ]

  entries-accepted : (srcs : List BacklinkSrc) → entries e w f srcs ≡ accepted_sources srcs
  unfolding entries
  entries-accepted [] = refl
  entries-accepted (s ∷ srcs) = go (accepted e w f s.path) (entries-accepted srcs)
    where
      go :
          (o : Option NoteSummary)
          → entries e w f srcs ≡ accepted_sources srcs
          → entry_of e o s (entries e w f srcs) ≡ (elim o [
            | none ↦ accepted_sources srcs
            | some n ↦ record { summary = n; is_asset = s.is_asset } ∷ accepted_sources srcs
          ])
      go none h = h
      go (some n) h = ap (◌∷◌ (record { summary = n; is_asset = s.is_asset })) h

  -- Where the inverse index agrees with the links of the notes, `Backlinks` with assets considers exactly the
  -- notes that link one of the keys of the path, each of them once; it answers with those of them that are
  -- cached and that the filter accepts, and passes over the others.
  pub backlinks_lem :
      (ref : NoteRef)
      → IsConsistent w.graph
      → (srcs : List BacklinkSrc) × (backlinks e w ref true f ≡ ok (accepted_sources srcs))
        × IsOnce [] srcs
        × ((q : Text)
            → has_path q srcs
              ≡ any (λ k. has_key k (links q w.graph)) (link_match_keys e.unicode ref.path))
  unfolding backlinks contains
  backlinks_lem ref c =
      let ks = link_match_keys e.unicode ref.path in
      let srcs = distinct_sources true [] (sources_of ks w.graph) in
      (
        srcs,
        ap ok (entries-accepted srcs),
        distinct_sources-IsOnce true [] (sources_of ks w.graph),
        λ q.
            has_path-distinct_sources [] (sources_of ks w.graph) q
            ∙ has_path-sources_of q ks w.graph c,
      )
