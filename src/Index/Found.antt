-- ===== src/Index/Found.antt =====
-- index.go: which documents a search finds, and how many.
use mathlib.Core.List.{Perm}
use para_mcp.Prelude.{
  ℕ, suc, ◌≡◌, refl, Bool, true, Option, none, some, List, [], ◌∷◌, any, is_some, length,
  length-map, length-take, take_of_length-le, map, take, min, not, false, ap, sym, ◌∙◌, ltb, arith,
  if◌then◌else◌, Bool-cases, inl, inr,
}
use para_mcp.Prelude.Sort.{sort-perm, length-sort, sort-IsSorted, IsSorted}
use para_mcp.Prelude.Int.{pos}
use para_mcp.Prelude.Assoc.{Assoc, get, put, has, get-put, Distinct, Distinct-put}
use para_mcp.Prelude.Text.{Text, dec_text}
use para_mcp.Domain.Filter.{is_empty}
use para_mcp.Index.{Floats, Config, Posting, Snapshot, or_new, tokenize}
use para_mcp.Index.Laws.{posting_of}
use para_mcp.Index.Search.{
  score_postings, posting_score, score_so_far, score_term, score_terms, meta_of, idf_of, search,
  hit_at, up_to, ranked,
}

module _ {F : Type 0} (fl : Floats F) (cfg : Config F) (s : Snapshot F) where
  has-score_postings :
      (k : Text) (idf : F) (pm : Assoc Text Posting) (scores : Assoc Text F)
      → has dec_text k (score_postings fl cfg s idf pm scores)
        ≡ (if has dec_text k pm then true else has dec_text k scores)
  unfolding score_postings get
  has-score_postings k idf [] scores = refl
  has-score_postings k idf ((key, p) ∷ pm) scores =
      let x =
        fl.plus (score_so_far fl cfg (get dec_text key scores))
          (posting_score fl cfg s idf (meta_of (get dec_text key s.docs)) p) in
      ground (
        arith,
        has-score_postings k idf pm (put dec_text key x scores),
        get-put dec_text key k x scores,
      )

  has-score_term :
      (k : Text) (o : Option (Assoc Text Posting)) (scores : Assoc Text F)
      → has dec_text k (score_term fl cfg s o scores)
        ≡ (if is_some (get dec_text k (or_new o)) then true else has dec_text k scores)
  unfolding get
  has-score_term k none scores = refl
  has-score_term k (some pm) scores =
      has-score_postings k (idf_of fl cfg (length s.docs) (length pm)) pm scores

  -- whether a document has one of the terms
  abbrev pub has_term : Text → List Text → Bool
  has_term k ts = any (λ t. is_some (posting_of t k s.postings)) ts

  has-score_terms :
      (k : Text) (ts : List Text) (scores : Assoc Text F)
      → has dec_text k (score_terms fl cfg s ts scores)
        ≡ (if has_term k ts then true else has dec_text k scores)
  unfolding score_terms
  has-score_terms k [] scores = refl
  has-score_terms k (t ∷ ts) scores = ground (
    arith,
    has-score_terms k ts (score_term fl cfg s (get dec_text t s.postings) scores),
    has-score_term k (get dec_text t s.postings) scores,
  )

  Distinct-score_postings :
      (idf : F) (pm : Assoc Text Posting) (scores : Assoc Text F)
      → Distinct dec_text scores
      → Distinct dec_text (score_postings fl cfg s idf pm scores)
  unfolding score_postings
  Distinct-score_postings idf [] scores h = h
  Distinct-score_postings idf ((key, p) ∷ pm) scores h =
      let x =
        fl.plus (score_so_far fl cfg (get dec_text key scores))
          (posting_score fl cfg s idf (meta_of (get dec_text key s.docs)) p) in
      Distinct-score_postings idf pm (put dec_text key x scores)
        (Distinct-put dec_text key x scores h)

  Distinct-score_term :
      (o : Option (Assoc Text Posting)) (scores : Assoc Text F)
      → Distinct dec_text scores
      → Distinct dec_text (score_term fl cfg s o scores)
  Distinct-score_term none scores h = h
  Distinct-score_term (some pm) scores h =
      Distinct-score_postings (idf_of fl cfg (length s.docs) (length pm)) pm scores h

  Distinct-score_terms :
      (ts : List Text) (scores : Assoc Text F)
      → Distinct dec_text scores
      → Distinct dec_text (score_terms fl cfg s ts scores)
  unfolding score_terms
  Distinct-score_terms [] scores h = h
  Distinct-score_terms (t ∷ ts) scores h =
      Distinct-score_terms ts (score_term fl cfg s (get dec_text t s.postings) scores)
        (Distinct-score_term (get dec_text t s.postings) scores h)

  up_to-take : (n : ℕ) (l : List (Text × F)) → up_to fl cfg (pos (suc n)) l ≡ take (suc n) l
  up_to-take n l = elim (Bool-cases (ltb (suc n) (length l))) [
    | inl e ↦ rw e refl
    | inr e ↦ rw e (sym (take_of_length-le (suc n) l (ground arith)))
  ]

  -- What a search for a query that is not empty, with a positive limit, returns, where the order of the scores
  -- is total and transitive: there are scored documents, each once, which are exactly the documents that have
  -- a term of the query; the hits are the first of these with the highest score in front, as many as the
  -- limit allows.
  pub search_lem :
      (query : Text) (n : ℕ)
      → ((a b : F) → not (fl.less a b) ≡ false → not (fl.less b a) ≡ true)
      → ((a b c : F)
          → not (fl.less a b) ≡ true
          → not (fl.less b c) ≡ true
          → not (fl.less a c) ≡ true)
      → is_empty query ≡ false
      → (scored : List (Text × F)) × Distinct dec_text scored
        × ((k : Text) → has dec_text k scored ≡ has_term k (tokenize fl cfg query))
        × (ranking : List (Text × F)) × Perm ranking scored
        × IsSorted (λ a b. not (fl.less a.1 b.1)) ranking
        × (search fl cfg s query (pos (suc n)) ≡ map (hit_at fl cfg s) (take (suc n) ranking))
        × (length (search fl cfg s query (pos (suc n))) ≡ min (suc n) (length scored))
  unfolding search get
  search_lem query n total trans e =
      let scored = score_terms fl cfg s (tokenize fl cfg query) [] in
      let ranking = ranked fl cfg scored in
      let hits : search fl cfg s query (pos (suc n))
          ≡ map (hit_at fl cfg s) (take (suc n) ranking) =
        rw e (ap (map (hit_at fl cfg s)) (up_to-take n ranking)) in
      (
        scored,
        Distinct-score_terms (tokenize fl cfg query) [] tt,
        λ k. ground (arith, has-score_terms k (tokenize fl cfg query) []),
        ranking,
        sort-perm (λ a b. not (fl.less a.1 b.1)) scored,
        sort-IsSorted (λ a b. not (fl.less a.1 b.1)) (λ a b. total a.1 b.1)
            (λ a b c. trans a.1 b.1 c.1) scored,
        hits,
        ap length hits
            ∙ length-map (hit_at fl cfg s) (take (suc n) ranking)
            ∙ length-take (suc n) ranking
            ∙ ap (min (suc n)) (length-sort (λ a b. not (fl.less a.1 b.1)) scored),
      )
