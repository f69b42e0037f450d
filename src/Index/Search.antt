-- ===== src/Index/Search.antt =====
-- index.go: `Search`. Maps are iterated in the order of their lists.
use para_mcp.Prelude.{
  ℕ, zero, suc, Bool, not, ◌&&◌, Option, none, some, List, [], ◌∷◌, ltb, length, map, take,
  if◌then◌else◌,
}
use para_mcp.Prelude.Int.{ℤ, pos, negsuc}
use para_mcp.Prelude.Assoc.{Assoc, get, put}
use para_mcp.Prelude.Sort.{sort}
use para_mcp.Prelude.Text.{Text, dec_text}
use para_mcp.Domain.Entities.{NoteRef, Time}
use para_mcp.Domain.Filter.{is_empty}
use para_mcp.Index.{Floats, Config, Posting, DocMeta, Snapshot, tokenize}

-- `ports.SearchResult`, with its float64
pub record Hit (F : Type 0) : Type 0 where
  pub ref : NoteRef
  pub score : F
  pub updated_at : Time

-- the zero value, which a missing key reads
abbrev pub no_doc : DocMeta
no_doc = record {
  ref = record { scope = []; path = [] };
  body_len = 0;
  title_len = 0;
  updated_at = 0;
}

abbrev pub meta_of : Option DocMeta → DocMeta
meta_of none = no_doc
meta_of (some m) = m

module _ {F : Type 0} (fl : Floats F) (cfg : Config F) where
  -- the score of one field, of a frequency and a length
  unfoldable pub field_score : F → ℕ → ℕ → F → F
  field_score idf tf len avg =
      let one = fl.of_ℕ 1 in
      let norm =
        fl.plus (fl.minus one fl.bm25_b) (fl.over (fl.times fl.bm25_b (fl.of_ℕ len)) avg) in
      fl.over (fl.times idf (fl.times (fl.of_ℕ tf) (fl.plus fl.bm25_k1 one)))
        (fl.plus (fl.of_ℕ tf) (fl.times fl.bm25_k1 norm))

  abbrev pub is_positive : F → Bool
  is_positive x = fl.less (fl.of_ℕ 0) x

  -- what one posting adds to the score of its document
  unfoldable pub posting_score : Snapshot F → F → DocMeta → Posting → F
  unfolding field_score
  posting_score s idf m p =
      let nil = fl.of_ℕ 0 in
      fl.plus
        (if is_positive s.avg_body then field_score idf p.body_tf m.body_len s.avg_body else nil)
        (if is_positive s.avg_title && ltb 0 p.title_tf
          then fl.times (field_score idf p.title_tf m.title_len s.avg_title) cfg.title_boost
          else nil)

  abbrev pub score_so_far : Option F → F
  score_so_far none = fl.of_ℕ 0
  score_so_far (some x) = x

  -- the loop over the postings of a term
  unfoldable pub score_postings : Snapshot F → F → Assoc Text Posting → Assoc Text F → Assoc Text F
  unfolding posting_score
  score_postings s idf [] scores = scores
  score_postings s idf ((key, p) ∷ pm) scores = score_postings s idf pm (
      put dec_text key
        (fl.plus (score_so_far (get dec_text key scores))
          (posting_score s idf (meta_of (get dec_text key s.docs)) p))
        scores)

  -- the inverse document frequency of a term that `df` documents have
  unfoldable pub idf_of : ℕ → ℕ → F
  idf_of n df = fl.ln (
      fl.plus (fl.of_ℕ 1) (
        fl.over (fl.plus (fl.minus (fl.of_ℕ n) (fl.of_ℕ df)) fl.half)
          (fl.plus (fl.of_ℕ df) fl.half)))

  abbrev pub score_term : Snapshot F → Option (Assoc Text Posting) → Assoc Text F → Assoc Text F
  score_term s none scores = scores
  score_term s (some pm) scores = score_postings s (idf_of (length s.docs) (length pm)) pm scores

  -- the loop over the terms
  unfoldable pub score_terms : Snapshot F → List Text → Assoc Text F → Assoc Text F
  unfolding score_postings idf_of
  score_terms s [] scores = scores
  score_terms s (t ∷ ts) scores = score_terms s ts (score_term s (get dec_text t s.postings) scores)

  abbrev pub ranked : Assoc Text F → List (Text × F)
  ranked scores = sort (λ a b. not (fl.less a.1 b.1)) scores

  -- a limit that is positive cuts the list
  abbrev pub up_to : ℤ → List (Text × F) → List (Text × F)
  up_to (negsuc n) l = l
  up_to (pos zero) l = l
  up_to (pos (suc n)) l = if ltb (suc n) (length l) then take (suc n) l else l

  abbrev pub hit_at : Snapshot F → Text × F → Hit F
  hit_at s e =
      let m = meta_of (get dec_text e.0 s.docs) in
      record { ref = m.ref; score = e.1; updated_at = m.updated_at }

  -- `Search`
  unfoldable pub search : Snapshot F → Text → ℤ → List (Hit F)
  unfolding score_terms tokenize
  search s query limit =
      if is_empty query
      then []
      else map (hit_at s) (up_to limit (ranked (score_terms s (tokenize fl cfg query) [])))
