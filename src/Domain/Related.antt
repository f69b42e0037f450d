-- ===== src/Domain/Related.antt =====
-- core/domain/scoring.go: relatedness by shared tags, area and project.
pub mod Laws
use para_mcp.Prelude.{
  ℕ, ◌+◌, ◌≡◌, Bool, true, false, not, ◌&&◌, Option, none, some, List, [], ◌∷◌, ltb, leb, count,
  take, length, if◌then◌else◌,
}
use para_mcp.Prelude.Int.{ℤ, pos, negsuc}
use para_mcp.Prelude.Text.{Text, Unicode, same, equal_fold}
use para_mcp.Prelude.Sort.{sort}
use para_mcp.Domain.Entities.{Note, NoteSummary, RankedNote, Score}
use para_mcp.Domain.Filter.{is_empty}

-- the two loops over the tags: one point for each pair that agrees
unfoldable pub shared_tags : Unicode → List Text → List Text → ℕ
shared_tags u [] candidate = 0
shared_tags u (t ∷ ts) candidate =
    count (λ c. equal_fold u t c) candidate + shared_tags u ts candidate

-- `ScoreRelatedness`; the points are whole numbers, which a float64 holds exactly
unfoldable pub score_relatedness : Unicode → Note → NoteSummary → Score
unfolding shared_tags
score_relatedness u target candidate =
    let fm = target.front_matter in
    shared_tags u fm.tags candidate.tags
    + (if not (is_empty fm.area) && equal_fold u fm.area candidate.area then 2 else 0)
    + (if not (is_empty fm.project) && equal_fold u fm.project candidate.project then 2 else 0)

-- the loop of `RankRelated`
unfoldable pub scored : Unicode → Note → Text → List NoteSummary → List RankedNote
scored u target exclude [] = []
scored u target exclude (c ∷ cs) =
    let rest = scored u target exclude cs in
    let score = score_relatedness u target c in
    if same c.ref.path exclude
    then rest
    else if ltb 0 score
    then record { summary = c; score = score; body = [] } ∷ rest
    else rest

-- `cmp.Compare(b.Score, a.Score) <= 0`
abbrev pub best_first : RankedNote → RankedNote → Bool
best_first a b = leb b.score a.score

-- `limit > 0 && len(ranked) > limit`
unfoldable pub trim {ℓ} : {A : Type ℓ} → ℤ → List A → List A
trim (negsuc n) l = l
trim (pos n) l = if ltb 0 n && ltb n (length l) then take n l else l

-- `RankRelated`
unfoldable pub rank_related : Unicode → Note → List NoteSummary → Text → ℤ → List RankedNote
rank_related u target candidates exclude limit =
    trim limit (sort best_first (scored u target exclude candidates))
