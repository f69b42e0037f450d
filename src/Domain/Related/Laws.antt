-- ===== src/Domain/Related/Laws.antt =====
-- What the ranking of related notes returns.
use para_mcp.Prelude.{
  ◌≤◌, ◌<◌, ◌≡◌, ◌≢◌, refl, List, [], ◌∷◌, ltb, arith, length, take, All, All-take, if◌then◌else◌,
  ℕ, zero, suc, min, length-take, inl, inr, Bool-cases, is, ◌&&◌,
}
use para_mcp.Prelude.Int.{ℤ, pos, negsuc}
use para_mcp.Prelude.Text.{Text, Unicode, dec_text}
use para_mcp.Prelude.Sort.{sort, All-sort, IsSorted, sort-IsSorted, length-sort}
use para_mcp.Domain.Entities.{Note, NoteSummary, RankedNote}
use para_mcp.Domain.Related.{scored, score_relatedness, best_first, trim, rank_related}

pub record IsRelated (u : Unicode) (target : Note) (exclude : Text) (r : RankedNote) : Type 0 where
  pub positive : 0 < r.score
  pub scored_by : r.score ≡ score_relatedness u target r.summary
  pub elsewhere : r.summary.ref.path ≢ exclude

scored-IsRelated :
    (u : Unicode) (target : Note) (exclude : Text) (cs : List NoteSummary)
    → All (IsRelated u target exclude) (scored u target exclude cs)
unfolding scored
scored-IsRelated u target exclude [] = tt
scored-IsRelated u target exclude (c ∷ cs) =
    let rest = scored-IsRelated u target exclude cs in
    elim (dec_text c.ref.path exclude)
      as (λ d. All (IsRelated u target exclude) (
        if is d
        then scored u target exclude cs
        else if ltb 0 (score_relatedness u target c)
        then record { summary = c; score = score_relatedness u target c; body = [] }
          ∷ scored u target exclude cs
        else scored u target exclude cs)) [
          | yes p ↦ rest
          | no p ↦ elim (Bool-cases (ltb 0 (score_relatedness u target c))) [
            | inl e ↦
                rw e (record { positive = ground arith; scored_by = refl; elsewhere = p }, rest)
            | inr e ↦ rw e rest
          ]
        ]

take-IsSorted :
    (n : ℕ) (l : List RankedNote) → IsSorted best_first l → IsSorted best_first (take n l)
take-IsSorted zero l h = tt
take-IsSorted (suc n) [] h = tt
take-IsSorted (suc n) (x ∷ l) h = (All-take _ n l h.0, take-IsSorted n l h.1)

trim-cases :
    (limit : ℤ) (l : List RankedNote) (P : List RankedNote → Type 0)
    → P l
    → ((n : ℕ) → P (take n l))
    → P (trim limit l)
unfolding trim
trim-cases (negsuc n) l P h k = h
trim-cases (pos n) l P h k = elim (Bool-cases (ltb 0 n && ltb n (length l))) [
  | inl e ↦ rw e (k n)
  | inr e ↦ rw e h
]

-- the most that a limit leaves of so many
abbrev pub capped : ℤ → ℕ → ℕ
capped (negsuc n) m = m
capped (pos zero) m = m
capped (pos (suc n)) m = min (suc n) m

within :
    {A : Type 0} (limit : ℤ) (l : List A) (m : ℕ)
    → length l ≤ m
    → length (trim limit l) ≤ capped limit m
unfolding trim
within (negsuc n) l m h = h
within (pos zero) l m h = ground arith
within (pos (suc n)) l m h = ground (arith, length-take (suc n) l)

length-scored-le :
    (u : Unicode) (target : Note) (exclude : Text) (cs : List NoteSummary)
    → length (scored u target exclude cs) ≤ length cs
unfolding scored
length-scored-le u target exclude [] = omega arith
length-scored-le u target exclude (c ∷ cs) = ground (arith, length-scored-le u target exclude cs)

-- Related notes have a positive score, which is the relatedness of the note; none of them is the
-- excluded path; a better score never stands behind a worse; and there are no more of them than
-- candidates, nor than a positive limit.
pub rank_related_lem :
    (u : Unicode) (target : Note) (cs : List NoteSummary) (exclude : Text) (limit : ℤ)
    → All (IsRelated u target exclude) (rank_related u target cs exclude limit)
      × IsSorted best_first (rank_related u target cs exclude limit)
      × (length (rank_related u target cs exclude limit) ≤ capped limit (length cs))
unfolding rank_related
rank_related_lem u target cs exclude limit = (
  trim-cases limit ranked (All (IsRelated u target exclude)) related
      (λ n. All-take (IsRelated u target exclude) n ranked related),
  trim-cases limit ranked (IsSorted best_first) in_order (λ n. take-IsSorted n ranked in_order),
  within limit ranked (length cs) (
      omega (
        arith,
        length-sort best_first (scored u target exclude cs),
        length-scored-le u target exclude cs,
      )),
)
  where
    ranked : List RankedNote
    ranked = sort best_first (scored u target exclude cs)

    related : All (IsRelated u target exclude) ranked
    related =
        All-sort best_first (IsRelated u target exclude) _ (scored-IsRelated u target exclude cs)

    in_order : IsSorted best_first ranked
    in_order =
        sort-IsSorted best_first (λ a b h. ground arith) (λ a b c h k. ground arith)
          (scored u target exclude cs)
