-- ===== src/Storage/Local/Queries/Pages.antt =====
-- localvault/queries.go: the pages of a query, one behind the other.
use para_mcp.Prelude.{
  ℕ, zero, suc, ◌+◌, ◌-◌, ◌≤◌, ◌<◌, ◌≡◌, refl, ap, sym, ◌∙◌, Bool, true, false, List, [], ◌∷◌, ◌++◌,
  leb, min, take, drop, length, length-take, take_of_length-le, if◌then◌else◌, arith, Bool-cases,
  inl, inr,
}
use para_mcp.Prelude.Int.{ℤ, pos, negsuc}
use para_mcp.Domain.Results.{ok, err}
use para_mcp.Domain.Entities.{NoteSummary, QueryRequest}
use para_mcp.Storage.Local.{Site, Local}
use para_mcp.Storage.Local.Queries.{page_limit, matching, page, query}

suc-add : (m n : ℕ) → suc (m + n) ≡ suc m + n
suc-add m n = omega arith

zero-add : (n : ℕ) → n ≡ 0 + n
zero-add n = omega arith

module _ {ℓ} {A : Type ℓ} where
  take-drop : (n : ℕ) (l : List A) → take n l ++ drop n l ≡ l
  take-drop zero l = refl
  take-drop (suc n) [] = refl
  take-drop (suc n) (x ∷ l) = ap (◌∷◌ x) (take-drop n l)

  drop-nil : (n : ℕ) → drop {A = A} n [] ≡ []
  drop-nil zero = refl
  drop-nil (suc n) = refl

  drop-drop : (n m : ℕ) (l : List A) → drop n (drop m l) ≡ drop (m + n) l
  drop-drop n zero l = ap (λ k. drop k l) (zero-add n)
  drop-drop n (suc m) [] = drop-nil n ∙ sym (drop-nil (suc m + n))
  drop-drop n (suc m) (x ∷ l) = drop-drop n m l ∙ ap (λ k. drop k (x ∷ l)) (suc-add m n)

  drop_of_length-le : (n : ℕ) (l : List A) → length l ≤ n → drop n l ≡ []
  drop_of_length-le zero [] h = refl
  drop_of_length-le zero (x ∷ l) h = absurd (omega arith)
  drop_of_length-le (suc n) [] h = refl
  drop_of_length-le (suc n) (x ∷ l) h = drop_of_length-le n l (omega arith)

  length-drop : (n : ℕ) (l : List A) → length (drop n l) ≡ length l - n
  length-drop zero l = omega arith
  length-drop (suc n) [] = omega arith
  length-drop (suc n) (x ∷ l) = omega (arith, length-drop n l)

page_limit-positive : (l : ℤ) → 1 ≤ page_limit l
unfolding page_limit
page_limit-positive (negsuc n) = omega arith
page_limit-positive (pos zero) = omega arith
page_limit-positive (pos (suc n)) = ground arith

-- A client that asks for page after page, each behind the notes it has, until there is no more.
module _ {N : Type 0} {X : Type 0} (e : Site N X) (w : Local X) (q : QueryRequest) where
  abbrev pub at_offset : ℕ → QueryRequest
  at_offset offset = record q { offset = pos offset }

  abbrev pub and_more : Bool → List NoteSummary → List NoteSummary → List NoteSummary
  and_more has_more notes later = if has_more then notes ++ later else notes

  unfoldable pub read_pages : ℕ → ℕ → List NoteSummary
  read_pages zero offset = []
  read_pages (suc turns) offset = elim (query e w (at_offset offset)) [
    | err x ↦ []
    | ok r ↦ and_more r.has_more r.notes (read_pages turns (offset + length r.notes))
  ]

  page-last :
      (l : List NoteSummary) (limit offset : ℕ)
      → length l ≤ offset + limit
      → (page e l limit offset).notes ≡ drop offset l × (page e l limit offset).has_more ≡ false
  unfolding page
  page-last l limit offset h = elim (Bool-cases (leb (length l) offset)) [
    | inl b ↦ rw b (sym (drop_of_length-le offset l (ground arith)), refl)
    | inr b ↦ rw b (
      take_of_length-le (min (offset + limit) (length l) - offset) (drop offset l)
          (omega (arith, length-drop offset l)),
      ground arith,
    )
  ]

  page-more :
      (l : List NoteSummary) (limit offset : ℕ)
      → offset + limit < length l
      → (page e l limit offset).notes ≡ take limit (drop offset l)
        × (page e l limit offset).has_more ≡ true
  unfolding page
  page-more l limit offset h =
      let b : leb (length l) offset ≡ false = ground arith in
      rw b (ap (λ n. take n (drop offset l)) (omega arith), ground arith)

  -- The pages from an offset on, where enough turns are left.
  read_pages-drop :
      (turns offset : ℕ)
      → length (matching e w q) < offset + turns
      → read_pages turns offset ≡ drop offset (matching e w q)
  unfolding read_pages query
  read_pages-drop zero offset h = sym (drop_of_length-le offset (matching e w q) (omega arith))
  read_pages-drop (suc turns) offset h =
      let l = matching e w q in
      let n = page_limit q.limit in
      elim (Bool-cases (leb (length l) (offset + n))) [
        | inl b ↦
            let (notes, more) = page-last l n offset (ground arith) in
            ap
              (λ m.
                and_more m (page e l n offset).notes
                  (read_pages turns (offset + length (page e l n offset).notes)))
              more
            ∙ notes
        | inr b ↦
            let (notes, more) = page-more l n offset (ground arith) in
            let read : length (take n (drop offset l)) ≡ n =
              ground (arith, length-take n (drop offset l), length-drop offset l) in
            ap
              (λ m.
                and_more m (page e l n offset).notes
                  (read_pages turns (offset + length (page e l n offset).notes)))
              more
            ∙ ap (λ r. r ++ read_pages turns (offset + length r)) notes
            ∙ ap (λ k. take n (drop offset l) ++ read_pages turns (offset + k)) read
            ∙ ap (◌++◌ (take n (drop offset l))) (
                read_pages-drop turns (offset + n) (omega (arith, page_limit-positive q.limit))
                ∙ sym (drop-drop n offset l))
            ∙ take-drop n (drop offset l)
      ]

  -- A client that follows the pages of a query reads every note that matches, in order and each once, and
  -- has read them all after at most one page more than there are notes. The limit may be any number.
  pub read_pages-matching : read_pages (suc (length (matching e w q))) 0 ≡ matching e w q
  read_pages-matching = read_pages-drop (suc (length (matching e w q))) 0 (omega arith)
