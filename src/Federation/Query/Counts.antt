-- ===== src/Federation/Query/Counts.antt =====
-- The counts of a merged page: notes by scope, their sum, and the offsets that they advance.
use para_mcp.Prelude.{
  ℕ, suc, ◌+◌, ◌≡◌, refl, ◌∙◌, Bool, List, [], ◌∷◌, arith, count, length, if◌then◌else◌,
}
use para_mcp.Prelude.Int.{ℤ, pos, ◌+ℤ◌}
use para_mcp.Prelude.Text.{same, dec_text, contains}
use para_mcp.Prelude.Assoc.{Assoc, get, put, remove, get-put, Distinct, Distinct-put, remove_absent}
use para_mcp.Domain.Entities.{ScopeId, NoteSummary}
use para_mcp.Federation.Scopes.{offset_of}
use para_mcp.Federation.Query.{count_at, tally, advance, total}

abbrev pub from_scope : ScopeId → NoteSummary → Bool
from_scope sc n = same n.ref.scope sc

count_at-put :
    (sc k : ScopeId) (n : ℕ) (m : Assoc ScopeId ℕ)
    → count_at sc (put dec_text k n m) ≡ (if same k sc then n else count_at sc m)
count_at-put sc k n m = ground (arith, get-put dec_text k sc n m)

-- What a scope counts is what the page has of it.
pub count_at-tally :
    (sc : ScopeId) (m : Assoc ScopeId ℕ) (notes : List NoteSummary)
    → count_at sc (tally m notes) ≡ count_at sc m + count (from_scope sc) notes
unfolding tally
count_at-tally sc m [] = omega arith
count_at-tally sc m (n ∷ ns) =
    count_at-tally sc (put dec_text n.ref.scope (count_at n.ref.scope m + 1) m) ns
    ∙ ground (arith, count_at-put sc n.ref.scope (count_at n.ref.scope m + 1) m)

total-remove :
    (k : ScopeId) (m : Assoc ScopeId ℕ)
    → Distinct dec_text m
    → total (remove dec_text k m) + count_at k m ≡ total m
unfolding total remove get
total-remove k [] d = omega arith
total-remove k (e ∷ m) d = ground (arith, total-remove k m d.1, remove_absent dec_text e.0 m d.0)

total-put :
    (k : ScopeId) (m : Assoc ScopeId ℕ)
    → Distinct dec_text m
    → total (put dec_text k (count_at k m + 1) m) ≡ suc (total m)
unfolding total put
total-put k m d = omega (arith, total-remove k m d)

-- The counts add up to the length of the page.
pub total-tally :
    (m : Assoc ScopeId ℕ) (notes : List NoteSummary)
    → Distinct dec_text m
    → total (tally m notes) ≡ total m + length notes
unfolding tally
total-tally m [] d = omega arith
total-tally m (n ∷ ns) d =
    let k = n.ref.scope in
    omega (
      arith,
      total-tally (put dec_text k (count_at k m + 1) m) ns
          (Distinct-put dec_text k (count_at k m + 1) m d),
      total-put k m d,
    )

offset_of-put :
    (sc k : ScopeId) (n : ℤ) (m : Assoc ScopeId ℤ)
    → offset_of sc (put dec_text k n m) ≡ (if same k sc then n else offset_of sc m)
unfolding offset_of
offset_of-put sc k n m = ground (arith, get-put dec_text k sc n m)

-- Each scope is advanced by its count; the others keep their offset.
pub offset_of-advance :
    (sc : ScopeId) (offsets : Assoc ScopeId ℤ) (per_scope : Assoc ScopeId ℕ) (scs : List ScopeId)
    (m : Assoc ScopeId ℤ)
    → offset_of sc (advance offsets per_scope scs m) ≡ (
        if contains sc scs
        then offset_of sc offsets +ℤ pos (count_at sc per_scope)
        else offset_of sc m)
unfolding advance contains
offset_of-advance sc offsets per_scope [] m = refl
offset_of-advance sc offsets per_scope (k ∷ scs) m =
    let n = offset_of k offsets +ℤ pos (count_at k per_scope) in
    ground (
      arith,
      offset_of-advance sc offsets per_scope scs (put dec_text k n m),
      offset_of-put sc k n m,
    )
