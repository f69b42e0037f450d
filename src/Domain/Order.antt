-- ===== src/Domain/Order.antt =====
-- core/domain/filter.go: `SortSummaries`.
use Prim.Native.Nat.{compare, Ordering}
use mathlib.Core.List.{Perm}
use para_mcp.Prelude.{Bool, true, false, List, arith, if◌then◌else◌}
use para_mcp.Prelude.Text.{compare_text}
use para_mcp.Prelude.Compare.{
  swap, at_most, or_else, IsCompare, IsCompare-swap, IsCompare-or_else, IsCompare-on,
  compare-IsCompare, compare_text-IsCompare,
}
use para_mcp.Prelude.Sort.{sort, sort-perm, IsSorted, sort-IsSorted}
use para_mcp.Domain.Entities.{NoteSummary, SortField, by_title}

-- `summaryComparators`, with the fallback for a field that is not registered
unfoldable pub compare_by : SortField → NoteSummary → NoteSummary → Ordering
compare_by by_title a b = compare_text a.title b.title
compare_by _ a b = compare a.updated_at b.updated_at

-- the comparator that `SortSummaries` hands to `slices.SortFunc`
unfoldable pub compare_notes : SortField → Bool → NoteSummary → NoteSummary → Ordering
unfolding compare_by
compare_notes field desc a b =
    let n = compare_by field a b in
    or_else (if desc then swap n else n) (compare_text a.ref.path b.ref.path)

abbrev pub in_order : SortField → Bool → NoteSummary → NoteSummary → Bool
in_order field desc a b = at_most (compare_notes field desc a b)

-- `SortSummaries`
unfoldable pub sort_summaries : List NoteSummary → SortField → Bool → List NoteSummary
sort_summaries notes field desc = sort (in_order field desc) notes

compare_by-IsCompare : (field : SortField) → IsCompare (compare_by field)
unfolding compare_by
compare_by-IsCompare by_title = IsCompare-on (λ (n : NoteSummary). n.title) _ compare_text-IsCompare
compare_by-IsCompare _ = IsCompare-on (λ (n : NoteSummary). n.updated_at) _ compare-IsCompare

directed : (field : SortField) (desc : Bool) → NoteSummary → NoteSummary → Ordering
directed field desc a b = if desc then swap (compare_by field a b) else compare_by field a b

directed-IsCompare : (field : SortField) (desc : Bool) → IsCompare (directed field desc)
unfolding directed
directed-IsCompare field true = IsCompare-swap (compare_by field) (compare_by-IsCompare field)
directed-IsCompare field false = compare_by-IsCompare field

-- The comparator is a total preorder, for every field and direction.
pub compare_notes-IsCompare :
    (field : SortField) (desc : Bool) → IsCompare (compare_notes field desc)
unfolding compare_notes directed
compare_notes-IsCompare field desc =
    IsCompare-or_else (directed field desc) (λ a b. compare_text a.ref.path b.ref.path)
      (directed-IsCompare field desc)
      (IsCompare-on (λ (n : NoteSummary). n.ref.path) _ compare_text-IsCompare)

-- `SortSummaries` reorders the notes, and no note stands before one that the comparator puts first.
pub sort_summaries_lem :
    (notes : List NoteSummary) (field : SortField) (desc : Bool)
    → IsSorted (in_order field desc) (sort_summaries notes field desc)
      × Perm (sort_summaries notes field desc) notes
unfolding sort_summaries
sort_summaries_lem notes field desc = (
  sort-IsSorted (in_order field desc) (λ a b e. ground (arith, c.flip a b)) c.trans notes,
  sort-perm (in_order field desc) notes,
)
  where
    c : IsCompare (compare_notes field desc)
    c = compare_notes-IsCompare field desc
