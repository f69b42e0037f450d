-- ===== src/Tests/Domain.antt =====
-- The rules of the domain at concrete inputs.
use para_mcp.Prelude.{
  ℕ, ◌≤◌, ◌≡◌, ◌↔◌, refl, true, false, none, some, [], ◌∷◌, All, length, is_some, if◌then◌else◌,
  arith,
}
use para_mcp.Prelude.Int.{pos}
use para_mcp.Prelude.Sort.{IsSorted}
use para_mcp.Prelude.Text.{
  Text, ascii, codes, has_rune, cut_prefix, to_lower, cut, contains, dec_text,
}
use para_mcp.Domain.Value.{Fields, string, end, field}
use para_mcp.Domain.Results.{ok}
use para_mcp.Domain.Entities.{NoteSummary, summary, Filter}
use para_mcp.Domain.Path.{NormalizedPath, normalize, canonical}
use para_mcp.Domain.Path.Clean.{clean, split, walk, join, join_rest, push, back}
use para_mcp.Domain.Path.Safety.{IsPara, normalize-IsPara}
use para_mcp.Domain.Filter.{matches_filter}
use para_mcp.Domain.Filter.Laws.{IsAccepted, matches_filter_iff}
use para_mcp.Domain.Related.{rank_related, best_first}
use para_mcp.Domain.Related.Laws.{IsRelated, capped, rank_related_lem}
use para_mcp.Domain.Tags.{normalize_tag, trim_left, trim_right, trim_prefix, dashed}
use para_mcp.Tests.Fixtures.{nfc, note_at, mine, path_a, path_b, any_filter}

abbrev messy : Text
messy = codes "projects/./x/../a.md"

abbrev cleaned : NormalizedPath
cleaned = record { storage = path_a; index_key = path_a }

normalize-messy : normalize ascii nfc messy true ≡ ok cleaned
unfolding normalize canonical clean split walk join join_rest push back has_rune cut_prefix cut
    contains dec_text
normalize-messy = refl

normalize-IsPara_example :
    IsPara ascii path_a
    × (path_a ≡ (if true then path_a else to_lower ascii path_a))
    × (has_rune 0 messy ≡ false)
    × (has_rune 92 messy ≡ false)
    × (is_some (cut_prefix (codes "/") messy) ≡ false)
normalize-IsPara_example = normalize-IsPara ascii nfc messy true cleaned normalize-messy

abbrev note_a : NoteSummary
note_a = summary ascii (note_at mine path_a)

abbrev note_b : NoteSummary
note_b = summary ascii (note_at mine path_b)

abbrev open_go : Filter
open_go = record any_filter { status = codes "Open"; tags = codes "GO" ∷ [] }

matches_filter_iff_example :
    (matches_filter ascii note_a open_go ≡ true) ↔ IsAccepted ascii note_a open_go
matches_filter_iff_example = matches_filter_iff ascii note_a open_go

rank_related_example :
    All
      (IsRelated ascii (note_at mine path_a) path_a)
      (rank_related ascii (note_at mine path_a) (note_a ∷ note_b ∷ []) path_a (pos 1))
    × IsSorted best_first
        (rank_related ascii (note_at mine path_a) (note_a ∷ note_b ∷ []) path_a (pos 1))
    × (length (rank_related ascii (note_at mine path_a) (note_a ∷ note_b ∷ []) path_a (pos 1))
        ≤ capped (pos 1) 2)
rank_related_example =
    rank_related_lem ascii (note_at mine path_a) (note_a ∷ note_b ∷ []) path_a (pos 1)

abbrev changes : Fields
changes =
    field (codes "title") (string (codes "New")) (field (codes "due") (string (codes "May")) end)

lower_twice : (c : ℕ) → ascii.lower (ascii.lower c) ≡ ascii.lower c
lower_twice c = ground arith

go_lang : normalize_tag ascii (codes " #Go Lang ") ≡ some (codes "go-lang")
unfolding normalize_tag trim_left trim_right trim_prefix dashed cut_prefix dec_text
go_lang = refl

no_hash : cut_prefix (codes "#") (codes "go-lang") ≡ none
unfolding cut_prefix
no_hash = refl
