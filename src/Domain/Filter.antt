-- ===== src/Domain/Filter.antt =====
-- core/domain/filter.go: which notes a filter accepts.
pub mod Laws
use para_mcp.Prelude.{
  ◌<◌, ◌≡◌, Bool, true, false, not, ◌&&◌, ◌||◌, Option, none, some, List, [], ◌∷◌, ltb, keep, any,
  all, if◌then◌else◌,
}
use para_mcp.Prelude.Text.{Text, Unicode, same, contains, equal_fold}
use para_mcp.Domain.Entities.{Filter, NoteSummary, Time, archives}

abbrev pub is_empty {ℓ} : {A : Type ℓ} → List A → Bool
is_empty [] = true
is_empty (x ∷ xs) = false

-- `HasTag`
abbrev pub has_tag : Unicode → List Text → Text → Bool
has_tag u tags want = any (λ t. equal_fold u t want) tags

abbrev pub after : Time → Option Time → Bool
after t none = true
after t (some lo) = ltb lo t

abbrev pub before : Time → Option Time → Bool
before t none = true
before t (some hi) = ltb t hi

-- the guards on the category
unfoldable pub category_passes : NoteSummary → Filter → Bool
category_passes n f =
    let is_archive = same n.category archives in
    let requested = not (is_empty f.categories) && contains n.category f.categories in
    if is_archive && (not f.include_archives && not requested)
    then false
    else if not (is_empty f.categories) && (not requested && not (is_archive && f.include_archives))
    then false
    else true

-- `MatchesFilter`
unfoldable pub matches_filter : Unicode → NoteSummary → Filter → Bool
matches_filter u n f =
    if not (category_passes n f)
    then false
    else if not (is_empty f.status) && not (equal_fold u n.status f.status)
    then false
    else if not (is_empty f.area) && not (equal_fold u n.area f.area)
    then false
    else if not (is_empty f.project) && not (equal_fold u n.project f.project)
    then false
    else if not (all (has_tag u n.tags) f.tags)
    then false
    else if not (is_empty f.any_tags) && not (any (has_tag u n.tags) f.any_tags)
    then false
    else if not (after n.updated_at f.updated_after)
    then false
    else before n.updated_at f.updated_before

-- `ApplyFilter`
unfoldable pub apply_filter : Unicode → List NoteSummary → Filter → List NoteSummary
apply_filter u notes f = keep (λ n. matches_filter u n f) notes
