-- ===== src/Domain/Tags.antt =====
-- core/domain/normalization.go: the canonical form of tags, states and scope names.
pub mod Laws
use para_mcp.Prelude.{
  ℕ, ◌≡◌, Bool, true, false, ◌&&◌, ◌||◌, Option, none, some, List, [], ◌∷◌, ◌++◌, ltb, leb, ◌==◌,
  if◌then◌else◌, length, all,
}
use para_mcp.Prelude.Text.{Text, Unicode, codes, same, cut_prefix, to_lower}

-- `strings.TrimLeft` of white space
unfoldable pub trim_left : Unicode → Text → Text
trim_left u [] = []
trim_left u (c ∷ s) = let rest = trim_left u s in if u.is_space c then rest else c ∷ s

-- the same at the other end: a space is dropped where nothing but spaces follow
unfoldable pub trim_right : Unicode → Text → Text
trim_right u [] = []
trim_right u (c ∷ s) = elim (trim_right u s) [
  | [] ↦ if u.is_space c then [] else c ∷ []
  | d ∷ r ↦ c ∷ d ∷ r
]

-- `strings.TrimSpace`
abbrev pub trim_space : Unicode → Text → Text
trim_space u s = trim_right u (trim_left u s)

-- `strings.TrimPrefix`
unfoldable pub trim_prefix : Text → Text → Text
trim_prefix p s = elim (cut_prefix p s) [ none ↦ s | some rest ↦ rest ]

-- `strings.Join(strings.FieldsFunc(s, unicode.IsSpace), "-")`: `open_field` says that a field is being
-- read, `joined` that one was written before.
unfoldable pub dashed : Unicode → Bool → Bool → Text → Text
dashed u open_field joined [] = []
dashed u open_field joined (c ∷ s) =
    let after_space = dashed u false joined s in
    let in_field = dashed u true true s in
    if u.is_space c
    then after_space
    else if open_field
    then c ∷ in_field
    else if joined
    then b'-' ∷ c ∷ in_field
    else c ∷ in_field

abbrev pub max_runes : ℕ
max_runes = 64

-- `NormalizeTag`; `none` is the error
unfoldable pub normalize_tag : Unicode → Text → Option Text
normalize_tag u s =
    let result = dashed u false false (to_lower u (trim_prefix (codes "#") (trim_space u s))) in
    if same result [] then none else if ltb max_runes (length result) then none else some result

-- `NormalizeTags`
unfoldable pub normalize_tags : Unicode → List Text → List Text
normalize_tags u [] = []
normalize_tags u (t ∷ ts) =
    let rest = normalize_tags u ts in elim (normalize_tag u t) [ none ↦ rest | some n ↦ n ∷ rest ]

-- `NormalizeStatus`
unfoldable pub normalize_status : Unicode → Text → Text
normalize_status u s = elim (normalize_tag u s) [ none ↦ s | some n ↦ n ]

abbrev pub is_slug_rune : ℕ → Bool
is_slug_rune r = leb b'a' r && leb r b'z' || (leb b'0' r && leb r b'9') || r == b'_' || r == b'-'

-- `NormalizeScopeID`; `none` is the error
unfoldable pub normalize_scope_id : Unicode → Text → Option Text
normalize_scope_id u s =
    let t = to_lower u (trim_space u s) in
    if same t []
    then none
    else if ltb max_runes (length t)
    then none
    else if all is_slug_rune t
    then some t
    else none
