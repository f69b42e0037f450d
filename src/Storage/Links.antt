-- ===== src/Storage/Links.antt =====
-- infrastructure/storage/noteutil/noteutil.go: wikilinks, and the keys under which a note is linked.
pub mod Laws
use para_mcp.Prelude.{
  ℕ, zero, suc, ◌-◌, ◌+◌, Bool, true, false, not, ◌&&◌, ◌||◌, Option, none, some, List, [], ◌∷◌,
  ◌++◌, ◌==◌, any, length, if◌then◌else◌,
}
use para_mcp.Prelude.Text.{Text, Unicode, codes, same, cut, cut_prefix, contains, to_lower}
use para_mcp.Domain.Filter.{is_empty}
use para_mcp.Domain.Tags.{trim_space}

pub record OutLink : Type 0 where
  pub target_key : Text
  pub is_asset : Bool

pub record BacklinkSrc : Type 0 where
  pub path : Text
  pub is_asset : Bool

-- A match of `(!?)\[\[([^\]|]+)`: whether the mark is there, and the second group.
pub record Match : Type 0 where
  pub mark : Bool
  pub target : Text

-- the longest run of `[^\]|]`
unfoldable pub target_run : Text → Text
target_run [] = []
target_run (c ∷ s) = let rest = target_run s in if c == b']' || c == b'|' then [] else c ∷ rest

abbrev pub with_target : Bool → Text → Option Match
with_target mark [] = none
with_target mark (c ∷ run) = some (record { mark = mark; target = c ∷ run })

abbrev pub unmarked : Option Text → Option Match
unmarked none = none
unmarked (some s) = with_target false (target_run s)

abbrev pub marked : Option Text → Option Match → Option Match
marked none otherwise = otherwise
marked (some s) otherwise = with_target true (target_run s)

-- the match that starts at the first code point
unfoldable pub match_here : Text → Option Match
unfolding target_run
match_here s = marked (cut_prefix (codes "![[") s) (unmarked (cut_prefix (codes "[[") s))

-- the code points of a match behind its first
abbrev pub match_rest : Match → ℕ
match_rest m = if m.mark then length m.target + 2 else length m.target + 1

-- `FindAllStringSubmatch`: the matches from left to right, without overlap. The number is how many code
-- points the last match still takes.
unfoldable pub find_links : ℕ → Text → List Match
unfolding match_here
find_links n [] = []
find_links (suc n) (c ∷ s) = find_links n s
find_links zero (c ∷ s) = elim (match_here (c ∷ s)) [
  | none ↦ find_links zero s
  | some m ↦ m ∷ find_links (match_rest m) s
]

module _ (u : Unicode) where
  -- the target without its heading
  unfoldable pub link_target : Text → Text
  link_target text = trim_space u (cut b'#' (trim_space u text)).0

  unfoldable pub link_key : Text → Text
  unfolding link_target
  link_key text = to_lower u (link_target text)

  -- an empty target, or a key that was seen
  unfoldable pub skipped : List Text → Match → Bool
  unfolding link_key link_target
  skipped seen m = is_empty (link_target m.target) || contains (link_key m.target) seen

  abbrev pub now_seen : Bool → Text → List Text → List Text
  now_seen skip key seen = if skip then seen else key ∷ seen

  unfoldable pub collect_links : List Text → List Match → List OutLink
  unfolding skipped link_key
  collect_links seen [] = []
  collect_links seen (m ∷ ms) =
      let rest = collect_links (now_seen (skipped seen m) (link_key m.target) seen) ms in
      if skipped seen m
      then rest
      else record { target_key = link_key m.target; is_asset = m.mark } ∷ rest

  -- `ParseLinks`
  unfoldable pub parse_links : Text → List OutLink
  unfolding collect_links find_links
  parse_links body = collect_links [] (find_links 0 body)

-- `strings.TrimSuffix`
unfoldable pub trim_suffix : Text → Text → Text
trim_suffix p [] = []
trim_suffix p (c ∷ s) = let rest = trim_suffix p s in if same (c ∷ s) p then [] else c ∷ rest

-- what stands behind the last `c`
unfoldable pub behind_last : ℕ → Text → Option Text
behind_last c [] = none
behind_last c (b ∷ s) = elim (behind_last c s) [
  | some t ↦ some t
  | none ↦ if b == c then some s else none
]

-- the path without the slashes at its end
unfoldable pub trim_slashes : Text → Text
trim_slashes [] = []
trim_slashes (c ∷ s) = elim (trim_slashes s) [
  | [] ↦ if c == b'/' then [] else c ∷ []
  | d ∷ r ↦ c ∷ d ∷ r
]

abbrev pub or_whole : Text → Option Text → Text
or_whole s none = s
or_whole s (some t) = t

-- `filepath.Base`
unfoldable pub base : Text → Text
unfolding behind_last trim_slashes
base [] = codes "."
base (c ∷ s) = elim (trim_slashes (c ∷ s)) [
  | [] ↦ codes "/"
  | d ∷ r ↦ or_whole (d ∷ r) (behind_last b'/' (d ∷ r))
]

-- `filepath.Ext` of a base name
unfoldable pub ext : Text → Text
unfolding behind_last
ext s = elim (behind_last b'.' s) [ none ↦ [] | some e ↦ b'.' ∷ e ]

-- a key is listed where it is not empty and not listed before
abbrev pub add_key : Text → List Text → List Text
add_key k keys = if contains k keys || is_empty k then keys else keys ++ k ∷ []

module _ (u : Unicode) where
  -- `LinkMatchKeys`: the base name and the whole path, each without the extension and with it
  unfoldable pub link_match_keys : Text → List Text
  unfolding base ext trim_suffix
  link_match_keys path =
      let b = base path in
      let e = ext b in
      add_key (to_lower u path) (
        add_key (to_lower u (trim_suffix e path))
          (add_key (to_lower u b) (add_key (to_lower u (trim_suffix e b)) [])))
