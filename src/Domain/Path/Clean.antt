-- ===== src/Domain/Path/Clean.antt =====
-- `filepath.Clean` on slash-separated paths, segment by segment.
use mathlib.Core.List.{reverse}
use para_mcp.Prelude.{
  ◌≡◌, ◌≢◌, Bool, true, false, List, [], ◌∷◌, ◌++◌, if◌then◌else◌, ◌==◌, is_some,
}
use para_mcp.Prelude.Text.{Text, codes, same, cut_prefix, has_rune}

abbrev pub dot : Text
dot = codes "."

abbrev pub dotdot : Text
dotdot = codes ".."

-- `strings.Split(path, "/")`: the first segment, and those after it
unfoldable pub split : Text → Text × List Text
split [] = ([], [])
split (c ∷ s) =
    let rest = split s in if c == b'/' then ([], rest.0 ∷ rest.1) else (c ∷ rest.0, rest.1)

unfoldable pub join_rest : List Text → Text
join_rest [] = []
join_rest (t ∷ ts) = b'/' ∷ (t ++ join_rest ts)

-- `strings.Join(segments, "/")`
unfoldable pub join : List Text → Text
unfolding join_rest
join [] = []
join (s ∷ ss) = s ++ join_rest ss

-- a `..` drops the segment before it; above the start of a relative path it stays
unfoldable pub back : Bool → List Text → List Text
back rooted [] = if rooted then [] else dotdot ∷ []
back rooted (t ∷ out) = if same t dotdot then dotdot ∷ t ∷ out else out

-- one segment onto the segments kept so far, the last first
unfoldable pub push : Bool → List Text → Text → List Text
unfolding back
push rooted out s =
    if same s []
    then out
    else if same s dot
    then out
    else if same s dotdot
    then back rooted out
    else s ∷ out

unfoldable pub walk : Bool → List Text → List Text → List Text
unfolding push
walk rooted out [] = out
walk rooted out (s ∷ ss) = walk rooted (push rooted out s) ss

abbrev pub written : Bool → List Text → Text
written true out = b'/' ∷ join (reverse out)
written false [] = dot
written false (s ∷ out) = join (reverse (s ∷ out))

-- `filepath.Clean`
unfoldable pub clean : Text → Text
unfolding walk split join
clean path =
    let rooted = is_some (cut_prefix (codes "/") path) in
    let segs = split path in written rooted (walk rooted [] (segs.0 ∷ segs.1))

-- A segment that names an entry of a directory.
pub record IsName (s : Text) : Type 0 where
  pub not_empty : s ≢ []
  pub not_dot : s ≢ dot
  pub not_dotdot : s ≢ dotdot
  pub no_slash : has_rune b'/' s ≡ false
