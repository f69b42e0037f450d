-- ===== src/Storage/Notes.antt =====
-- infrastructure/storage/noteutil/noteutil.go and core/domain/etag.go: the file form of a note.
pub mod RoundTrip
use para_mcp.Prelude.{
  ℕ, Bool, true, false, not, ◌||◌, Option, none, some, List, [], ◌∷◌, ◌++◌, ◌==◌, keep,
  if◌then◌else◌,
}
use para_mcp.Prelude.Text.{Text, Unicode, codes, same, cut_prefix, compare_text, to_lower}
use para_mcp.Prelude.Sort.{sort}
use para_mcp.Prelude.Compare.{at_most}
use para_mcp.Domain.Results.{Result, ok, err, Error, other}
use para_mcp.Domain.Entities.{FrontMatter}

-- gopkg.in/yaml.v3 and BLAKE3, of which the program uses these. `encode` gives the entries of the mapping
-- node, `print` the text of such entries, `digest` the first eight bytes of the hash in hexadecimal.
pub record Codec (N : Type 0) : Type 0 where
  pub marshal : FrontMatter → Option Text
  pub unmarshal : Text → Option FrontMatter
  pub encode : FrontMatter → List (Text × N)
  pub print : List (Text × N) → Text
  pub digest : Text → Text

abbrev pub delimiter : Text
delimiter = codes "---"

abbrev pub newline : ℕ
newline = 10

abbrev pub zero_front_matter : FrontMatter
zero_front_matter = record {
  title = [];
  tags = [];
  status = [];
  area = [];
  project = [];
  created_at = 0;
  updated_at = 0;
  extra = none;
}

-- `strings.Index` with the two slices that it is used for: what stands before the first `p`, and behind it
abbrev pub behind : ℕ → Option (Text × Text) → Option (Text × Text)
behind c none = none
behind c (some (a, b)) = some (c ∷ a, b)

abbrev pub or_found : Option Text → Option (Text × Text) → Option (Text × Text)
or_found (some rest) later = some ([], rest)
or_found none later = later

unfoldable pub cut_text : Text → Text → Option (Text × Text)
cut_text p [] = or_found (cut_prefix p []) none
cut_text p (c ∷ s) = or_found (cut_prefix p (c ∷ s)) (behind c (cut_text p s))

abbrev pub or_else_prefix : Option Text → Option Text → Option Text
or_else_prefix (some r) later = some r
or_else_prefix none later = later

-- the text behind the opening line
abbrev pub opened : Text → Option Text
opened s =
    or_else_prefix (cut_prefix (delimiter ++ newline ∷ []) s)
      (cut_prefix (delimiter ++ 13 ∷ newline ∷ []) s)

-- `strings.TrimLeft(body, "\r\n")`
unfoldable pub trim_newlines : Text → Text
trim_newlines [] = []
trim_newlines (c ∷ s) =
    let rest = trim_newlines s in if c == newline || c == 13 then rest else c ∷ s

abbrev pub yaml_error : Error
yaml_error = other (codes "yaml")

module _ {N : Type 0} (c : Codec N) where
  abbrev pub decoded : Option FrontMatter → Text → Result (FrontMatter × Text)
  decoded none body = err yaml_error
  decoded (some fm) body = ok (fm, trim_newlines body)

  -- a note without a closing line has no front matter: all of it is the body
  abbrev pub parse_opened : Text → Option (Text × Text) → Result (FrontMatter × Text)
  parse_opened s none = ok (zero_front_matter, s)
  parse_opened s (some (yaml, body)) = decoded (c.unmarshal yaml) body

  abbrev pub parse_from : Text → Option Text → Result (FrontMatter × Text)
  parse_from s none = ok (zero_front_matter, s)
  parse_from s (some rest) = parse_opened s (cut_text (newline ∷ delimiter) rest)

  -- `ParseNote`
  unfoldable pub parse_note : Text → Result (FrontMatter × Text)
  parse_note s = parse_from s (opened s)

  -- the file around the front matter's text
  unfoldable pub note_text : Text → Text → Text
  note_text yaml body =
      delimiter
      ++ (newline
          ∷ (yaml ++ (delimiter ++ (newline ∷ (if same body [] then [] else newline ∷ body)))))

  abbrev pub with_text : Option Text → Text → Result Text
  with_text none body = err yaml_error
  with_text (some yaml) body = ok (note_text yaml body)

  -- `FormatNote`
  unfoldable pub format_note : FrontMatter → Text → Result Text
  format_note fm body = with_text (c.marshal fm) body

  -- `removeMappingKey`
  unfoldable pub remove_mapping_key : Text → List (Text × N) → List (Text × N)
  remove_mapping_key key entries = keep (λ e. not (same e.0 key)) entries

  -- `sortMappingKeys`
  unfoldable pub sort_mapping_keys : List (Text × N) → List (Text × N)
  sort_mapping_keys entries = sort (λ a b. at_most (compare_text a.0 b.0)) entries

  -- `CanonicalFrontMatterYAML`
  unfoldable pub canonical_yaml : FrontMatter → Text
  canonical_yaml fm =
      c.print (sort_mapping_keys (remove_mapping_key (codes "derived") (c.encode fm)))

  -- `ComputeETag`
  unfoldable pub compute_etag : Text → Text → Text
  compute_etag canonical body =
      b'"' ∷ c.digest (canonical ++ newline ∷ delimiter ++ newline ∷ body) ++ b'"' ∷ []

-- `IndexKey`
unfoldable pub index_key : Unicode → Text → Bool → Text
index_key u path case_sensitive = if case_sensitive then path else to_lower u path

-- `strings.HasSuffix`
unfoldable pub has_suffix : Text → Text → Bool
has_suffix p [] = same [] p
has_suffix p (c ∷ s) = let rest = has_suffix p s in if same (c ∷ s) p then true else rest

-- `IsMDFile`
unfoldable pub is_md_file : Unicode → Text → Bool
is_md_file u path =
    let lower = to_lower u path in
    has_suffix (codes ".md") lower || has_suffix (codes ".markdown") lower
