-- ===== src/Domain/Path.antt =====
-- core/domain/path.go: the validation and the canonical forms of a vault-relative path.
pub mod Clean
pub mod Safety
use para_mcp.Prelude.{
  ◌≡◌, refl, Bool, true, false, not, ◌&&◌, ◌||◌, Option, none, some, List, [], ◌∷◌, ◌++◌,
  if◌then◌else◌,
}
use para_mcp.Prelude.Text.{
  Text, Unicode, ascii, codes, same, cut, cut_prefix, contains, has_rune, to_lower,
}
use para_mcp.Prelude.{is_some}
use para_mcp.Domain.Results.{Result, ok, err, Error, invalid_path}
use para_mcp.Domain.Path.Clean.{clean}

pub record NormalizedPath : Type 0 where
  pub storage : Text
  pub index_key : Text

abbrev pub roots : List Text
roots =
    codes "projects" ∷ codes "areas" ∷ codes "resources" ∷ codes "archives" ∷ codes ".trash" ∷ []

-- the test for a path above the vault's root
abbrev pub traverses : Text → Bool
traverses cleaned = same cleaned (codes "..") || is_some (cut_prefix (codes "../") cleaned)

-- the part after the validation of the raw path; `cleaned` is the slash form of the clean path
unfoldable pub canonical : Unicode → Bool → Text → Result NormalizedPath
canonical u case_sensitive cleaned =
    if traverses cleaned
    then err invalid_path
    else if contains (to_lower u (cut b'/' cleaned).0) roots
    then ok (record {
      storage = cleaned;
      index_key = if case_sensitive then cleaned else to_lower u cleaned;
    })
    else err invalid_path

-- `Normalize`. `nfc` is `norm.NFC.String` of golang.org/x/text. Path separators are slashes.
unfoldable pub normalize : Unicode → (Text → Text) → Text → Bool → Result NormalizedPath
unfolding canonical
normalize u nfc path case_sensitive =
    if has_rune 0 path
    then err invalid_path
    else if has_rune 92 path
    then err invalid_path
    else if is_some (cut_prefix (codes "/") path)
    then err invalid_path
    else canonical u case_sensitive (clean (nfc path))

-- `ArchivePath`: the first segment is replaced by `archives`; `none` is the error.
unfoldable pub archive_path : Text → Option Text
archive_path path = elim (cut b'/' path).1 [
  | none ↦ none
  | some rest ↦ some (codes "archives/" ++ rest)
]
