-- ===== src/Domain/Patch.antt =====
-- core/domain/patch.go and noteid.go: partial updates of the front matter, and the note's identity.
pub mod Laws
use para_mcp.Prelude.{◌≡◌, Bool, true, false, Option, none, some, List, [], ◌∷◌, if◌then◌else◌}
use para_mcp.Prelude.Text.{Text, Unicode, codes, same}
use para_mcp.Domain.Value.{
  Value, string, strings, slice, object, other, Values, nil, cons, Fields, end, field, get_field,
  put_field,
}
use para_mcp.Domain.Entities.{FrontMatter}
use para_mcp.Domain.Tags.{normalize_tags, normalize_status}

-- the strings among the elements of a `[]any`
unfoldable pub string_elements : Values → List Text
string_elements nil = []
string_elements (cons (string s) vs) = s ∷ string_elements vs
string_elements (cons _ vs) = string_elements vs

-- the entries of `frontMatterSetters`: a value of another type changes nothing
unfoldable pub set_title : FrontMatter → Value → FrontMatter
set_title fm (string s) = record fm { title = s }
set_title fm _ = fm

unfoldable pub set_status : Unicode → FrontMatter → Value → FrontMatter
set_status u fm (string s) = record fm { status = normalize_status u s }
set_status u fm _ = fm

unfoldable pub set_area : FrontMatter → Value → FrontMatter
set_area fm (string s) = record fm { area = s }
set_area fm _ = fm

unfoldable pub set_project : FrontMatter → Value → FrontMatter
set_project fm (string s) = record fm { project = s }
set_project fm _ = fm

unfoldable pub set_tags : Unicode → FrontMatter → Value → FrontMatter
unfolding string_elements
set_tags u fm (strings ts) = record fm { tags = normalize_tags u ts }
set_tags u fm (slice vs) = record fm { tags = normalize_tags u (string_elements vs) }
set_tags u fm _ = fm

-- the keys that have a setter
pub data Setter : Type 0 where
  title status area project tags extra : Setter

unfoldable pub setter_of : Text → Setter
setter_of k =
    if same k (codes "title")
    then title
    else if same k (codes "status")
    then status
    else if same k (codes "area")
    then area
    else if same k (codes "project")
    then project
    else if same k (codes "tags")
    then tags
    else extra

-- the entries of a map that may be nil
abbrev pub entries_of : Option Fields → Fields
entries_of none = end
entries_of (some fs) = fs

unfoldable pub apply_setter : Unicode → Setter → Text → Value → FrontMatter → FrontMatter
unfolding set_title set_status set_area set_project set_tags
apply_setter u title k v fm = set_title fm v
apply_setter u status k v fm = set_status u fm v
apply_setter u area k v fm = set_area fm v
apply_setter u project k v fm = set_project fm v
apply_setter u tags k v fm = set_tags u fm v
apply_setter u extra k v fm = record fm { extra = some (put_field k v (entries_of fm.extra)) }

-- `ApplyFrontMatterPatch`, in the order in which the entries are listed
unfoldable pub apply_patch : Unicode → FrontMatter → Fields → FrontMatter
apply_patch u fm end = fm
apply_patch u fm (field k v fs) = apply_patch u (apply_setter u (setter_of k) k v fm) fs

abbrev pub derived_key : Text
derived_key = codes "derived"

abbrev pub note_id_key : Text
note_id_key = codes "note_id"

abbrev pub as_text : Option Value → Text
as_text (some (string s)) = s
as_text _ = []

-- `m[k].(map[string]any)`
abbrev pub as_object : Option Value → Option Fields
as_object (some (object fs)) = some fs
as_object _ = none

-- `GetNoteID`
unfoldable pub get_note_id : FrontMatter → Text
get_note_id fm = elim (as_object (get_field derived_key (entries_of fm.extra))) [
  | none ↦ []
  | some fs ↦ as_text (get_field note_id_key fs)
]

-- `SetNoteID`
unfoldable pub set_note_id : FrontMatter → Text → FrontMatter
set_note_id fm id =
    let m = entries_of fm.extra in
    let d = entries_of (as_object (get_field derived_key m)) in
    record fm {
      extra = some (put_field derived_key (object (put_field note_id_key (string id) d)) m);
    }
