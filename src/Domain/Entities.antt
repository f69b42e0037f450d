-- ===== src/Domain/Entities.antt =====
-- core/domain/entities.go, vault.go, query_builder.go: the data that the parts exchange.
use para_mcp.Prelude.{ℕ, Bool, Option, none, some, List, [], ◌∷◌, ◌++◌, if◌then◌else◌}
use para_mcp.Prelude.Int.{ℤ}
use para_mcp.Prelude.Text.{Text, Unicode, codes, cut, contains, to_lower}
use para_mcp.Domain.Value.{Fields}

abbrev pub ScopeId : Type 0
ScopeId = Text

-- An instant, in nanoseconds since a fixed origin; a duration is a number of nanoseconds.
abbrev pub Time : Type 0
Time = ℕ

pub record NoteRef : Type 0 where
  pub scope : ScopeId
  pub path : Text

-- `NoteRef.String`
unfoldable pub ref_string : NoteRef → Text
ref_string r = r.scope ++ b':' ∷ r.path

abbrev pub Category : Type 0
Category = Text

abbrev pub projects : Category
projects = codes "projects"

abbrev pub areas : Category
areas = codes "areas"

abbrev pub resources : Category
resources = codes "resources"

abbrev pub archives : Category
archives = codes "archives"

abbrev pub known_categories : List Category
known_categories = projects ∷ areas ∷ resources ∷ archives ∷ []

-- `none` is the result `("", false)`.
unfoldable pub category_from_path : Unicode → Text → Option Category
category_from_path u p =
    let c = to_lower u (cut b'/' p).0 in if contains c known_categories then some c else none

pub record FrontMatter : Type 0 where
  pub title : Text
  pub tags : List Text
  pub status : Text
  pub area : Text
  pub project : Text
  pub created_at : Time
  pub updated_at : Time
  -- `none` is the nil map
  pub extra : Option Fields

pub record Note : Type 0 where
  pub ref : NoteRef
  pub front_matter : FrontMatter
  pub body : Text
  pub etag : Text

pub data IndexState : Type 0 where
  pending indexed failed skipped_short skipped_user_edited tombstoned : IndexState
  -- the empty string, and any other that a vault reports
  unknown : Text → IndexState

-- The model-written fields that the modelled code copies as a whole.
pub record DerivedMetadata : Type 0 where
  pub summary : Text
  pub suggested_tags : List Text
  pub purpose : Text
  pub generated_at : Time
  pub schema_version : ℕ
  pub edited_by_user : Bool
  pub body_hash : Text

pub record NoteSummary : Type 0 where
  pub ref : NoteRef
  pub title : Text
  pub tags : List Text
  pub status : Text
  pub area : Text
  pub project : Text
  pub category : Category
  pub updated_at : Time
  pub derived : Option DerivedMetadata
  pub index_state : IndexState

-- the value beside a failed lookup is the zero value
abbrev or_empty : Option Text → Text
or_empty none = []
or_empty (some t) = t

-- `Note.Summary`
unfoldable pub summary : Unicode → Note → NoteSummary
unfolding category_from_path
summary u n = record {
  ref = n.ref;
  title = n.front_matter.title;
  tags = n.front_matter.tags;
  status = n.front_matter.status;
  area = n.front_matter.area;
  project = n.front_matter.project;
  category = or_empty (category_from_path u n.ref.path);
  updated_at = n.front_matter.updated_at;
  derived = none;
  index_state = unknown [];
}

pub record MutationResult : Type 0 where
  pub summary : NoteSummary
  pub etag : Text

-- A relevance score: a finite float64 that is not negative, numbered in the order of its values.
abbrev pub Score : Type 0
Score = ℕ

pub record RankedNote : Type 0 where
  pub summary : NoteSummary
  pub score : Score
  pub body : Text

pub record BacklinkEntry : Type 0 where
  pub summary : NoteSummary
  pub is_asset : Bool

pub data SortField : Type 0 where
  by_updated by_created by_title by_relevance : SortField
  other_field : Text → SortField

pub record Capabilities : Type 0 where
  pub writable : Bool
  pub soft_delete : Bool
  pub watch : Bool
  pub max_body_bytes : ℕ
  pub case_sensitive : Bool
  pub semantic : Bool
  pub has_derived : Bool
  pub clustering : Bool

pub record CreateInput : Type 0 where
  pub path : Text
  pub front_matter : FrontMatter
  pub body : Text

pub record Filter : Type 0 where
  pub scopes : List ScopeId
  pub categories : List Category
  pub include_archives : Bool
  pub tags : List Text
  pub any_tags : List Text
  pub status : Text
  pub area : Text
  pub project : Text
  pub text : Text
  pub updated_after : Option Time
  pub updated_before : Option Time
  pub purpose : Text
  pub entities : List Text

-- The scopes that the server allows; `none` is the nil slice.
pub record AuthFilter : Type 0 where
  pub filter : Filter
  pub allowed_scopes : Option (List ScopeId)

pub record QueryRequest : Type 0 where
  pub filter : Filter
  pub allowed_scopes : Option (List ScopeId)
  pub sort : SortField
  pub desc : Bool
  pub limit : ℤ
  pub offset : ℤ
  pub cursor : Text

-- The warning text, which counts and lists the scopes that failed, is left out.
pub record PartialFailure (E : Type 0) : Type 0 where
  pub failed_scopes : List ScopeId
  pub reason : List (ScopeId × E)

pub data ConflictStrategy : Type 0 where
  conflict_error conflict_overwrite : ConflictStrategy
  other_strategy : Text → ConflictStrategy

pub record PromoteInput : Type 0 where
  pub ref : NoteRef
  pub to_scope : ScopeId
  pub if_match : Text
  pub keep_source : Bool
  pub on_conflict : ConflictStrategy
  pub idempotency_key : Text
