-- ===== src/Server/Rbac.antt =====
-- server/rbac/rbac.go: the roles of callers, and the scopes that they may read.
use para_mcp.Prelude.{
  ℕ, ◌≡◌, refl, ◌∙◌, ap, Bool, false, ◌&&◌, ◌||◌, Option, none, some, List, [], ◌∷◌, arith, leb,
  keep, if◌then◌else◌, Bool-cases, inl, inr,
}
use para_mcp.Prelude.Text.{Text, dec_text, same, contains}
use para_mcp.Prelude.Assoc.{Assoc, get, put, has, keys, get-put}
use para_mcp.Domain.Entities.{ScopeId}
use para_mcp.Domain.Filter.{is_empty}

-- `auth.CallerIdentity`
abbrev pub Caller : Type 0
Caller = Text

pub data Role : Type 0 where
  viewer contributor lead admin : Role

-- the number of the constant
unfoldable pub rank : Role → ℕ
rank viewer = 0
rank contributor = 1
rank lead = 2
rank admin = 3

-- `ScopeGrant`
pub record Grant : Type 0 where
  pub identity : Caller
  pub scope : ScopeId
  pub role : Role

-- `Registry`
abbrev pub Grants : Type 0
Grants = Assoc Caller (Assoc ScopeId Role)

abbrev or_empty : Option (Assoc ScopeId Role) → Assoc ScopeId Role
or_empty none = []
or_empty (some m) = m

-- `r.grants[id]`; a missing identity reads the nil map
unfoldable pub grants_of : Caller → Grants → Assoc ScopeId Role
unfolding get
grants_of id r = or_empty (get dec_text id r)

-- `set`
unfoldable pub set : Grants → Grant → Grants
unfolding grants_of put
set r g = put dec_text g.identity (put dec_text g.scope g.role (grants_of g.identity r)) r

unfoldable pub load_from : Grants → List Grant → Grants
unfolding set
load_from r [] = r
load_from r (g ∷ gs) = load_from (set r g) gs

-- `Reload`, and `New` with `WithRoleLoader`
unfoldable pub reload : List Grant → Grants
unfolding load_from
reload gs = load_from [] gs

-- `AllowedScopes`
unfoldable pub allowed_scopes : Grants → Caller → List ScopeId → List ScopeId
unfolding grants_of
allowed_scopes r caller requested =
    let granted = grants_of caller r in
    if is_empty requested then keys granted else keep (λ s. has dec_text s granted) requested

-- the role that a caller has on a scope
unfoldable pub role_on : Grants → Caller → ScopeId → Option Role
unfolding grants_of get
role_on r caller scope = get dec_text scope (grants_of caller r)

abbrev reaches : Option Role → Role → Bool
reaches none least = false
reaches (some role) least = leb (rank least) (rank role)

-- `HasRole`
unfoldable pub has_role : Grants → Caller → ScopeId → Role → Bool
unfolding rank role_on
has_role r caller scope least = reaches (role_on r caller scope) least

-- The grant that counts: the last for the caller and the scope, or what was there before.
abbrev pub last_grant : Option Role → List Grant → Caller → ScopeId → Option Role
last_grant found [] caller scope = found
last_grant found (g ∷ gs) caller scope =
    last_grant (if same g.identity caller && same g.scope scope then some g.role else found) gs
      caller scope

role_on-set :
    (r : Grants) (g : Grant) (caller : Caller) (scope : ScopeId)
    → role_on (set r g) caller scope ≡ (
        if same g.identity caller && same g.scope scope
        then some g.role
        else role_on r caller scope)
unfolding role_on set grants_of
role_on-set r g caller scope = ground (
  arith,
  get-put dec_text g.identity caller (put dec_text g.scope g.role (grants_of g.identity r)) r,
  get-put dec_text g.scope scope g.role (grants_of g.identity r),
)

role_on-load_from :
    (r : Grants) (gs : List Grant) (caller : Caller) (scope : ScopeId)
    → role_on (load_from r gs) caller scope ≡ last_grant (role_on r caller scope) gs caller scope
unfolding load_from
role_on-load_from r [] caller scope = refl
role_on-load_from r (g ∷ gs) caller scope =
    role_on-load_from (set r g) gs caller scope
    ∙ ap (λ o. last_grant o gs caller scope) (role_on-set r g caller scope)

-- After a reload a caller has on a scope the role of the last grant for the two, and no role without
-- one: what was granted before is gone.
pub reload_lem :
    (gs : List Grant) (caller : Caller) (scope : ScopeId)
    → role_on (reload gs) caller scope ≡ last_grant none gs caller scope
unfolding reload role_on grants_of get
reload_lem gs caller scope = role_on-load_from [] gs caller scope

contains-keys : (s : ScopeId) (m : Assoc ScopeId Role) → contains s (keys m) ≡ has dec_text s m
unfolding contains get
contains-keys s [] = refl
contains-keys s (e ∷ m) = ground (arith, contains-keys s m)

contains-keep :
    (p : ScopeId → Bool) (s : ScopeId) (l : List ScopeId)
    → contains s (keep p l) ≡ (p s && contains s l)
unfolding contains
contains-keep p s [] = ground arith
contains-keep p s (x ∷ l) = ground (arith, contains-keep p s l)

-- A caller may read a scope exactly where some role is granted there and the scope is among those
-- asked for, all being asked for by an empty list.
pub allowed_scopes_iff :
    (r : Grants) (caller : Caller) (requested : List ScopeId) (scope : ScopeId)
    → contains scope (allowed_scopes r caller requested)
      ≡ (has_role r caller scope viewer && (is_empty requested || contains scope requested))
unfolding allowed_scopes has_role role_on rank
allowed_scopes_iff r caller requested scope =
    let granted = grants_of caller r in
    elim (Bool-cases (is_empty requested)) [
      | inl e ↦ rw e (contains-keys scope granted ∙ ground arith)
      | inr e ↦ rw e (contains-keep (λ s. has dec_text s granted) scope requested ∙ ground arith)
    ]
