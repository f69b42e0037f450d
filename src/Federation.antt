-- ===== src/Federation.antt =====
-- application/registry.go and federation.go: the vaults of a federation, by scope.
pub mod Routing
pub mod Writes
pub mod Tombstones
pub mod TombstoneFile
pub mod Idempotency
pub mod Scopes
pub mod Query
pub mod Search
pub mod Cursor
pub mod Promote
pub mod Deletion
use para_mcp.Prelude.{
  Bool, true, false, Option, none, some, List, [], ◌∷◌, ◌++◌, if◌then◌else◌, is_some,
}
use para_mcp.Prelude.Text.{Text, dec_text}
use para_mcp.Prelude.Assoc.{Assoc, get, put, has}
use para_mcp.Domain.Results.{Result, ok, err, Error, scope_forbidden, unavailable}
use para_mcp.Domain.Entities.{ScopeId, NoteRef}
use para_mcp.Domain.Filter.{is_empty}
use para_mcp.Service.{Service}

-- `VaultEntry`
pub record Entry (W : Type 0) : Type 0 where
  pub scope_id : ScopeId
  pub canonical_remote : Text
  pub svc : Service W

-- `VaultRegistry`
pub record Registry (W : Type 0) : Type 0 where
  pub entries : List (Entry W)
  pub by_scope : Assoc ScopeId (Entry W)

-- `NewRegistry`
abbrev pub new_registry : (W : Type 0) → Registry W
new_registry W = record { entries = []; by_scope = [] }

module _ {W : Type 0} where
  -- `EntryFor`
  unfoldable pub entry_for : Registry W → ScopeId → Option (Entry W)
  unfolding get dec_text
  entry_for r scope = get dec_text scope r.by_scope

  -- `AddVault`; `none` is the error of a scope that is taken
  unfoldable pub add_vault : Registry W → Service W → Text → Option (Registry W)
  unfolding get put dec_text
  add_vault r svc canonical_remote =
      let scope = svc.vault.scope in
      let e : Entry W = record {
        scope_id = scope;
        canonical_remote = canonical_remote;
        svc = svc;
      } in
      if has dec_text scope r.by_scope
      then none
      else some
          (record { entries = r.entries ++ e ∷ []; by_scope = put dec_text scope e r.by_scope })

  -- `localEntry`
  unfoldable pub local_entry : Registry W → Result (Entry W)
  local_entry r = elim r.entries [ [] ↦ err unavailable | e ∷ es ↦ ok e ]

  abbrev pub or_forbidden : Option (Entry W) → Result (Entry W)
  or_forbidden none = err scope_forbidden
  or_forbidden (some e) = ok e

  -- `entryForRef`
  unfoldable pub entry_for_ref : Registry W → NoteRef → Result (Entry W)
  unfolding local_entry entry_for
  entry_for_ref r ref =
      if is_empty ref.scope then local_entry r else or_forbidden (entry_for r ref.scope)
