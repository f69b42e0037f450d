-- ===== src/Vault.antt =====
-- core/ports/vault.go: the storage port, as the operations of an interface over the state `W` of
-- everything behind it (files, databases, remote servers). A read returns a value and leaves `W`
-- alone: what a storage adapter caches on a read is its own matter. A write returns the new state,
-- beside an error too.
use para_mcp.Prelude.{Bool, List}
use para_mcp.Prelude.Int.{ℤ}
use para_mcp.Prelude.Text.{Text}
use para_mcp.Domain.Value.{Fields}
use para_mcp.Domain.Results.{Result, ok, err, QueryResult}
use para_mcp.Domain.Entities.{
  ScopeId, Capabilities, Note, NoteRef, Filter, QueryRequest, RankedNote, BacklinkEntry,
  CreateInput, MutationResult,
}

abbrev pub Write : Type 0 → Type 0 → Type 0
Write W A = W → Result A × W

-- The early return on an error, before a write.
abbrev pub attempt : {W A B : Type 0} → Result A → (A → Write W B) → Write W B
attempt (ok a) f w = f a w
attempt (err e) f w = (err e, w)

pub record Vault (W : Type 0) : Type 0 where
  pub scope : ScopeId
  pub capabilities : Capabilities
  pub get : W → Text → Result Note
  pub query : W → QueryRequest → Result QueryResult
  pub search : W → Text → Filter → ℤ → Result (List RankedNote)
  pub backlinks : W → NoteRef → Bool → Filter → Result (List BacklinkEntry)
  pub create : CreateInput → Write W MutationResult
  pub update_body : Text → Text → Text → Write W MutationResult
  pub patch_front_matter : Text → Fields → Text → Write W MutationResult
  pub replace : Text → Fields → Text → Text → Write W MutationResult
  pub move : Text → Text → Text → Write W MutationResult
  pub delete : Text → Bool → Text → Write W (Unit {0})
