-- ===== src/Federation/Deletion.antt =====
-- A deleted note in the pages of the federation: `Delete` and `Query` together.
use para_mcp.Prelude.{◌≡◌, ◌≢◌, Bool, false, ◌||◌, List, All, All-imp, inl, inr, arith}
use para_mcp.Prelude.Text.{Text, Unicode, same}
use para_mcp.Domain.Results.{Result, ok, QueryResult}
use para_mcp.Domain.Entities.{NoteRef, QueryRequest, ref_string}
use para_mcp.Federation.{Registry}
use para_mcp.Federation.Tombstones.{contains_ref}
use para_mcp.Federation.Scopes.{Payload}
use para_mcp.Federation.Query.{ScopeResult, query}
use para_mcp.Federation.Query.Page.{query-live}
use para_mcp.Federation.Promote.{State, delete}
use para_mcp.Federation.Promote.Deleted.{delete_lem}

module _ (u : Unicode) (nfc : Text → Text) {W : Type 0} (r : Registry W)
    (arrive : List ScopeResult → List ScopeResult) where
  -- After a deletion that succeeded, no page shows the deleted reference, even where a vault still
  -- returns it.
  pub deleted_hidden :
      (decode : Text → Result Payload) (encode : Payload → Result Text) (ref : NoteRef)
      (soft : Bool) (if_match : Text) (st st' : State W) (q : QueryRequest) (res : QueryResult)
      → delete u nfc r ref soft if_match st ≡ (ok tt, st')
      → query u nfc r arrive decode encode st'.dead st'.world q ≡ ok res
      → All (λ m. ref_string m.ref ≢ ref_string ref) res.notes
  deleted_hidden decode encode ref soft if_match st st' q res d h =
      elim (delete_lem u nfc r ref soft if_match st st' (ok tt) d) [
        | inl done ↦
            All-imp (λ m. contains_ref m.ref st'.dead ≡ false)
              (λ m. ref_string m.ref ≢ ref_string ref) res.notes
              (λ m live e. hidden m.ref live (done.1 m.ref) e)
              (query-live u nfc r arrive decode encode st'.dead st'.world q res h)
        | inr failed ↦ absurd (cc failed.1)
      ]
    where
      hidden :
          (b : NoteRef)
          → contains_ref b st'.dead ≡ false
          → contains_ref b st'.dead
            ≡ (same (ref_string ref) (ref_string b) || contains_ref b st.dead)
          → ref_string b ≢ ref_string ref
      hidden b live e k = ground arith
