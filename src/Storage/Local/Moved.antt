-- ===== src/Storage/Local/Moved.antt =====
-- localvault/mutations.go: `Move`, like `Delete`, keeps the cache of summaries in agreement with the files.
use para_mcp.Prelude.{◌≡◌, Bool, true}
use para_mcp.Prelude.Assoc.{put, remove}
use para_mcp.Prelude.Text.{Text, dec_text}
use para_mcp.Domain.Results.{ok}
use para_mcp.Domain.Entities.{Note, MutationResult}
use para_mcp.Domain.Path.{NormalizedPath}
use para_mcp.Vault.{Write}
use para_mcp.Storage.Local.{mutation_of, Site, Local}
use para_mcp.Storage.Local.Mutations.{moved}
use para_mcp.Storage.Local.Sync.{is_trash}

-- `skip` are the paths that are left out of the account, the trash among them.
module _ {N : Type 0} {X : Type 0} (e : Site N X) (skip : Text → Bool)
    (trash : (q : Text) → is_trash q ≡ true → skip q ≡ true) where
  -- the move of a file and of its caches
  abbrev after_move : NormalizedPath → NormalizedPath → Note → Text → Local X → Local X
  after_move np nnp n raw w =
      moved e np nnp n
        (record w { files = put dec_text nnp.storage raw (remove dec_text np.storage w.files) })

  abbrev settle : NormalizedPath → NormalizedPath → Note → Unit {0} → Write (Local X) MutationResult
  settle np nnp n _ v = (ok (mutation_of e n), moved e np nnp n v)
