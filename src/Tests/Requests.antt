-- ===== src/Tests/Requests.antt =====
-- Requests at the service, the registry and the grants at concrete inputs.
use para_mcp.Prelude.{
  ◌≡◌, ◌≢◌, refl, ap, true, false, ◌&&◌, ◌||◌, ◌++◌, Option, none, some, List, [], ◌∷◌,
}
use para_mcp.Prelude.Text.{Text, ascii, codes, dec_text, contains, same}
use para_mcp.Prelude.Assoc.{get, put}
use para_mcp.Domain.Value.{end}
use para_mcp.Domain.Results.{ok, invalid_path}
use para_mcp.Domain.Entities.{NoteRef, ScopeId, CreateInput, QueryRequest}
use para_mcp.Domain.Filter.{is_empty}
use para_mcp.Service.{update_body, patch_front_matter, replace, delete}
use para_mcp.Service.Boundary.{Guarded, writes-Guarded}
use para_mcp.Federation.{Registry, new_registry, add_vault, entry_for, entry_for_ref}
use para_mcp.Federation.Writes
use para_mcp.Federation.Writes.{Routed, writes-Routed}
use para_mcp.Federation.Routing.{IsConsistent, new_registry-IsConsistent, add_vault-IsConsistent}
use para_mcp.Federation.Scopes.{Payload, resolve, after_cursor}
use para_mcp.Federation.Tombstones.{contains_ref}
use para_mcp.Federation.TombstoneFile.{
  Content, absent, broken, FileStore, Adding, new_store, add_ref, add_refs, new_store-add_refs,
}
use para_mcp.Server.Rbac.{Grant, viewer, lead, reload, has_role, allowed_scopes, allowed_scopes_iff}
use para_mcp.Tests.Fixtures.{Disk, nfc, mine, ours, plain, ref_a, request, my_service, my_entry}

abbrev text : Text
text = codes "new"

writes-Guarded_example :
    Guarded ascii nfc my_service ref_a.path
      (λ p. my_service.vault.update_body p text [])
      (update_body ascii nfc my_service ref_a text [])
    × Guarded ascii nfc my_service ref_a.path
        (λ p. my_service.vault.patch_front_matter p end [])
        (patch_front_matter ascii nfc my_service ref_a end [])
    × Guarded ascii nfc my_service ref_a.path
        (λ p. my_service.vault.replace p end text [])
        (replace ascii nfc my_service ref_a end text [])
    × Guarded ascii nfc my_service ref_a.path
        (λ p. my_service.vault.delete p true [])
        (delete ascii nfc my_service ref_a true [])
writes-Guarded_example = writes-Guarded ascii nfc my_service ref_a text [] end true

ours_not_mine : ours ≢ mine
unfolding dec_text
ours_not_mine e = cc (ap (λ t. same t mine) e)

abbrev new_note : CreateInput
new_note = record { path = codes "resources/c.md"; front_matter = plain; body = text }

-- the registry with one vault
abbrev alone : Registry Disk
alone = record { entries = my_entry ∷ []; by_scope = (mine, my_entry) ∷ [] }

alone_added : add_vault (new_registry Disk) my_service [] ≡ some alone
unfolding add_vault get put dec_text
alone_added = refl

add_vault-IsConsistent_example :
    IsConsistent alone
    × (entry_for (new_registry Disk) mine ≡ none)
    × (entry_for alone mine ≡ some my_entry)
    × (alone.entries ≡ [] ++ my_entry ∷ [])
add_vault-IsConsistent_example =
    add_vault-IsConsistent (new_registry Disk) alone my_service [] new_registry-IsConsistent
      alone_added

mine_there : entry_for_ref alone ref_a ≡ ok my_entry
unfolding entry_for_ref entry_for get dec_text
mine_there = refl

writes-Routed_example :
    Routed ascii nfc alone ref_a
      (λ v p. v.update_body p text [])
      (Writes.update_body ascii nfc alone ref_a text [])
    × Routed ascii nfc alone ref_a
        (λ v p. v.patch_front_matter p end [])
        (Writes.patch_front_matter ascii nfc alone ref_a end [])
    × Routed ascii nfc alone ref_a
        (λ v p. v.replace p end text [])
        (Writes.replace ascii nfc alone ref_a end text [])
writes-Routed_example =
    writes-Routed ascii nfc alone ref_a text [] end add_vault-IsConsistent_example.0

-- a cursor that asks for a scope which is not allowed
abbrev greedy : Payload
greedy = record { sort = request.sort; desc = false; scopes = ours ∷ mine ∷ []; offsets = [] }

abbrev continued : QueryRequest
continued = record request { cursor = codes "x" }

abbrev reached : List ScopeId
reached = mine ∷ []

only_mine : resolve alone (λ t. ok greedy) (mine ∷ []) continued ≡ ok (reached, [])
unfolding resolve after_cursor contains dec_text
only_mine = refl

abbrev ann : Text
ann = codes "ann"

abbrev grants : List Grant
grants =
    record { identity = ann; scope = mine; role = viewer }
    ∷ record { identity = ann; scope = ours; role = viewer }
    ∷ record { identity = ann; scope = mine; role = lead }
    ∷ []

allowed_scopes_iff_example : contains ours (allowed_scopes (reload grants) ann (ours ∷ [])) ≡ (
    has_role (reload grants) ann ours viewer && (is_empty (ours ∷ []) || contains ours (ours ∷ [])))
allowed_scopes_iff_example = allowed_scopes_iff (reload grants) ann (ours ∷ []) ours

abbrev start : FileStore
start = record { entries = []; file = absent }

started : new_store absent ≡ ok start
unfolding new_store
started = refl

-- an addition whose write is refused and leaves a file that is cut off
abbrev cut_off : Adding
cut_off = record { ref = ref_a; note_id = codes "id"; left = some (broken invalid_path) }

abbrev ref_c : NoteRef
ref_c = record { scope = ours; path = codes "resources/c.md" }

new_store-add_refs_example :
    let last = λ (o : Option Content).
      add_ref (record { ref = ref_c; note_id = []; left = o }) (add_refs (cut_off ∷ []) start) in
    ((o : Option Content) → contains_ref ref_c (last o).entries ≡ true)
    × (v : FileStore) × (new_store (last none).file ≡ ok v)
    × ((q : NoteRef) → contains_ref q v.entries ≡ contains_ref q (last none).entries)
new_store-add_refs_example = new_store-add_refs absent start (cut_off ∷ []) ref_c [] started
