-- ===== src/Federation/Tombstones.antt =====
-- application/federation.go: the in-memory tombstone store.
use para_mcp.Prelude.{◌≡◌, Bool, false, arith, ◌||◌}
use para_mcp.Prelude.Text.{Text, dec_text, same, has_rune, separator_unique}
use para_mcp.Prelude.Assoc.{Assoc, get, put, has, get-put}
use para_mcp.Domain.Entities.{NoteRef, ref_string}

-- note id by the key `scope:path`
abbrev pub Tombstones : Type 0
Tombstones = Assoc Text Text

-- `Add`
unfoldable pub add : NoteRef → Text → Tombstones → Tombstones
unfolding put ref_string
add ref note_id m = put dec_text (ref_string ref) note_id m

-- `Contains`
unfoldable pub contains_ref : NoteRef → Tombstones → Bool
unfolding get ref_string
contains_ref ref m = has dec_text (ref_string ref) m

pub contains_ref-add :
    (a b : NoteRef) (id : Text) (m : Tombstones)
    → contains_ref b (add a id m) ≡ (same (ref_string a) (ref_string b) || contains_ref b m)
unfolding contains_ref add
contains_ref-add a b id m = ground (arith, get-put dec_text (ref_string a) (ref_string b) id m)

-- The keys of two references are one key only for one reference, where no scope has a colon.
pub ref_string-injective :
    (a b : NoteRef)
    → has_rune b':' a.scope ≡ false
    → has_rune b':' b.scope ≡ false
    → ref_string a ≡ ref_string b
    → (a.scope ≡ b.scope) × (a.path ≡ b.path)
unfolding ref_string
ref_string-injective a b = separator_unique b':' a.scope b.scope a.path b.path
