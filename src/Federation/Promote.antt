-- ===== src/Federation/Promote.antt =====
-- application/federation.go: `Delete` and `Promote`, which change the vaults, the tombstones and the
-- cache of completed promotions.
pub mod Deleted
pub mod Laws
pub mod Retry
use para_mcp.Prelude.{
  ℕ, Bool, true, false, not, ◌&&◌, Option, none, some, List, [], ◌∷◌, if◌then◌else◌,
}
use para_mcp.Prelude.Text.{Text, Unicode, codes, same}
use para_mcp.Domain.Value.{Fields, end, field, string, strings, put_field}
use para_mcp.Domain.Results.{Result, ok, err, Error, conflict, ◌>>=◌}
use para_mcp.Domain.Entities.{
  NoteRef, Note, FrontMatter, CreateInput, MutationResult, PromoteInput, ConflictStrategy,
  conflict_error, conflict_overwrite, other_strategy, Time,
}
use para_mcp.Domain.Filter.{is_empty}
use para_mcp.Domain.Path.{archive_path}
use para_mcp.Domain.Patch.{get_note_id, set_note_id}
use para_mcp.Service
use para_mcp.Federation.{Registry, Entry, entry_for_ref}
use para_mcp.Federation.Tombstones.{Tombstones, add}
use para_mcp.Federation.Idempotency.{Cache, lookup, store}

-- what the service's writes change: the vaults, and its own two maps
pub record State (W : Type 0) : Type 0 where
  pub world : W
  pub dead : Tombstones
  pub done : Cache

-- `maps.Copy`
unfoldable pub copy_fields : Fields → Fields → Fields
unfolding put_field
copy_fields end m = m
copy_fields (field k v fs) m = copy_fields fs (put_field k v m)

-- `frontMatterFields`
unfoldable pub front_matter_fields : FrontMatter → Fields
unfolding copy_fields
front_matter_fields fm =
    let m = field (codes "title") (string fm.title) (
      field (codes "status") (string fm.status) (
        field (codes "area") (string fm.area) (
          field (codes "project") (string fm.project)
            (field (codes "tags") (strings fm.tags) end)))) in
    elim fm.extra [ none ↦ m | some fs ↦ copy_fields fs m ]

-- The front matter of the source behind `SetNoteID` on the copy: the two share the map `Extra`,
-- unless it is nil. `id` is not empty, so that `Create` keeps it.
unfoldable pub aliased : FrontMatter → Text → FrontMatter
aliased fm id = elim fm.extra [ none ↦ fm | some fs ↦ set_note_id fm id ]

-- `isConflict(cerr) && in.OnConflict == domain.ConflictOverwrite`
unfoldable pub overwrites : Error → ConflictStrategy → Bool
overwrites conflict conflict_overwrite = true
overwrites _ _ = false

-- what the destination is asked to create
abbrev pub promoted_input : PromoteInput → Text → Note → CreateInput
promoted_input input id src = record {
  path = input.ref.path;
  front_matter = set_note_id src.front_matter id;
  body = src.body;
}

module _ (u : Unicode) (nfc : Text → Text) {W : Type 0} (r : Registry W) where
  -- the identity by which `Delete` records a note, empty where it cannot be read
  unfoldable pub recorded_id : Result Note → Text
  recorded_id (ok note) = get_note_id note.front_matter
  recorded_id (err e) = []

  abbrev removed : NoteRef → Text → State W → Result (Unit {0}) × W → Result (Unit {0}) × State W
  removed ref id st (err e, w) = (err e, record st { world = w })
  removed ref id st (ok _, w) = (ok tt, record st { world = w; dead = add ref id st.dead })

  abbrev delete_from :
      NoteRef → Bool → Text → State W → Result (Entry W) → Result (Unit {0}) × State W
  delete_from ref soft if_match st (err e) = (err e, st)
  delete_from ref soft if_match st (ok e) =
      removed ref (recorded_id (Service.get_note u nfc e.svc st.world ref)) st
        (Service.delete u nfc e.svc ref soft if_match st.world)

  -- `Delete`
  unfoldable pub delete : NoteRef → Bool → Text → State W → Result (Unit {0}) × State W
  unfolding recorded_id add
  delete ref soft if_match st = delete_from ref soft if_match st (entry_for_ref r ref)

  -- `Create` failed with `e` behind: overwrite the note there, or return the error
  unfoldable pub resolve_conflict :
      PromoteInput → Entry W → Note → FrontMatter → Error → W → Result MutationResult × W
  unfolding overwrites front_matter_fields
  resolve_conflict input dest src fm e w =
      if overwrites e input.on_conflict
      then Service.replace u nfc dest.svc (record { scope = input.to_scope; path = input.ref.path })
          (front_matter_fields fm) src.body [] w
      else (err e, w)

  abbrev pub or_resolved :
      PromoteInput
      → Entry W
      → Note
      → FrontMatter
      → Result MutationResult × W
      → Result MutationResult × W
  or_resolved input dest src fm (ok res, w) = (ok res, w)
  or_resolved input dest src fm (err e, w) = resolve_conflict input dest src fm e w

  -- the write to the destination; `id` and `mint` are what the two minters give
  unfoldable pub transfer :
      Text → Text → PromoteInput → Entry W → Note → W → Result MutationResult × W
  unfolding aliased resolve_conflict
  transfer id mint input dest src w =
      or_resolved input dest src (aliased src.front_matter id)
        (Service.create u nfc dest.svc mint (promoted_input input id src) w)

  abbrev pub move_to_archive : PromoteInput → Entry W → Note → W → Option Text → W
  move_to_archive input entry src w none = w
  move_to_archive input entry src w (some path) =
      (Service.move u nfc entry.svc input.ref path src.etag w).1

  -- the archiving of the source, whose own result is dropped
  unfoldable pub archived : PromoteInput → Entry W → Note → W → W
  archived input entry src w =
      if input.keep_source
      then w
      else move_to_archive input entry src w (archive_path input.ref.path)

  abbrev archived_on_success :
      PromoteInput → Entry W → Note → Result MutationResult × W → Result MutationResult × W
  archived_on_success input entry src (err e, w) = (err e, w)
  archived_on_success input entry src (ok res, w) = (ok res, archived input entry src w)

  -- the two entries and the source
  abbrev Parties : Type 0
  Parties = Entry W × Entry W × Note

  unfoldable pub parties : PromoteInput → W → Result Parties
  parties input w = do
    entry ← entry_for_ref r input.ref
    dest ← entry_for_ref r (record { scope = input.to_scope; path = input.ref.path })
    src ← Service.get_note u nfc entry.svc w input.ref
    ok (entry, dest, src)

  -- `Promote` between the look into the cache and the entry there
  unfoldable pub carry : Text → Text → PromoteInput → W → Result Parties → Result MutationResult × W
  unfolding transfer archived
  carry id mint input w (err e) = (err e, w)
  carry id mint input w (ok (entry, dest, src)) =
      if not (is_empty input.if_match) && not (same src.etag input.if_match)
      then (err conflict, w)
      else archived_on_success input entry src (transfer id mint input dest src w)

  -- the completed promotion that the key names
  unfoldable pub replayed : PromoteInput → Time → Cache → Option MutationResult
  unfolding lookup
  replayed input now done =
      if is_empty input.idempotency_key then none else lookup input.idempotency_key now done

  unfoldable pub remember :
      (Cache → Text)
      → PromoteInput
      → Time
      → State W
      → Result MutationResult × W
      → Result MutationResult × State W
  unfolding store
  remember pick input now st (err e, w) = (err e, record st { world = w })
  remember pick input now st (ok res, w) =
      let done =
        if is_empty input.idempotency_key
        then st.done
        else store pick input.idempotency_key res now st.done in
      (ok res, record st { world = w; done = done })

  -- `Promote` behind the look into the cache
  unfoldable pub promote_from :
      (Cache → Text)
      → Text
      → Text
      → Time
      → PromoteInput
      → State W
      → Option MutationResult
      → Result MutationResult × State W
  unfolding parties carry remember
  promote_from pick id mint later input st (some res) = (ok res, st)
  promote_from pick id mint later input st none =
      remember pick input later st (carry id mint input st.world (parties input st.world))

  -- `Promote`; `now` and `later` are the two readings of the clock.
  unfoldable pub promote :
      (Cache → Text)
      → Text
      → Text
      → Time
      → Time
      → PromoteInput
      → State W
      → Result MutationResult × State W
  unfolding promote_from replayed
  promote pick id mint now later input st =
      promote_from pick id mint later input st (replayed input now st.done)
