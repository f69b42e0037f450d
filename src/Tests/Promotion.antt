-- ===== src/Tests/Promotion.antt =====
-- Deletions and promotions at concrete inputs.
use para_mcp.Prelude.{
  ◌≡◌, ◌≢◌, ◌⊎◌, refl, ap, true, false, none, [], ◌∷◌, All, if◌then◌else◌, arith,
}
use para_mcp.Prelude.Text.{
  Text, ascii, codes, dec_text, has_rune, cut_prefix, contains, cut, same, compare_text,
}
use para_mcp.Prelude.Assoc.{get, put, remove}
use para_mcp.Prelude.Sort.{sort, insert}
use para_mcp.Domain.Value.{put_field, get_field}
use para_mcp.Domain.Results.{ok, QueryResult}
use para_mcp.Domain.Entities.{
  Note, MutationResult, PromoteInput, conflict_error, ref_string, summary, category_from_path,
}
use para_mcp.Domain.Filter.{is_empty}
use para_mcp.Domain.Path.{normalize, archive_path}
use para_mcp.Domain.Path.Clean.{clean}
use para_mcp.Domain.Patch.{set_note_id, get_note_id}
use para_mcp.Domain.Order.{sort_summaries, compare_notes, compare_by}
use para_mcp.Service
use para_mcp.Service.{normalize_ref, prepared, with_template, template_for, check_scopes}
use para_mcp.Federation.{Entry, entry_for_ref, entry_for}
use para_mcp.Federation.Tombstones.{contains_ref}
use para_mcp.Federation.Idempotency.{Cache, Picks, IsBounded, store, lookup}
use para_mcp.Federation.Scopes.{resolve, effective_scopes, uniform, offset_of}
use para_mcp.Federation.Query.{
  query, answer, ask, gather, merge, cut_page, tally, advance, total, partial,
}
use para_mcp.Federation.Deletion.{deleted_hidden}
use para_mcp.Federation.Promote.{
  State, delete, promote, promote_from, parties, carry, replayed, remember, transfer,
  resolve_conflict, archived,
}
use para_mcp.Federation.Promote.Laws.{Archived, Written, promote_ok}
use para_mcp.Federation.Promote.Retry.{promote_once}
use para_mcp.Tests.Fixtures.{
  Disk, disk, nfc, mine, ours, path_a, note_at, plain, ref_a, ref_b, request, registry, my_entry,
  our_entry, result_of,
}
use para_mcp.Tests.Federated.{arrive, encode, decode}

abbrev start : State Disk
start = record { world = disk; dead = []; done = [] }

abbrev deleted : State Disk
deleted = record {
  world = record disk { team = [] };
  dead = (codes "us:areas/b.md", []) ∷ [];
  done = [];
}

delete_run : delete ascii nfc registry ref_b true [] start ≡ (ok tt, deleted)
unfolding delete entry_for_ref Service.delete normalize_ref normalize has_rune cut_prefix clean
    contains cut Service.get_note get_note_id get_field
delete_run = refl

abbrev left : QueryResult
left = record {
  notes = summary ascii (note_at mine path_a) ∷ [];
  total = 1;
  has_more = false;
  per_scope = (mine, 1) ∷ [];
  scopes_attempted = mine ∷ ours ∷ [];
  scopes_succeeded = mine ∷ ours ∷ [];
  partial_failure = none;
  next_cursor = [];
}

left_found :
    query ascii nfc registry arrive decode encode deleted.dead deleted.world request ≡ ok left
unfolding query answer resolve effective_scopes uniform ask Service.query check_scopes entry_for get
    put remove dec_text contains gather merge sort_summaries sort insert compare_notes compare_by
    compare_text cut_page tally advance total partial offset_of summary contains_ref ref_string
    category_from_path cut
left_found = refl

deleted_hidden_example : All (λ m. ref_string m.ref ≢ ref_string ref_b) left.notes
deleted_hidden_example =
    deleted_hidden ascii nfc registry arrive decode encode ref_b true [] start deleted request left
      delete_run left_found

abbrev first_key : Cache → Text
first_key [] = []
first_key (e ∷ m) = e.0

first_key-Picks : Picks first_key
unfolding get
first_key-Picks [] h = absurd (omega arith)
first_key-Picks (e ∷ m) h = (e.1, ground arith)

abbrev share : PromoteInput
share = record {
  ref = ref_a;
  to_scope = ours;
  if_match = codes "v1";
  keep_source = false;
  on_conflict = conflict_error;
  idempotency_key = codes "k";
}

abbrev id : Text
id = codes "id1"

abbrev shared : MutationResult
shared = result_of (record (note_at ours path_a) { front_matter = set_note_id plain id })

abbrev after : State Disk
after = (promote ascii nfc registry first_key id id 1 2 share start).1

promote_run : promote ascii nfc registry first_key id id 1 2 share start ≡ (ok shared, after)
unfolding promote promote_from parties carry replayed remember transfer resolve_conflict archived
    archive_path entry_for_ref entry_for Service.create Service.move Service.get_note prepared
    with_template template_for normalize_ref normalize has_rune cut_prefix clean contains cut
    get_note_id set_note_id get_field put_field get put remove dec_text summary category_from_path
    store lookup
promote_run = refl

not_replayed : replayed ascii nfc registry share 1 [] ≡ none
unfolding replayed lookup get
not_replayed = refl

nothing_done-IsBounded : IsBounded start.done
nothing_done-IsBounded = record { unique = tt; bounded = omega arith }

promote_once_example :
    promote ascii nfc registry first_key (codes "id2") (codes "id2") 60 61 share after
    ≡ (ok shared, after)
promote_once_example =
    promote_once ascii nfc registry first_key id id (codes "id2") (codes "id2") 1 2 60 61 share
      start after shared first_key-Picks nothing_done-IsBounded (λ e. cc e) not_replayed promote_run
      (omega arith)

promote_ok_example :
    (entry : Entry Disk) × (dest : Entry Disk) × (src : Note) × (w1 : Disk) × (parties ascii nfc
        registry share disk
      ≡ ok (entry, dest, src))
    × ((share.if_match ≡ []) ⊎ (src.etag ≡ share.if_match))
    × Written ascii nfc registry share id id dest src disk shared w1
    × Archived ascii nfc registry share entry src w1 after.world
    × (after.dead ≡ [])
    × (after.done ≡ (
        if is_empty share.idempotency_key
        then []
        else store first_key share.idempotency_key shared 2 []))
promote_ok_example =
    promote_ok ascii nfc registry first_key id id 1 2 share start after shared not_replayed
      promote_run

abbrev stale : PromoteInput
stale = record share { if_match = codes "v0" }

stale-parties :
    parties ascii nfc registry stale disk ≡ ok (my_entry, our_entry, note_at mine path_a)
unfolding promote promote_from parties carry replayed remember transfer resolve_conflict archived
    archive_path entry_for_ref entry_for Service.create Service.move Service.get_note prepared
    with_template template_for normalize_ref normalize has_rune cut_prefix clean contains cut
    get_note_id set_note_id get_field put_field get put remove dec_text summary category_from_path
    store lookup
stale-parties = refl

old_etag : codes "v1" ≢ codes "v0"
unfolding dec_text
old_etag e = cc (ap (λ t. same t (codes "v0")) e)
