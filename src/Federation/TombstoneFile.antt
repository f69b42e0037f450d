-- ===== src/Federation/TombstoneFile.antt =====
-- storage/tombstone/file_store.go: the tombstones that survive a restart. The file is modelled by the
-- records whose JSON it holds.
use mathlib.Core.Logic.{ite}
use para_mcp.Prelude.{
  ℕ, ◌++◌, ◌≡◌, refl, true, Option, none, some, List, [], ◌∷◌, arith, All, ◌∙◌, sym, subst,
}
use para_mcp.Prelude.Text.{Text, dec_text, cut, has_rune, cut-has_rune}
use para_mcp.Prelude.Assoc.{get, put, remove, get-put, keys, Distinct, Distinct-put}
use para_mcp.Domain.Entities.{NoteRef, ref_string}
use para_mcp.Federation.Tombstones.{Tombstones, add, contains_ref}
use para_mcp.Domain.Results.{Result, ok, err, Error}

-- `entry`
pub record Saved : Type 0 where
  pub scope : Text
  pub path : Text
  pub note_id : Text

-- `splitRef`: at the first colon
unfoldable pub split_ref : Text → Text × Text
unfolding cut
split_ref s = elim (cut b':' s).1 [ none ↦ (s, []) | some rest ↦ ((cut b':' s).0, rest) ]

-- `flush`
unfoldable pub flush : Tombstones → List Saved
unfolding split_ref
flush [] = []
flush (e ∷ m) =
    record { scope = (split_ref e.0).0; path = (split_ref e.0).1; note_id = e.1 } ∷ flush m

-- the loop of `New` over the records of the file
unfoldable pub load : Tombstones → List Saved → Tombstones
unfolding put ref_string
load m [] = m
load m (r ∷ rs) =
    load (put dec_text (ref_string (record { scope = r.scope; path = r.path })) r.note_id m) rs

-- What the file holds: nothing, the records of its JSON, or what cannot be read or is no JSON of records.
pub data Content : Type 0 where
  absent : Content
  holds : List Saved → Content
  broken : Error → Content

-- `FileStore`, with its file
pub record FileStore : Type 0 where
  pub entries : Tombstones
  pub file : Content

-- `New`
unfoldable pub new_store : Content → Result FileStore
unfolding load
new_store absent = ok (record { entries = []; file = absent })
new_store (holds rs) = ok (record { entries = load [] rs; file = holds rs })
new_store (broken e) = err e

-- A call of `Add`; `left` is what a write of the file that is refused leaves there.
pub record Adding : Type 0 where
  pub ref : NoteRef
  pub note_id : Text
  pub left : Option Content

unfoldable pub written : Option Content → Tombstones → Content
unfolding flush
written none m = holds (flush m)
written (some c) m = c

-- `Add`, which drops the error of `flush`
unfoldable pub add_ref : Adding → FileStore → FileStore
unfolding add written
add_ref a s =
    let m = add a.ref a.note_id s.entries in record { entries = m; file = written a.left m }

unfoldable pub add_refs : List Adding → FileStore → FileStore
unfolding add_ref
add_refs [] s = s
add_refs (a ∷ adds) s = add_refs adds (add_ref a s)

-- The keys are references, each once.
abbrev pub IsKeyed : Tombstones → Type 0
IsKeyed m = Distinct dec_text m × All (λ k. has_rune b':' k ≡ true) (keys m)

ok_store : {a b : FileStore} → ◌≡◌ {A = Result FileStore} (ok a) (ok b) → a ≡ b
ok_store h = cc h

added :
    (ref : NoteRef) (id : Text) (m : Tombstones)
    → contains_ref ref (put dec_text (ref_string ref) id m) ≡ true
unfolding contains_ref
added ref id m = ground (arith, get-put dec_text (ref_string ref) (ref_string ref) id m)

key-split_ref :
    (k : Text)
    → has_rune b':' k ≡ true
    → ref_string (record { scope = (split_ref k).0; path = (split_ref k).1 }) ≡ k
unfolding split_ref ref_string
key-split_ref k h = let (rest, found, whole) = cut-has_rune b':' k h in ground (arith)

abbrev or_get : Option Text → Option Text → Option Text
or_get none o = o
or_get (some v) o = some v

get-load :
    (j : Text) (acc m : Tombstones)
    → Distinct dec_text m
    → All (λ k. has_rune b':' k ≡ true) (keys m)
    → get dec_text j (load acc (flush m)) ≡ or_get (get dec_text j m) (get dec_text j acc)
unfolding load flush get
get-load j acc [] d h = refl
get-load j acc ((k, id) ∷ m) d h =
    subst
      (λ x.
        get dec_text j (load (put dec_text x id acc) (flush m))
        ≡ or_get (get dec_text j ((k, id) ∷ m)) (get dec_text j acc))
      (sym (key-split_ref k h.0))
      (get-load j (put dec_text k id acc) m d.1 h.1
        ∙ ground (arith, get-put dec_text k j id acc, d.0))

contains_ref-load :
    (m : Tombstones) (ref : NoteRef)
    → IsKeyed m
    → contains_ref ref (load [] (flush m)) ≡ contains_ref ref m
unfolding contains_ref
contains_ref-load m ref h = rw (get-load (ref_string ref) [] m h.0 h.1) (ground arith)

has_rune-append : (c : ℕ) (s t : Text) → has_rune c (s ++ c ∷ t) ≡ true
unfolding has_rune
has_rune-append c [] t = ground arith
has_rune-append c (a ∷ s) t = ground (arith, has_rune-append c s t)

colons-remove :
    (k : Text) (m : Tombstones)
    → All (λ j. has_rune b':' j ≡ true) (keys m)
    → All (λ j. has_rune b':' j ≡ true) (keys (remove dec_text k m))
unfolding remove
colons-remove k [] h = tt
colons-remove k (e ∷ m) h =
    elim (dec_text e.0 k)
      as (λ d.
        All (λ j. has_rune b':' j ≡ true)
          (keys (ite d (remove dec_text k m) (e ∷ remove dec_text k m)))) [
            | yes p ↦ colons-remove k m h.1
            | no p ↦ (h.0, colons-remove k m h.1)
          ]

put-IsKeyed :
    (ref : NoteRef) (id : Text) (m : Tombstones)
    → IsKeyed m
    → IsKeyed (put dec_text (ref_string ref) id m)
unfolding put ref_string
put-IsKeyed ref id m h = (
  Distinct-put dec_text (ref_string ref) id m h.0,
  (has_rune-append b':' ref.scope ref.path, colons-remove (ref_string ref) m h.1),
)

load-IsKeyed : (m : Tombstones) (rs : List Saved) → IsKeyed m → IsKeyed (load m rs)
unfolding load
load-IsKeyed m [] h = h
load-IsKeyed m (r ∷ rs) h =
    let ref : NoteRef = record { scope = r.scope; path = r.path } in
    load-IsKeyed (put dec_text (ref_string ref) r.note_id m) rs (put-IsKeyed ref r.note_id m h)

new_store-IsKeyed : (file : Content) (s : FileStore) → new_store file ≡ ok s → IsKeyed s.entries
unfolding new_store
new_store-IsKeyed absent s h = subst (λ x. IsKeyed x.entries) (ok_store h) (tt, tt)
new_store-IsKeyed (holds rs) s h =
    subst (λ x. IsKeyed x.entries) (ok_store h) (load-IsKeyed [] rs (tt, tt))
new_store-IsKeyed (broken e) s h = absurd (cc)

add_refs-IsKeyed :
    (adds : List Adding) (s : FileStore) → IsKeyed s.entries → IsKeyed (add_refs adds s).entries
unfolding add_refs add_ref add
add_refs-IsKeyed [] s h = h
add_refs-IsKeyed (a ∷ adds) s h =
    add_refs-IsKeyed adds (add_ref a s) (put-IsKeyed a.ref a.note_id s.entries h)

-- A tombstone that is added is one at once, also where the file could not be written. After any additions,
-- refused writes among them, the next one whose write is not refused saves them all: a start from the file
-- succeeds, and exactly the references that are tombstones before it are tombstones behind it. Where the
-- last write was refused nothing is said of the file.
pub new_store-add_refs :
    (file : Content) (s : FileStore) (adds : List Adding) (ref : NoteRef) (note_id : Text)
    → new_store file ≡ ok s
    → let last = λ (o : Option Content).
      add_ref (record { ref = ref; note_id = note_id; left = o }) (add_refs adds s) in
      ((o : Option Content) → contains_ref ref (last o).entries ≡ true)
      × (v : FileStore) × (new_store (last none).file ≡ ok v)
      × ((q : NoteRef) → contains_ref q v.entries ≡ contains_ref q (last none).entries)
unfolding add_ref add new_store written
new_store-add_refs file s adds ref note_id h =
    let m = (add_refs adds s).entries in
    let saved = put dec_text (ref_string ref) note_id m in
    let keyed = put-IsKeyed ref note_id m (add_refs-IsKeyed adds s (new_store-IsKeyed file s h)) in
    (
      λ o. added ref note_id m,
      record { entries = load [] (flush saved); file = holds (flush saved) },
      refl,
      λ q. contains_ref-load saved q keyed,
    )
