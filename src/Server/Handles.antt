-- ===== src/Server/Handles.antt =====
-- server/cursorstore/cursorstore.go: the in-memory store of cursor handles.
use para_mcp.Prelude.{
  ℕ, ◌+◌, ◌≤◌, ◌≡◌, refl, ap, ◌∙◌, Bool, true, false, not, Option, none, some, [], arith, ltb, leb,
  length, keep, if◌then◌else◌, Bool-cases, inl, inr,
}
use para_mcp.Prelude.Text.{Text, dec_text, same}
use para_mcp.Prelude.Assoc.{
  Assoc, get, put, remove, get-put, get-remove, get-keep, Distinct, Distinct-put, Distinct-remove,
  Distinct-keep, passing,
}
use para_mcp.Domain.Entities.{Time}

-- `memEntry`
pub record Handle : Type 0 where
  pub blob : Text
  pub expiry : Time

-- `InMemory`
pub record Handles : Type 0 where
  pub entries : Assoc Text Handle
  pub max_entries : ℕ

abbrev pub default_max_entries : ℕ
default_max_entries = 10000

-- `NewInMemory`
abbrev pub new_in_memory : ℕ → Handles
new_in_memory n = record { entries = []; max_entries = n }

-- `!now.After(e.expiry)`
abbrev pub is_live : Time → Handle → Bool
is_live now h = not (ltb h.expiry now)

abbrev cursor_of : Option Handle → Option Text
cursor_of none = none
cursor_of (some h) = some h.blob

-- what a handle stands for at a time
unfoldable pub view : Handles → Time → Text → Option Text
unfolding get
view s now id = cursor_of (passing dec_text (is_live now) (get dec_text id s.entries))

-- `Get`; `none` is the error. An absent or expired handle is deleted.
abbrev got : Handles → Time → Text → Option Handle → Option Text × Handles
got s now id none = (none, record s { entries = remove dec_text id s.entries })
got s now id (some h) =
    if ltb h.expiry now
    then (none, record s { entries = remove dec_text id s.entries })
    else (some h.blob, s)

unfoldable pub get_handle : Time → Text → Handles → Option Text × Handles
unfolding get remove
get_handle now id s = got s now id (get dec_text id s.entries)

-- `Put`, which deletes what has expired first where the store is full
unfoldable pub put_handle : Time → Text → Text → Time → Handles → Handles
unfolding put
put_handle now id blob ttl s =
    let swept =
      if leb s.max_entries (length s.entries)
      then keep (λ e. is_live now e.1) s.entries
      else s.entries in
    record s { entries = put dec_text id (record { blob = blob; expiry = now + ttl }) swept }

-- `Delete`
unfoldable pub delete_handle : Text → Handles → Handles
unfolding remove
delete_handle id s = record s { entries = remove dec_text id s.entries }

abbrev pub IsHandles : Handles → Type 0
IsHandles s = Distinct dec_text s.entries

later_passing :
    (now later : Time) (o : Option Handle)
    → now ≤ later
    → passing dec_text (is_live later) (passing dec_text (is_live now) o)
      ≡ passing dec_text (is_live later) o
later_passing now later none h = refl
later_passing now later (some e) h = ground arith

swept_view :
    (now later : Time) (id : Text) (full : Bool) (m : Assoc Text Handle)
    → Distinct dec_text m
    → now ≤ later
    → Distinct dec_text (if full then keep (λ e. is_live now e.1) m else m)
      × (passing dec_text
            (is_live later)
            (get dec_text id (if full then keep (λ e. is_live now e.1) m else m))
          ≡ passing dec_text (is_live later) (get dec_text id m))
swept_view now later id false m d h = (d, refl)
swept_view now later id true m d h = (
  Distinct-keep dec_text (is_live now) m d,
  ap (passing dec_text (is_live later)) (get-keep dec_text (is_live now) id m d)
      ∙ later_passing now later (get dec_text id m) h,
)

-- Storing a handle makes it readable until its time to live is over, and changes no other handle, now or
-- later, also where the store is full and swept first.
pub put_handle-view :
    (now later : Time) (id k blob : Text) (ttl : Time) (s : Handles)
    → IsHandles s
    → now ≤ later
    → IsHandles (put_handle now id blob ttl s)
      × (view (put_handle now id blob ttl s) later k ≡ (
          if same id k
          then (if leb later (now + ttl) then some blob else none)
          else view s later k))
unfolding put_handle view
put_handle-view now later id k blob ttl s d h =
    let full = leb s.max_entries (length s.entries) in
    let entry : Handle = record { blob = blob; expiry = now + ttl } in
    let (d', v) = swept_view now later k full s.entries d h in
    let m = if full then keep (λ e. is_live now e.1) s.entries else s.entries in
    (Distinct-put dec_text id entry m d', stored m v)
  where
    stored :
        (m : Assoc Text Handle)
        → passing dec_text (is_live later) (get dec_text k m)
          ≡ passing dec_text (is_live later) (get dec_text k s.entries)
        → cursor_of (
            passing dec_text
              (is_live later)
              (get dec_text k (put dec_text id (record { blob = blob; expiry = now + ttl }) m)))
          ≡ (if same id k
              then (if leb later (now + ttl) then some blob else none)
              else cursor_of (passing dec_text (is_live later) (get dec_text k s.entries)))
    stored m v =
        ground (arith, get-put dec_text id k (record { blob = blob; expiry = now + ttl }) m)

-- Reading a handle returns what it stands for, and changes no handle, now or later.
pub get_handle-view :
    (now later : Time) (id k : Text) (s : Handles)
    → IsHandles s
    → now ≤ later
    → IsHandles (get_handle now id s).1
      × ((get_handle now id s).0 ≡ view s now id)
      × (view (get_handle now id s).1 later k ≡ view s later k)
unfolding get_handle view
get_handle-view now later id k s d h = go (get dec_text id s.entries) refl
  where
    Kept : Option Text × Handles → Option Handle → Type 0
    Kept out o =
        IsHandles out.1
        × (out.0 ≡ cursor_of (passing dec_text (is_live now) o))
        × (cursor_of (passing dec_text (is_live later) (get dec_text k out.1.entries))
            ≡ cursor_of (passing dec_text (is_live later) (get dec_text k s.entries)))

    dropped :
        (o : Option Handle)
        → get dec_text id s.entries ≡ o
        → passing dec_text (is_live later) o ≡ none
        → cursor_of
            (passing dec_text (is_live later) (get dec_text k (remove dec_text id s.entries)))
          ≡ cursor_of (passing dec_text (is_live later) (get dec_text k s.entries))
    dropped o p e = elim (dec_text id k) [
      | yes q ↦ ground (arith, get-remove dec_text id k s.entries)
      | no q ↦ ground (arith, get-remove dec_text id k s.entries)
    ]

    go : (o : Option Handle) → get dec_text id s.entries ≡ o → Kept (got s now id o) o
    go none p = (Distinct-remove dec_text id s.entries d, refl, dropped none p refl)
    go (some e) p = elim (Bool-cases (ltb e.expiry now)) [
      | inl old ↦
          rw old (Distinct-remove dec_text id s.entries d, refl, dropped (some e) p (ground arith))
      | inr live ↦ rw live (d, refl, refl)
    ]

-- Deleting a handle removes it, and no other.
pub delete_handle-view :
    (now : Time) (id k : Text) (s : Handles)
    → IsHandles s
    → IsHandles (delete_handle id s)
      × (view (delete_handle id s) now k ≡ (if same id k then none else view s now k))
unfolding delete_handle view
delete_handle-view now id k s d =
    (Distinct-remove dec_text id s.entries d, ground (arith, get-remove dec_text id k s.entries))
