-- ===== src/RemoteVault/Bodies.antt =====
-- infra/remotevault/cache.go: `bodyCache`, the notes by path, the oldest dropped first.
pub mod Links
pub mod Evict
pub mod Push
pub mod Bound
use para_mcp.Prelude.{
  ℕ, zero, suc, ◌+◌, ◌*◌, ◌≡◌, Bool, true, false, Option, none, some, List, [], ◌∷◌, ◌++◌, ltb,
  length, if◌then◌else◌, ℕ_discrete,
}
use para_mcp.Prelude.Int.{ℤ, pos, negsuc, ◌+ℤ◌, ltb_ℤ, sub_ℕ}
use para_mcp.Prelude.Text.{Text, dec_text, byte_length}
use para_mcp.Prelude.Assoc.{Assoc, get, put, remove}
use para_mcp.Domain.Entities.{Note, Time}

-- `bodyCacheEntry`
pub record BodyEntry : Type 0 where
  pub path : Text
  pub note : Note
  pub expiry : Time
  pub size_b : ℕ

-- an element of the list, by an identity that stands for its address
abbrev pub Elem : Type 0
Elem = ℕ × BodyEntry

-- `bodyCache`: the oldest element stands first, and `next` is the address of the next allocation.
pub record BodyCache : Type 0 where
  pub entries : Assoc Text Elem
  pub order : List Elem
  pub size_b : ℤ
  pub next : ℕ

-- 64 MiB
abbrev pub body_cache_max : ℕ
body_cache_max = 67108864

-- 5 minutes, in nanoseconds
abbrev pub body_cache_ttl : Time
body_cache_ttl = 300 * 1000000000

-- `newBodyCache`
abbrev pub new_body_cache : BodyCache
new_body_cache = record { entries = []; order = []; size_b = pos 0; next = 0 }

-- subtraction of a size
unfoldable pub minus : ℤ → ℕ → ℤ
minus (pos a) b = sub_ℕ a b
minus (negsuc a) b = negsuc (a + b)

-- `removeLocked`
unfoldable pub remove_locked : Text → Elem → ℕ → BodyCache → BodyCache
unfolding remove minus ℕ_discrete
remove_locked path elem size c = record c {
  entries = remove dec_text path c.entries;
  order = remove ℕ_discrete elem.0 c.order;
  size_b = minus c.size_b size;
}

-- `get`
abbrev pub read : Time → Text → BodyCache → Option Elem → Option Note × BodyCache
read now path c none = (none, c)
read now path c (some e) =
    if ltb e.1.expiry now then (none, remove_locked path e e.1.size_b c) else (some e.1.note, c)

unfoldable pub get_body : Time → Text → BodyCache → Option Note × BodyCache
unfolding get remove_locked
get_body now path c = read now path c (get dec_text path c.entries)

abbrev pub drop_entry : Text → BodyCache → Option Elem → BodyCache
drop_entry path c none = c
drop_entry path c (some e) = remove_locked path e e.1.size_b c

-- `invalidate`
unfoldable pub invalidate : Text → BodyCache → BodyCache
unfolding get remove_locked
invalidate path c = drop_entry path c (get dec_text path c.entries)

-- `invalidateAll`
abbrev pub invalidate_all : BodyCache → BodyCache
invalidate_all c = record { entries = []; order = []; size_b = pos 0; next = c.next }

abbrev pub drop_front : BodyCache → List Elem → BodyCache
drop_front c [] = c
drop_front c (front ∷ rest) = remove_locked front.1.path front front.1.size_b c

-- the loop that evicts the oldest entries, on fuel
unfoldable pub evict : ℕ → ℕ → BodyCache → BodyCache
unfolding remove_locked
evict zero size c = c
evict (suc fuel) size c =
    let rest = evict fuel size (drop_front c c.order) in
    if ltb_ℤ (pos body_cache_max) (c.size_b +ℤ pos size)
    then (if ltb 0 (length c.order) then rest else c)
    else c

-- `PushBack`, and the entry in the map
unfoldable pub push_back : Text → BodyEntry → BodyCache → BodyCache
unfolding put
push_back path entry c = record {
  entries = put dec_text path (c.next, entry) c.entries;
  order = c.order ++ (c.next, entry) ∷ [];
  size_b = c.size_b +ℤ pos entry.size_b;
  next = suc c.next;
}

unfoldable pub estimated_size : Note → ℕ
unfolding byte_length
estimated_size n = byte_length n.body + byte_length n.etag + byte_length n.ref.path + 64

-- `set`
unfoldable pub set_body : Time → Text → Note → BodyCache → BodyCache
unfolding invalidate evict push_back estimated_size
set_body now path n c =
    let size = estimated_size n in
    let c1 = invalidate path c in
    let c2 = evict (length c1.order) size c1 in
    if ltb body_cache_max size
    then c2
    else push_back path
        (record { path = path; note = n; expiry = now + body_cache_ttl; size_b = size }) c2
