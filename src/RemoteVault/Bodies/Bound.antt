-- ===== src/RemoteVault/Bodies/Bound.antt =====
-- The bound of the body cache, and what a read returns.
use para_mcp.Prelude.{
  ℕ, ◌+◌, ◌≤◌, ◌≡◌, refl, ap, ◌∙◌, Option, none, some, ltb, length, if◌then◌else◌, arith,
  Bool-cases, inl, inr,
}
use para_mcp.Prelude.Text.{Text, dec_text}
use para_mcp.Prelude.Assoc.{Assoc, get, put, get-put}
use para_mcp.Domain.Entities.{Note, Time}
use para_mcp.RemoteVault.Bodies.{
  BodyEntry, Elem, BodyCache, body_cache_max, body_cache_ttl, remove_locked, read, get_body,
  invalidate, evict, push_back, estimated_size, set_body,
}
use para_mcp.RemoteVault.Bodies.Links.{
  sum, IsLinked, sum-append, sum-remove-le, remove_locked-IsLinked, invalidate-IsLinked,
}
use para_mcp.RemoteVault.Bodies.Evict.{Fits, evict-IsLinked}
use para_mcp.RemoteVault.Bodies.Push.{push_back-IsLinked}

-- The invariant: the cache is linked and holds at most 64 MiB.
pub record IsCache (c : BodyCache) : Type 0 where
  pub links : IsLinked c
  pub bounded : sum c.order ≤ body_cache_max

newest :
    {K V : Type 0} (dec : Discrete K) (k : K) (v : V) (m : Assoc K V)
    → get dec k (put dec k v m) ≡ some v
newest dec k v m = ground (arith, get-put dec k k v m)

read_of :
    (now : Time) (path : Text) (e : Elem) (c : BodyCache)
    → (read now path c (some e)).0 ≡ (if ltb e.1.expiry now then none else some e.1.note)
read_of now path e c = ground arith

read-IsCache :
    (now : Time) (path : Text) (c : BodyCache) (o : Option Elem)
    → get dec_text path c.entries ≡ o
    → IsCache c
    → IsCache (read now path c o).1
unfolding remove_locked
read-IsCache now path c none p i = i
read-IsCache now path c (some e) p i = elim (Bool-cases (ltb e.1.expiry now)) [
  | inl old ↦ rw old (record {
    links = remove_locked-IsLinked path e c p i.links;
    bounded = omega (arith, i.bounded, sum-remove-le e.0 c.order);
  })
  | inr live ↦ rw live i
]

-- Storing a note keeps the cache linked and within its bound. A note that is not larger than the bound
-- can be read for five minutes; a larger one is not in the cache, and nothing else under its path.
pub set_body-IsCache :
    (now later : Time) (path : Text) (n : Note) (c : BodyCache)
    → IsCache c
    → IsCache (set_body now path n c)
      × ((get_body later path (set_body now path n c)).0 ≡ (
          if ltb body_cache_max (estimated_size n)
          then none
          else if ltb (now + body_cache_ttl) later
          then none
          else some n))
unfolding set_body get_body push_back
set_body-IsCache now later path n c i = elim (Bool-cases (ltb body_cache_max size)) [
  | inl large ↦
      rw large (record { links = e.0; bounded = e.3 }, ap (λ o. (read later path c2 o).0) e.1)
  | inr small ↦ rw small (
    record {
      links = push_back-IsLinked path entry c2 refl e.0 e.1;
      bounded = pushed (e.2 (ground arith));
    },
    found,
  )
]
  where
    size : ℕ
    size = estimated_size n

    c1 : BodyCache
    c1 = invalidate path c

    c2 : BodyCache
    c2 = evict (length c1.order) size c1

    entry : BodyEntry
    entry = record { path = path; note = n; expiry = now + body_cache_ttl; size_b = size }

    e :
        IsLinked c2
        × (get dec_text path c2.entries ≡ none)
        × (size ≤ body_cache_max → Fits size c2)
        × (sum c2.order ≤ body_cache_max)
    e =
        let (l, absent, lighter) = invalidate-IsLinked path c i.links in
        evict-IsLinked (length c1.order) size body_cache_max path c1 (omega arith)
          (omega (arith, i.bounded)) l absent

    pushed : Fits size c2 → sum (push_back path entry c2).order ≤ body_cache_max
    pushed f = omega (arith, sum-append c2.order (c2.next, entry), f)

    found :
        (get_body later path (push_back path entry c2)).0
        ≡ (if ltb (now + body_cache_ttl) later then none else some n)
    found =
        ap (λ o. (read later path (push_back path entry c2) o).0)
          (newest dec_text path (c2.next, entry) c2.entries)
        ∙ read_of later path (c2.next, entry) (push_back path entry c2)

-- A read and an invalidation keep the cache linked and within its bound; behind the invalidation the
-- path cannot be read.
pub invalidate-IsCache :
    (now later : Time) (path other : Text) (c : BodyCache)
    → IsCache c
    → IsCache (get_body now other c).1
      × IsCache (invalidate path c)
      × ((get_body later path (invalidate path c)).0 ≡ none)
unfolding get_body
invalidate-IsCache now later path other c i =
    let (l, absent, lighter) = invalidate-IsLinked path c i.links in
    (
      read-IsCache now other c (get dec_text other c.entries) refl i,
      record { links = l; bounded = omega (arith, i.bounded) },
      ap (λ o. (read later path (invalidate path c) o).0) absent,
    )
