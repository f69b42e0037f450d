-- ===== src/Federation/Query/Page.antt =====
-- What a merged page holds.
use mathlib.Core.List.{Perm}
use para_mcp.Prelude.{
  ℕ, zero, suc, ◌+◌, ◌≤◌, ◌≡◌, refl, ◌∙◌, sym, Bool, true, false, not, Option, none, some, List, [],
  ◌∷◌, ◌++◌, arith, count, length, take, keep, All, All-append, All-take, All-keep, length-take,
  min, drop, take_of_length-le, subst, ap, ◌≢◌, ltb, if◌then◌else◌, Bool-cases, inl, inr,
}
use para_mcp.Prelude.Int.{ℤ, pos, negsuc, ◌+ℤ◌}
use para_mcp.Federation.{Registry}
use para_mcp.Prelude.Text.{Text, Unicode, contains}
use para_mcp.Prelude.Assoc.{Assoc}
use para_mcp.Prelude.Sort.{IsSorted, All-sort, length-sort}
use para_mcp.Domain.Filter.{is_empty}
use para_mcp.Domain.Results.{Result, ok, err, QueryResult, >>=-eq-ok}
use para_mcp.Domain.Entities.{ScopeId, NoteSummary, QueryRequest}
use para_mcp.Domain.Order.{in_order, sort_summaries, sort_summaries_lem}
use para_mcp.Federation.Tombstones.{Tombstones, contains_ref}
use para_mcp.Federation.Scopes.{Payload, offset_of, resolve}
use para_mcp.Federation.Query.{
  ScopeResult, Gathered, gather, cut_page, tally, total, count_at, partial, merge, assemble,
  next_payload, ask, answer, query,
}
use para_mcp.Federation.Query.Counts.{from_scope, count_at-tally, total-tally, offset_of-advance}

-- No gathered note is a tombstone.
pub All-gather :
    (dead : Tombstones) (rs : List ScopeResult)
    → All (λ n. contains_ref n.ref dead ≡ false) (gather dead rs).all_notes
unfolding gather
All-gather dead [] = tt
All-gather dead (r ∷ rs) = go r.res (All-gather dead rs)
  where
    go :
        (o : Result QueryResult)
        → All (λ n. contains_ref n.ref dead ≡ false) (gather dead rs).all_notes
        → All
            (λ n. contains_ref n.ref dead ≡ false)
            (gather dead (record { scope = r.scope; res = o } ∷ rs)).all_notes
    go (err e) h = h
    go (ok page) h =
        All-append (λ n. contains_ref n.ref dead ≡ false)
          (keep (λ n. not (contains_ref n.ref dead)) page.notes) (gather dead rs).all_notes
          (All-keep (λ n. contains_ref n.ref dead ≡ false) (λ n. not (contains_ref n.ref dead))
            page.notes (λ n p. ground arith))
          h

cut_page_lem :
    (limit : ℤ) (l page : List NoteSummary) (more : Bool)
    → cut_page limit l ≡ ok (page, more)
    → (n : ℕ) × (limit ≡ pos n) × (page ≡ take n l) × (more ≡ ltb n (length l))
unfolding cut_page
cut_page_lem (negsuc n) l page more h = absurd (cc h)
cut_page_lem (pos n) l page more h = elim (Bool-cases (ltb n (length l))) [
  | inl e ↦ (n, refl, ground arith, ground arith)
  | inr e ↦ (n, refl, ground (arith, take_of_length-le n l), ground arith)
]

length-sort_summaries :
    (q : QueryRequest) (notes : List NoteSummary)
    → length (sort_summaries notes q.sort q.desc) ≡ length notes
unfolding sort_summaries
length-sort_summaries q notes = length-sort (in_order q.sort q.desc) notes

ok_page : (a b : QueryResult) → ◌≡◌ {A = Result QueryResult} (ok a) (ok b) → a ≡ b
ok_page a b h = cc

total_of : (page : List NoteSummary) → total (tally [] page) ≡ length page
unfolding total
total_of page = total-tally [] page tt ∙ omega arith

count_of :
    (sc : ScopeId) (page : List NoteSummary)
    → count_at sc (tally [] page) ≡ count (from_scope sc) page
unfolding para_mcp.Prelude.Assoc.get
count_of sc page = count_at-tally sc [] page ∙ omega arith

answered_of : {l : List ScopeId} → is_empty l ≡ false → l ≢ []
answered_of e p = cc (e, ap (λ (l : List ScopeId). is_empty l) p)

module _ (q : QueryRequest) (scopes : List ScopeId) (offsets : Assoc ScopeId ℤ) (g : Gathered) where
  -- The page that the merge returns, in terms of the gathered notes and of the codec.
  pub record IsPage (encode : Payload → Result Text) (res : QueryResult) : Type 0 where
    pub size : ℕ
    pub limit : q.limit ≡ pos size
    pub answered : g.succeeded ≢ []
    pub first_notes : res.notes ≡ take size (sort_summaries g.all_notes q.sort q.desc)
    pub more : res.has_more ≡ ltb size (length g.all_notes)
    pub counted : res.total ≡ length res.notes
    pub attempts : res.scopes_attempted ≡ g.attempted
    pub successes : res.scopes_succeeded ≡ g.succeeded
    pub failures : res.partial_failure ≡ partial g.failed
    pub continued :
        (if res.has_more then encode (next_payload q scopes offsets res.notes) else ok [])
        ≡ ok res.next_cursor

  assemble-IsPage :
      (encode : Payload → Result Text) (page : List NoteSummary) (more : Bool) (cursor : Text)
      → is_empty g.succeeded ≡ false
      → cut_page q.limit (sort_summaries g.all_notes q.sort q.desc) ≡ ok (page, more)
      → (if more then encode (next_payload q scopes offsets page) else ok []) ≡ ok cursor
      → IsPage encode (assemble g page more cursor)
  assemble-IsPage encode page more cursor e cut enc =
      let sorted = sort_summaries g.all_notes q.sort q.desc in
      let (n, lim, first, m) = cut_page_lem q.limit sorted page more cut in
      record {
        size = n;
        limit = lim;
        answered = answered_of e;
        first_notes = first;
        more = m ∙ ap (ltb n) (length-sort_summaries q g.all_notes);
        counted = total_of page;
        attempts = refl;
        successes = refl;
        failures = refl;
        continued = enc;
      }

  pub merge-IsPage :
      (encode : Payload → Result Text) (res : QueryResult)
      → merge encode q scopes offsets g ≡ ok res
      → IsPage encode res
  unfolding merge
  merge-IsPage encode res h = elim (Bool-cases (is_empty g.succeeded)) [
    | inl e ↦ absurd (cc (rw e at h))
    | inr e ↦
        let sorted = sort_summaries g.all_notes q.sort q.desc in
        let ((page, more), cut, k) = >>=-eq-ok (cut_page q.limit sorted) _ (rw e at h) in
        let (cursor, enc, done) =
          >>=-eq-ok (if more then encode (next_payload q scopes offsets page) else ok [])
            (λ c. ok (assemble g page more c)) k in
        subst (IsPage encode) (ok_page (assemble g page more cursor) res done)
          (assemble-IsPage encode page more cursor e cut enc)
  ]

-- the notes of a result that are no tombstones
abbrev pub live_in : Tombstones → Result QueryResult → List NoteSummary
live_in dead (err e) = []
live_in dead (ok page) = keep (λ n. not (contains_ref n.ref dead)) page.notes

-- those of all results
abbrev pub live_notes : Tombstones → List ScopeResult → List NoteSummary
live_notes dead [] = []
live_notes dead (r ∷ rs) = live_in dead r.res ++ live_notes dead rs

gather-live_notes :
    (dead : Tombstones) (rs : List ScopeResult) → (gather dead rs).all_notes ≡ live_notes dead rs
unfolding gather
gather-live_notes dead [] = refl
gather-live_notes dead (r ∷ rs) = go r.res (gather-live_notes dead rs)
  where
    go :
        (o : Result QueryResult)
        → (gather dead rs).all_notes ≡ live_notes dead rs
        → (gather dead (record { scope = r.scope; res = o } ∷ rs)).all_notes
          ≡ live_in dead o ++ live_notes dead rs
    go (err e) h = h
    go (ok page) h = ap (λ l. live_in dead (ok page) ++ l) h

take-drop : (n : ℕ) (l : List NoteSummary) → take n l ++ drop n l ≡ l
take-drop zero l = refl
take-drop (suc n) [] = refl
take-drop (suc n) (x ∷ l) = ap (◌∷◌ x) (take-drop n l)

is_empty-drop : (n : ℕ) (l : List NoteSummary) → ltb n (length l) ≡ not (is_empty (drop n l))
is_empty-drop zero [] = ground arith
is_empty-drop zero (x ∷ l) = ground arith
is_empty-drop (suc n) [] = ground arith
is_empty-drop (suc n) (x ∷ l) = ground (arith, is_empty-drop n l)

-- A page and the live notes that it leaves out are together exactly the notes that the scopes returned and
-- that are no tombstones, in the order asked for, with the page in front: none is lost, and none is
-- shown more often than it was returned. The page is full where there are enough of them, it says that there is more exactly where it leaves
-- some out, and it counts its own notes. A page is returned only for a limit that is not negative.
pub merge_lem :
    (encode : Payload → Result Text) (q : QueryRequest) (scopes : List ScopeId)
    (offsets : Assoc ScopeId ℤ) (dead : Tombstones) (rs : List ScopeResult) (res : QueryResult)
    → merge encode q scopes offsets (gather dead rs) ≡ ok res
    → (n : ℕ) × (rest : List NoteSummary) × (q.limit ≡ pos n)
      × IsSorted (in_order q.sort q.desc) (res.notes ++ rest)
      × Perm (res.notes ++ rest) (live_notes dead rs)
      × (length res.notes ≡ min n (length (live_notes dead rs)))
      × All (λ m. contains_ref m.ref dead ≡ false) res.notes
      × (res.has_more ≡ not (is_empty rest))
      × (res.total ≡ length res.notes)
merge_lem encode q scopes offsets dead rs res h =
    let g = gather dead rs in
    let p = merge-IsPage q scopes offsets g encode res h in
    let n = p.size in
    let sorted = sort_summaries g.all_notes q.sort q.desc in
    let whole = ap (λ l. l ++ drop n sorted) p.first_notes ∙ take-drop n sorted in
    let live = gather-live_notes dead rs in
    (
      n,
      drop n sorted,
      p.limit,
      rw whole (sort_summaries_lem g.all_notes q.sort q.desc).0,
      rw whole (subst (Perm sorted) live (sort_summaries_lem g.all_notes q.sort q.desc).1),
      ap length p.first_notes
          ∙ length-take n sorted
          ∙ ap (min n) (length-sort_summaries q g.all_notes ∙ ap length live),
      rw p.first_notes (
          All-take (λ m. contains_ref m.ref dead ≡ false) n sorted
            (unfold sort_summaries in
              All-sort (in_order q.sort q.desc) (λ m. contains_ref m.ref dead ≡ false) g.all_notes
                (All-gather dead rs))),
      p.more ∙ ap (ltb n) (sym (length-sort_summaries q g.all_notes)) ∙ is_empty-drop n sorted,
      p.counted,
    )

-- The offset of a scope in the next request is its offset in this one and the notes of it on the page.
next_payload_lem :
    (q : QueryRequest) (scopes : List ScopeId) (offsets : Assoc ScopeId ℤ) (page : List NoteSummary)
    (sc : ScopeId)
    → contains sc scopes ≡ true
    → offset_of sc (next_payload q scopes offsets page).offsets
      ≡ offset_of sc offsets +ℤ pos (count (from_scope sc) page)
next_payload_lem q scopes offsets page sc h =
    offset_of-advance sc offsets (tally [] page) scopes []
    ∙ rw h (ap (λ k. offset_of sc offsets +ℤ pos k) (count_of sc page))

-- No page of the federation shows a tombstone.
pub query-live :
    (u : Unicode) (nfc : Text → Text) {W : Type 0} (r : Registry W)
    (arrive : List ScopeResult → List ScopeResult) (decode : Text → Result Payload)
    (encode : Payload → Result Text) (dead : Tombstones) (w : W) (q : QueryRequest)
    (res : QueryResult)
    → query u nfc r arrive decode encode dead w q ≡ ok res
    → All (λ m. contains_ref m.ref dead ≡ false) res.notes
unfolding query answer
query-live u nfc r arrive decode encode dead w q res h = go q.allowed_scopes h
  where
    go :
        (o : Option (List ScopeId))
        → answer u nfc r arrive decode encode dead w q o ≡ ok res
        → All (λ m. contains_ref m.ref dead ≡ false) res.notes
    go none k = absurd (cc k)
    go (some allowed) k =
        let (reach, reached, k2) =
          >>=-eq-ok (resolve r decode allowed q)
            (λ x. merge encode q x.0 x.1 (gather dead (arrive (ask u nfc r arrive w q x.1 x.0))))
            k in
        (merge_lem encode q reach.0 reach.1 dead (arrive (ask u nfc r arrive w q reach.1 reach.0))
          res k2).6
