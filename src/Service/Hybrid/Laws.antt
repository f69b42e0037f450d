-- ===== src/Service/Hybrid/Laws.antt =====
-- application/service.go: what a hybrid search returns.
use mathlib.Core.List.{Permᴰ}
use para_mcp.Prelude.{
  ℕ, suc, ◌*◌, ◌≡◌, ◌≤◌, refl, ap, ◌∙◌, Bool, true, false, some, List, [], ◌∷◌, map, length, take,
  if◌then◌else◌, All, All-append, All-take, arith, Bool-cases, inl, inr, length-take-le,
}
use para_mcp.Prelude.Int.{ℤ, pos}
use para_mcp.Prelude.Sort.{All_perm, sort, All-sort}
use para_mcp.Prelude.Text.{Text, Unicode, contains}
use para_mcp.Domain.Results.{Result, ok, err, ◌>>=◌}
use para_mcp.Domain.Entities.{
  ScopeId, Note, NoteRef, NoteSummary, AuthFilter, RankedNote, Score, summary,
}
use para_mcp.Service.{Service, VectorHit, check_scopes}
use para_mcp.Service.Hybrid.{
  Fusion, Fused, same_ref, is_fused, bump, new_entry, fuse_lexical, fuse_semantic, fetched,
  fused_hits, hybrid_search, limit_of, ranked_before, to_ranked, or_no_hits, vector_hits,
}

module _ (P : NoteSummary → Type 0) (fu : Fusion) where
  abbrev AllFused : List Fused → Type 0
  AllFused = All (λ f. P f.summary)

  All-bump : (ref : NoteRef) (x : Score) (l : List Fused) → AllFused l → AllFused (bump fu ref x l)
  unfolding bump
  All-bump ref x [] h = tt
  All-bump ref x (f ∷ l) h = elim (Bool-cases (same_ref f.ref ref)) [
    | inl a ↦ rw a (h.0, h.1)
    | inr a ↦ rw a (h.0, All-bump ref x l h.1)
  ]

  All-if : (b : Bool) (l m : List Fused) → AllFused l → AllFused m → AllFused (if b then l else m)
  All-if true l m h k = h
  All-if false l m h k = k

  All-new_entry :
      (ref : NoteRef) (s : NoteSummary) (x : Score) (l : List Fused)
      → P s
      → AllFused l
      → AllFused (new_entry fu ref s x l)
  All-new_entry ref s x l p h =
      All-append (λ f. P f.summary) l (record { ref = ref; summary = s; score = fu.add 0 x } ∷ []) h
        (p, tt)

  All-fuse_lexical :
      (i : ℕ) (ns : List RankedNote) (l : List Fused)
      → All (λ n. P n.summary) ns
      → AllFused l
      → AllFused (fuse_lexical fu i ns l)
  unfolding fuse_lexical
  All-fuse_lexical i [] l k h = h
  All-fuse_lexical i (n ∷ ns) l k h =
      All-fuse_lexical (suc i) ns
        (if is_fused n.summary.ref l
          then bump fu n.summary.ref (fu.lexical i) l
          else new_entry fu n.summary.ref n.summary (fu.lexical i) l)
        k.1
        (All-if (is_fused n.summary.ref l) (bump fu n.summary.ref (fu.lexical i) l)
          (new_entry fu n.summary.ref n.summary (fu.lexical i) l)
          (All-bump n.summary.ref (fu.lexical i) l h)
          (All-new_entry n.summary.ref n.summary (fu.lexical i) l k.0 h))

  All-to_ranked : (l : List Fused) → AllFused l → All (λ n. P n.summary) (map to_ranked l)
  All-to_ranked [] h = tt
  All-to_ranked (f ∷ l) h = (h.0, All-to_ranked l h.1)

module _ (P : NoteSummary → Type 0) (u : Unicode) (nfc : Text → Text) {W : Type 0} (fu : Fusion)
    (s : Service W) (w : W)
    (stored : (path : Text) (note : Note) → s.vault.get w path ≡ ok note → P (summary u note)) where
  All-fetched :
      (ref : NoteRef) (x : Score) (r : Result Note) (l : List Fused)
      → s.vault.get w ref.path ≡ r
      → AllFused P fu l
      → AllFused P fu (fetched u fu ref x r l)
  All-fetched ref x (err e) l a h = h
  All-fetched ref x (ok note) l a h =
      All-new_entry P fu ref (summary u note) x l (stored ref.path note a) h

  All-fuse_semantic :
      (i : ℕ) (hs : List VectorHit) (l : List Fused)
      → AllFused P fu l
      → AllFused P fu (fuse_semantic u nfc fu s w i hs l)
  unfolding fuse_semantic
  All-fuse_semantic i [] l k = k
  All-fuse_semantic i (h ∷ hs) l k =
      All-fuse_semantic (suc i) hs
        (if is_fused h.ref l
          then bump fu h.ref (fu.semantic i) l
          else fetched u fu h.ref (fu.semantic i) (s.vault.get w h.ref.path) l)
        (All-if P fu (is_fused h.ref l) (bump fu h.ref (fu.semantic i) l)
          (fetched u fu h.ref (fu.semantic i) (s.vault.get w h.ref.path) l)
          (All-bump P fu h.ref (fu.semantic i) l k)
          (All-fetched h.ref (fu.semantic i) (s.vault.get w h.ref.path) l refl k))

  -- A hybrid search that is asked with scopes never fails, whatever its two searches answer; it has at most
  -- as many results as the limit, and whatever holds of the lexical hits and of each note that the vault
  -- has holds of every result, in whichever order the map is iterated.
  pub hybrid_search_lem :
      (arrange : List Fused → List Fused) (text : Text) (f : AuthFilter) (limit : ℤ)
      (allowed : List ScopeId)
      → ((l : List Fused) → Permᴰ (arrange l) l)
      → f.allowed_scopes ≡ some allowed
      → All
          (λ n. P n.summary)
          (or_no_hits (s.vault.search w text f.filter (pos (limit_of limit * 4))))
      → (out : List RankedNote) × (hybrid_search u nfc fu arrange s w text f limit ≡ ok out)
        × (length out ≤ limit_of limit)
        × All (λ n. P n.summary) out
  unfolding hybrid_search fused_hits check_scopes
  hybrid_search_lem arrange text f limit allowed p a k =
      let (out, e, b, c) = answered (contains s.vault.scope allowed) in
      (
        out,
        ap
              (λ o.
                check_scopes u nfc s o
                >>= (λ b. if b then ok (take (limit_of limit) ranked) else ok []))
              a
            ∙ e,
        b,
        c,
      )
    where
      ranked : List RankedNote
      ranked =
          sort ranked_before
            (map to_ranked (arrange (fused_hits u nfc fu s w text f (limit_of limit))))

      fused : AllFused P fu (fused_hits u nfc fu s w text f (limit_of limit))
      fused =
          All-fuse_semantic 0 (vector_hits u nfc fu s.searcher w text f (limit_of limit * 4))
            (fuse_lexical fu 0
              (or_no_hits (s.vault.search w text f.filter (pos (limit_of limit * 4)))) [])
            (All-fuse_lexical P fu 0
              (or_no_hits (s.vault.search w text f.filter (pos (limit_of limit * 4)))) [] k tt)

      answered :
          (b : Bool)
          → (out : List RankedNote) × ((if b then ok (take (limit_of limit) ranked) else ok [])
              ≡ ok out)
            × (length out ≤ limit_of limit)
            × All (λ n. P n.summary) out
      answered false = ([], refl, omega arith, tt)
      answered true = (
        take (limit_of limit) ranked,
        refl,
        length-take-le (limit_of limit) ranked,
        All-take (λ n. P n.summary) (limit_of limit) ranked
            (All-sort ranked_before (λ n. P n.summary)
              (map to_ranked (arrange (fused_hits u nfc fu s w text f (limit_of limit))))
              (All-to_ranked P fu (arrange (fused_hits u nfc fu s w text f (limit_of limit))) (
                All_perm (λ g. P g.summary) (p (fused_hits u nfc fu s w text f (limit_of limit)))
                  fused))),
      )
