-- ===== src/Service/Hybrid.antt =====
-- application/service.go: `HybridSearch`, which fuses the lexical and the vector hits of one vault.
pub mod Laws
use para_mcp.Prelude.{
  ℕ, zero, suc, ◌≡◌, ◌≤◌, refl, Bool, true, false, not, ◌&&◌, Option, none, some, List, [], ◌∷◌,
  ◌++◌, ltb, leb, any, map, length, take, ◌*◌, if◌then◌else◌, All, All-append, All-take, All-imp,
  arith, Bool-cases, inl, inr, length-take-le,
}
use para_mcp.Prelude.Int.{ℤ, pos, negsuc}
use para_mcp.Prelude.Sort.{sort}
use para_mcp.Prelude.Text.{Text, Unicode, same}
use para_mcp.Domain.Results.{Result, ok, err, ◌>>=◌}
use para_mcp.Domain.Entities.{
  ScopeId, Note, NoteRef, NoteSummary, AuthFilter, RankedNote, Score, summary,
}
use para_mcp.Service.{Service, Searcher, SemanticOptions, VectorHit, other_mode, check_scopes}

-- The arithmetic of the fused scores: the sum, and what a rank adds in either list.
pub record Fusion : Type 0 where
  pub add : Score → Score → Score
  pub lexical : ℕ → Score
  pub semantic : ℕ → Score

-- the local type `fused`
pub record Fused : Type 0 where
  pub ref : NoteRef
  pub summary : NoteSummary
  pub score : Score

abbrev pub same_ref : NoteRef → NoteRef → Bool
same_ref a b = same a.scope b.scope && same a.path b.path

abbrev pub is_fused : NoteRef → List Fused → Bool
is_fused ref l = any (λ f. same_ref f.ref ref) l

abbrev pub limit_of : ℤ → ℕ
limit_of (negsuc n) = 10
limit_of (pos zero) = 10
limit_of (pos (suc n)) = suc n

abbrev pub ranked_before : RankedNote → RankedNote → Bool
ranked_before a b = leb b.score a.score

module _ (fu : Fusion) where
  -- `f.score +=` at the entry of a reference
  unfoldable pub bump : NoteRef → Score → List Fused → List Fused
  bump ref x [] = []
  bump ref x (f ∷ l) =
      let rest = bump ref x l in
      if same_ref f.ref ref then record f { score = fu.add f.score x } ∷ l else f ∷ rest

  -- a new entry, with its first score
  abbrev pub new_entry : NoteRef → NoteSummary → Score → List Fused → List Fused
  new_entry ref s x l = l ++ record { ref = ref; summary = s; score = fu.add 0 x } ∷ []

  -- the loop over the lexical hits, from rank `i`
  unfoldable pub fuse_lexical : ℕ → List RankedNote → List Fused → List Fused
  unfolding bump
  fuse_lexical i [] l = l
  fuse_lexical i (n ∷ ns) l = fuse_lexical (suc i) ns (
      if is_fused n.summary.ref l
      then bump n.summary.ref (fu.lexical i) l
      else new_entry n.summary.ref n.summary (fu.lexical i) l)

-- a search that fails finds nothing
abbrev pub or_no_hits : {A : Type 0} → Result (List A) → List A
or_no_hits (err e) = []
or_no_hits (ok l) = l

abbrev pub to_ranked : Fused → RankedNote
to_ranked f = record { summary = f.summary; score = f.score; body = [] }

module _ (u : Unicode) (fu : Fusion) where
  -- a hit of a note that is not there adds nothing
  abbrev pub fetched : NoteRef → Score → Result Note → List Fused → List Fused
  fetched ref x (err e) l = l
  fetched ref x (ok note) l = new_entry fu ref (summary u note) x l

module _ (u : Unicode) (nfc : Text → Text) {W : Type 0} (fu : Fusion) where
  -- the loop over the vector hits
  unfoldable pub fuse_semantic : Service W → W → ℕ → List VectorHit → List Fused → List Fused
  unfolding bump
  fuse_semantic s w i [] l = l
  fuse_semantic s w i (h ∷ hs) l = fuse_semantic s w (suc i) hs (
      if is_fused h.ref l
      then bump fu h.ref (fu.semantic i) l
      else fetched u fu h.ref (fu.semantic i) (s.vault.get w h.ref.path) l)

  abbrev pub vector_hits : Option (Searcher W) → W → Text → AuthFilter → ℕ → List VectorHit
  vector_hits none w text f n = []
  vector_hits (some find) w text f n =
      or_no_hits
        (find w text f (record { limit = pos n; threshold = 0; body_mode = other_mode [] }))

  -- both searches and both loops; `limit` is the number of results
  unfoldable pub fused_hits : Service W → W → Text → AuthFilter → ℕ → List Fused
  unfolding fuse_lexical fuse_semantic
  fused_hits s w text f limit =
      fuse_semantic s w 0 (vector_hits s.searcher w text f (limit * 4))
        (fuse_lexical fu 0 (or_no_hits (s.vault.search w text f.filter (pos (limit * 4)))) [])

  -- `HybridSearch`; `arrange` is the order in which the map is iterated
  unfoldable pub hybrid_search :
      (List Fused → List Fused) → Service W → W → Text → AuthFilter → ℤ → Result (List RankedNote)
  unfolding fused_hits check_scopes
  hybrid_search arrange s w text f limit = do
    allowed ← check_scopes u nfc s f.allowed_scopes
    if allowed
        then ok (
            take (limit_of limit) (
              sort ranked_before
                (map to_ranked (arrange (fused_hits s w text f (limit_of limit))))))
        else ok []
