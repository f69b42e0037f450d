-- ===== src/Service/Search.antt =====
-- application/service.go: `SemanticSearch`, `Related` and `Stale`.
use para_mcp.Prelude.{
  false, not, ◌&&◌, ◌||◌, Option, none, some, List, [], ◌∷◌, ltb, ◌==◌, ◌+◌, ◌-◌, ℕ, length,
  if◌then◌else◌,
}
use para_mcp.Prelude.Int.{ℤ, pos, ◌+ℤ◌, ltb_ℤ}
use para_mcp.Prelude.Text.{Text, Unicode, same}
use para_mcp.Domain.Results.{Result, ok, err, panic, capability_unavailable, QueryResult, ◌>>=◌}
use para_mcp.Domain.Entities.{
  ScopeId, Category, Time, Note, NoteRef, Filter, AuthFilter, QueryRequest, RankedNote, by_updated,
  other_field, summary,
}
use para_mcp.Domain.Filter.{is_empty}
use para_mcp.Domain.Related.{rank_related}
use para_mcp.Service.{
  Service, SemanticOptions, VectorHit, BodyMode, body_never, body_on_demand, check_scopes,
  normalize_ref, query, no_results,
}

-- how many hits may carry a body
abbrev pub body_cap : SemanticOptions → ℕ → ℕ
body_cap o hits = elim o.body_mode [
  | body_on_demand ↦ if o.threshold == 0 && ltb 3 hits then 3 else hits
  | _ ↦ hits
]

-- the zero filter and the zero request, which the options fill
abbrev pub no_filter : Filter
no_filter = record {
  scopes = [];
  categories = [];
  include_archives = false;
  tags = [];
  any_tags = [];
  status = [];
  area = [];
  project = [];
  text = [];
  updated_after = none;
  updated_before = none;
  purpose = [];
  entities = [];
}

abbrev pub no_request : QueryRequest
no_request = record {
  filter = no_filter;
  allowed_scopes = none;
  sort = other_field [];
  desc = false;
  limit = pos 0;
  offset = pos 0;
  cursor = [];
}

abbrev pub scan_request : Filter → ℤ → QueryRequest
scan_request f limit = record no_request { filter = f; limit = limit }

abbrev pub stale_request : Time → List Category → Text → ℤ → Option (List ScopeId) → QueryRequest
stale_request cutoff categories status limit allowed = record no_request {
  filter = record no_filter {
    status = status;
    updated_before = some cutoff;
    categories = categories;
  };
  allowed_scopes = allowed;
  sort = by_updated;
  limit = limit;
}

module _ (u : Unicode) (nfc : Text → Text) {W : Type 0} where
  -- the loop of `SemanticSearch`; `bodies` is how many of the next hits may carry a body
  unfoldable pub load_hits : Service W → W → BodyMode → ℕ → List VectorHit → List RankedNote
  load_hits s w mode bodies [] = []
  load_hits s w mode bodies (h ∷ hs) =
      let rest = load_hits s w mode (bodies - 1) hs in
      elim (s.vault.get w h.ref.path) [
        | err e ↦ rest
        | ok note ↦
            record {
              summary = summary u note;
              score = h.score;
              body = elim mode [ body_on_demand ↦ if ltb 0 bodies then note.body else [] | _ ↦ [] ];
            }
            ∷ rest
      ]

  -- `SemanticSearch`
  unfoldable pub semantic_search :
      Service W → W → Text → AuthFilter → SemanticOptions → Result (List RankedNote)
  unfolding check_scopes load_hits
  semantic_search s w text f o = elim s.searcher [
    | none ↦ err capability_unavailable
    | some find ↦ do
      allowed ← check_scopes u nfc s f.allowed_scopes
      if allowed
          then (do
            hits ←
                find w text f
                  (record o { limit = if ltb_ℤ (pos 0) o.limit then o.limit else pos 10 })
            ok (load_hits s w o.body_mode (body_cap o (length hits)) hits))
          else ok []
  ]

  -- the loop of `Related` over the hits: the note itself and notes that are gone are passed over, and
  -- it ends when `limit` notes are found
  unfoldable pub related_hits :
      Service W → W → ScopeId → Text → ℤ → ℕ → List VectorHit → List RankedNote
  related_hits s w scope path limit found [] = []
  related_hits s w scope path limit found (h ∷ hs) =
      let skip = related_hits s w scope path limit found hs in
      let more = related_hits s w scope path limit (found + 1) hs in
      if same h.ref.path path && same h.ref.scope scope
      then skip
      else elim (s.vault.get w h.ref.path) [
        | err e ↦ skip
        | ok note ↦
            record { summary = summary u note; score = h.score; body = [] }
            ∷ (if not (ltb_ℤ (pos (found + 1)) limit || ltb_ℤ limit (pos (found + 1)))
                then []
                else more)
      ]

  -- the branch of `Related` that the searcher serves; `none` where it falls through. Making a slice of a
  -- negative capacity is a run-time panic.
  unfoldable pub related_by_vector :
      Service W → W → ScopeId → Text → Note → ℤ → AuthFilter → Option (Result (List RankedNote))
  unfolding related_hits
  related_by_vector s w scope path note limit f = elim s.searcher [
    | none ↦ none
    | some find ↦
        if is_empty note.body
        then none
        else elim (find w note.body f
            (record { limit = limit +ℤ pos 1; threshold = 0; body_mode = body_never })) [
              | err e ↦ none
              | ok hits ↦ some (
                  if ltb_ℤ limit (pos 0)
                  then err panic
                  else ok (related_hits s w scope path limit 0 hits))
            ]
  ]

  -- `Related`
  unfoldable pub related : Service W → W → NoteRef → ℤ → AuthFilter → Result (List RankedNote)
  unfolding related_by_vector
  related s w ref limit f = do
    np ← normalize_ref u nfc s ref
    note ← s.vault.get w np.storage
    elim (related_by_vector s w ref.scope np.storage note limit f) [
      | some out ↦ out
      | none ↦ do
        found ← s.vault.query w (scan_request f.filter s.related_scan_limit)
        ok (rank_related u note found.notes np.storage limit)
    ]

  -- `Stale`; `cutoff` is the clock's time less the given days
  unfoldable pub stale :
      Service W → W → Time → List Category → Text → ℤ → AuthFilter → Result QueryResult
  unfolding check_scopes query
  stale s w cutoff categories status limit f = do
    allowed ← check_scopes u nfc s f.allowed_scopes
    if allowed
        then query u nfc s w (stale_request cutoff categories status limit f.allowed_scopes)
        else ok (record (no_results []) { scopes_attempted = []; scopes_succeeded = [] })
