-- ===== src/Storage/Local/Queries.antt =====
-- infrastructure/storage/localvault/queries.go.
pub mod Pages
pub mod Answers
use para_mcp.Prelude.{
  ℕ, zero, suc, ◌+◌, ◌-◌, ◌*◌, Bool, true, false, not, ◌&&◌, ◌||◌, Option, none, some, List, [],
  ◌∷◌, ◌++◌, ltb, leb, ◌==◌, min, take, drop, length, if◌then◌else◌,
}
use para_mcp.Prelude.Int.{ℤ, pos, negsuc, pos_part}
use para_mcp.Prelude.Assoc.{Assoc, get, put, values, passing}
use para_mcp.Prelude.Text.{Text, same, contains, dec_text, to_lower}
use para_mcp.Domain.Results.{Result, ok, err, QueryResult, ◌>>=◌}
use para_mcp.Domain.Entities.{
  Category, Note, NoteRef, NoteSummary, Filter, QueryRequest, RankedNote, BacklinkEntry, Time,
  CreateInput,
}
use para_mcp.Domain.Filter.{matches_filter, apply_filter}
use para_mcp.Domain.Order.{sort_summaries}
use para_mcp.Vault.{Vault}
use para_mcp.Storage.Notes.{index_key}
use para_mcp.Storage.Links.{BacklinkSrc, link_match_keys}
use para_mcp.Storage.Graph.{backlinks_of, Graph}
use para_mcp.Storage.Local.{Site, Local, SearchResult, normalize_path, read_note}
use para_mcp.Storage.Local.Mutations.{
  create, update_body, patch_front_matter, replace, move, delete,
}

-- the limit of a page, between 1 and 100
unfoldable pub page_limit : ℤ → ℕ
page_limit (negsuc n) = 20
page_limit (pos zero) = 20
page_limit (pos (suc n)) = if ltb 100 (suc n) then 100 else suc n

pub record VaultStats : Type 0 where
  pub total_notes : ℕ
  pub by_category : Assoc Category ℕ

abbrev pub count_or_zero : Option ℕ → ℕ
count_or_zero none = 0
count_or_zero (some n) = n

-- the callback of `Stats`
unfoldable pub count_note : NoteSummary → VaultStats → VaultStats
count_note s stats = record {
  total_notes = stats.total_notes + 1;
  by_category =
      put dec_text s.category (count_or_zero (get dec_text s.category stats.by_category) + 1)
        stats.by_category;
}

unfoldable pub count_notes : List NoteSummary → VaultStats → VaultStats
unfolding count_note
count_notes [] stats = stats
count_notes (s ∷ ss) stats = count_notes ss (count_note s stats)

-- The loop over the sources of one key and then the next: assets are passed over where they are not
-- asked for, and a path that was seen.
abbrev pub passes_over : Bool → List Text → BacklinkSrc → Bool
passes_over include_assets seen src = not include_assets && src.is_asset || contains src.path seen

abbrev pub also_seen : Bool → Text → List Text → List Text
also_seen skip path seen = if skip then seen else path ∷ seen

unfoldable pub distinct_sources : Bool → List Text → List BacklinkSrc → List BacklinkSrc
distinct_sources include_assets seen [] = []
distinct_sources include_assets seen (src ∷ srcs) =
    let skip = passes_over include_assets seen src in
    let rest = distinct_sources include_assets (also_seen skip src.path seen) srcs in
    if skip then rest else src ∷ rest

unfoldable pub sources_of : List Text → Graph → List BacklinkSrc
sources_of [] g = []
sources_of (k ∷ ks) g = backlinks_of k g ++ sources_of ks g

module _ {N : Type 0} {X : Type 0} (e : Site N X) where
  -- `Get`
  unfoldable pub get_note : Local X → Text → Result Note
  get_note w path = do np ← normalize_path e path; read_note e np.storage w

  -- the notes that a query pages through
  unfoldable pub matching : Local X → QueryRequest → List NoteSummary
  matching w q = sort_summaries (apply_filter e.unicode (values w.cache) q.filter) q.sort q.desc

  abbrev pub one_page : ℕ → List NoteSummary → Bool → QueryResult
  one_page total page has_more = record {
    notes = page;
    total = total;
    has_more = has_more;
    per_scope = (e.scope, length page) ∷ [];
    scopes_attempted = e.scope ∷ [];
    scopes_succeeded = e.scope ∷ [];
    partial_failure = none;
    next_cursor = [];
  }

  -- the page of a list
  unfoldable pub page : List NoteSummary → ℕ → ℕ → QueryResult
  page filtered limit offset =
      let total = length filtered in
      let stop = min (offset + limit) total in
      if leb total offset
      then one_page total [] false
      else one_page total (take (stop - offset) (drop offset filtered)) (ltb stop total)

  -- `Query`
  unfoldable pub query : Local X → QueryRequest → Result QueryResult
  unfolding page matching
  query w q = ok (page (matching w q) (page_limit q.limit) (pos_part q.offset))

  -- what a hit stands for: a cached note that the filter accepts
  unfoldable pub accepted : Local X → Filter → Text → Option NoteSummary
  accepted w f path =
      passing dec_text (λ s. matches_filter e.unicode s f)
        (get dec_text (index_key e.unicode path e.capabilities.case_sensitive) w.cache)

  -- the loop of `Search`; the number is how many results are still to come
  abbrev pub found :
      ℕ → Option NoteSummary → SearchResult → List RankedNote → List RankedNote → List RankedNote
  found n none h skip more = skip
  found n (some s) h skip more =
      record { summary = s; score = h.score; body = [] } ∷ (if n == 1 then [] else more)

  unfoldable pub search_hits : Local X → Filter → ℕ → List SearchResult → List RankedNote
  unfolding accepted
  search_hits w f n [] = []
  search_hits w f n (h ∷ hs) =
      let skip = search_hits w f n hs in
      let more = search_hits w f (n - 1) hs in found n (accepted w f h.ref.path) h skip more

  abbrev pub search_limit : ℤ → ℕ
  search_limit (negsuc n) = 20
  search_limit (pos zero) = 20
  search_limit (pos (suc n)) = suc n

  -- `Search`
  unfoldable pub search : Local X → Text → Filter → ℤ → Result (List RankedNote)
  unfolding search_hits
  search w text f limit =
      let n = search_limit limit in ok (search_hits w f n (e.fts.find text (pos (n * 3)) w.index))

  abbrev pub entry_of : Option NoteSummary → BacklinkSrc → List BacklinkEntry → List BacklinkEntry
  entry_of none src rest = rest
  entry_of (some s) src rest = record { summary = s; is_asset = src.is_asset } ∷ rest

  unfoldable pub entries : Local X → Filter → List BacklinkSrc → List BacklinkEntry
  unfolding accepted
  entries w f [] = []
  entries w f (src ∷ srcs) = entry_of (accepted w f src.path) src (entries w f srcs)

  -- `Backlinks`
  unfoldable pub backlinks : Local X → NoteRef → Bool → Filter → Result (List BacklinkEntry)
  unfolding entries distinct_sources sources_of
  backlinks w ref include_assets f = ok (
      entries w f (
        distinct_sources include_assets []
          (sources_of (link_match_keys e.unicode ref.path) w.graph)))

  -- `Stats`
  unfoldable pub stats : Local X → Result VaultStats
  unfolding count_notes
  stats w = ok (count_notes (values w.cache) (record { total_notes = 0; by_category = [] }))

  -- The storage port, at a reading of the clock.
  unfoldable pub local_vault : Time → Vault (Local X)
  unfolding get_note query search backlinks
  local_vault now = record {
    scope = e.scope;
    capabilities = e.capabilities;
    get = get_note;
    query = query;
    search = search;
    backlinks = backlinks;
    create = create e now;
    update_body = update_body e now;
    patch_front_matter = patch_front_matter e now;
    replace = replace e now;
    move = move e;
    delete = delete e;
  }
