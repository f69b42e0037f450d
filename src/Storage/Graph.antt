-- ===== src/Storage/Graph.antt =====
-- infrastructure/storage/noteutil/noteutil.go: `BacklinkGraph`.
pub mod Laws
pub mod Diff
use para_mcp.Prelude.{
  Bool, true, false, not, ◌&&◌, ◌||◌, Option, none, some, List, [], ◌∷◌, ◌++◌, ◌==◌, any, all, keep,
  length, if◌then◌else◌,
}
use para_mcp.Prelude.Text.{Text, same, dec_text}
use para_mcp.Prelude.Assoc.{Assoc, get, put, remove}
use para_mcp.Domain.Filter.{is_empty}
use para_mcp.Storage.Links.{OutLink, BacklinkSrc}

abbrev pub Backlinks : Type 0
Backlinks = Assoc Text (List BacklinkSrc)

pub record Graph : Type 0 where
  pub out_links : Assoc Text (List OutLink)
  pub backlinks : Backlinks

abbrev pub no_links : Graph
no_links = record { out_links = []; backlinks = [] }

-- a missing key reads as the nil slice
abbrev pub or_nil {ℓ} : {A : Type ℓ} → Option (List A) → List A
or_nil none = []
or_nil (some l) = l

-- `Links`
unfoldable pub links : Text → Graph → List OutLink
links path g = or_nil (get dec_text path g.out_links)

-- `Backlinks`
unfoldable pub backlinks_of : Text → Graph → List BacklinkSrc
backlinks_of key g = or_nil (get dec_text key g.backlinks)

-- a list that gets empty is deleted
abbrev pub put_sources : Text → List BacklinkSrc → Backlinks → Backlinks
put_sources key [] m = remove dec_text key m
put_sources key (s ∷ srcs) m = put dec_text key (s ∷ srcs) m

-- the loop over the sources of one key
unfoldable pub drop_source : Text → Text → Backlinks → Backlinks
drop_source path key m =
    put_sources key (keep (λ s. not (same s.path path)) (or_nil (get dec_text key m))) m

unfoldable pub add_source : Text → OutLink → Backlinks → Backlinks
add_source path l m =
    put dec_text l.target_key
      (or_nil (get dec_text l.target_key m) ++ record { path = path; is_asset = l.is_asset } ∷ []) m

unfoldable pub drop_sources : Text → List OutLink → Backlinks → Backlinks
unfolding drop_source
drop_sources path [] m = m
drop_sources path (l ∷ ls) m = drop_sources path ls (drop_source path l.target_key m)

unfoldable pub add_sources : Text → List OutLink → Backlinks → Backlinks
unfolding add_source
add_sources path [] m = m
add_sources path (l ∷ ls) m = add_sources path ls (add_source path l m)

abbrev pub removed : Text → Option (List OutLink) → Graph → Graph
removed path none g = g
removed path (some old) g = record {
  out_links = remove dec_text path g.out_links;
  backlinks = drop_sources path old g.backlinks;
}

-- `removeLocked`, and `Remove`
unfoldable pub remove_links : Text → Graph → Graph
unfolding drop_sources
remove_links path g = removed path (get dec_text path g.out_links) g

-- a note without links has no entry
abbrev pub put_links : Text → List OutLink → Assoc Text (List OutLink) → Assoc Text (List OutLink)
put_links path [] m = remove dec_text path m
put_links path (l ∷ ls) m = put dec_text path (l ∷ ls) m

abbrev pub linked : Text → List OutLink → Graph → Graph
linked path [] g = g
linked path (l ∷ ls) g = record {
  out_links = put dec_text path (l ∷ ls) g.out_links;
  backlinks = add_sources path (l ∷ ls) g.backlinks;
}

-- `Upsert`
unfoldable pub upsert : Text → List OutLink → Graph → Graph
unfolding remove_links add_sources
upsert path ls g = linked path ls (remove_links path g)

-- membership in the set of target keys
unfoldable pub has_key : Text → List OutLink → Bool
has_key k ls = any (λ l. same l.target_key k) ls

-- the loops of `UpsertDiff`: the dropped links, and the new ones
unfoldable pub dropped : List OutLink → List OutLink → List OutLink
unfolding has_key
dropped old new = keep (λ l. not (has_key l.target_key new)) old

-- the fast path: as many links, and no old target is dropped
unfoldable pub unchanged : List OutLink → List OutLink → Bool
unfolding has_key
unchanged old new = length old == length new && all (λ l. has_key l.target_key new) old

-- `UpsertDiff`
unfoldable pub upsert_diff : Text → List OutLink → List OutLink → Graph → Graph
unfolding unchanged dropped drop_sources add_sources
upsert_diff path old new g = if unchanged old new then g else record {
  out_links = put_links path new g.out_links;
  backlinks = add_sources path (dropped new old) (drop_sources path (dropped old new) g.backlinks);
}
