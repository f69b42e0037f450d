-- ===== src/Storage/Batch.antt =====
-- noteutil.go and localvault/batch.go: writes of many notes, one behind the other.
use para_mcp.Prelude.{
  ℕ, suc, ◌+◌, ◌≡◌, refl, ap, sym, ◌∙◌, Bool, true, false, Option, none, some, List, [], ◌∷◌, ◌++◌,
  count, if◌then◌else◌, arith,
}
use para_mcp.Prelude.Text.{Text}
use para_mcp.Domain.Value.{Fields}
use para_mcp.Domain.Results.{Result, ok, err, Error}
use para_mcp.Domain.Entities.{NoteSummary, MutationResult, CreateInput, Time}
use para_mcp.Vault.{Write, attempt}
use para_mcp.Storage.Local.{Site, Local, normalize_path}
use para_mcp.Storage.Local.Mutations.{create, update_body, patch_front_matter}

-- `BatchItemResult`; the text of the error is the error
pub record BatchItem : Type 0 where
  pub index : ℕ
  pub path : Text
  pub is_ok : Bool
  pub summary : Option NoteSummary
  pub etag : Text
  pub error : Option Error

pub record BatchResult : Type 0 where
  pub results : List BatchItem
  pub success_count : ℕ
  pub failure_count : ℕ

pub record UpdateBodyItem : Type 0 where
  pub path : Text
  pub body : Text
  pub if_match : Text

pub record PatchItem : Type 0 where
  pub path : Text
  pub fields : Fields
  pub if_match : Text

abbrev pub no_results : BatchResult
no_results = record { results = []; success_count = 0; failure_count = 0 }

-- the entry of the item at `i`
unfoldable pub item_result : ℕ → Text → Result MutationResult → BatchItem
item_result i path (ok r) = record {
  index = i;
  path = path;
  is_ok = true;
  summary = some r.summary;
  etag = r.etag;
  error = none;
}
item_result i path (err x) = record {
  index = i;
  path = path;
  is_ok = false;
  summary = none;
  etag = [];
  error = some x;
}

-- the body of the loop
unfoldable pub add_result : ℕ → Text → Result MutationResult → BatchResult → BatchResult
unfolding item_result
add_result i path r b = record {
  results = b.results ++ item_result i path r ∷ [];
  success_count = elim r [ ok m ↦ b.success_count + 1 | err x ↦ b.success_count ];
  failure_count = elim r [ ok m ↦ b.failure_count | err x ↦ b.failure_count + 1 ];
}

module _ {I : Type 0} {W : Type 0} (path_of : I → Text) (run : I → Write W MutationResult) where
  unfoldable pub run_from : ℕ → List I → BatchResult → W → BatchResult × W
  unfolding add_result
  run_from i [] b w = (b, w)
  run_from i (item ∷ items) b w =
      run_from (suc i) items (add_result i (path_of item) (run item w).0 b) (run item w).1

  -- `RunBatch`, for a function that returns the path of its item
  unfoldable pub run_batch : List I → W → BatchResult × W
  unfolding run_from
  run_batch items w = run_from 0 items no_results w

  -- what the items return and leave, each run on the state that the one before it left
  unfoldable pub runs : List I → W → List (Text × Result MutationResult) × W
  runs [] w = ([], w)
  runs (item ∷ items) w =
      let rest = runs items (run item w).1 in ((path_of item, (run item w).0) ∷ rest.0, rest.1)

module _ {N : Type 0} {X : Type 0} (e : Site N X) where
  unfoldable pub create_item : Time → CreateInput → Write (Local X) MutationResult
  create_item now input =
      attempt (normalize_path e input.path)
        (λ np. create e now (record input { path = np.storage }))

  -- `CreateBatch`
  unfoldable pub create_batch : Time → List CreateInput → Local X → BatchResult × Local X
  unfolding run_batch create_item
  create_batch now = run_batch (λ input. input.path) (create_item now)

  -- `UpdateBodyBatch`
  unfoldable pub update_body_batch : Time → List UpdateBodyItem → Local X → BatchResult × Local X
  unfolding run_batch
  update_body_batch now =
      run_batch (λ it. it.path) (λ it. update_body e now it.path it.body it.if_match)

  -- `PatchFrontMatterBatch`
  unfoldable pub patch_front_matter_batch : Time → List PatchItem → Local X → BatchResult × Local X
  unfolding run_batch
  patch_front_matter_batch now =
      run_batch (λ it. it.path) (λ it. patch_front_matter e now it.path it.fields it.if_match)

-- the entries that tell how each item went, numbered from `i`
unfoldable pub report : ℕ → List (Text × Result MutationResult) → List BatchItem
report i [] = []
report i (o ∷ os) = item_result i o.0 o.1 ∷ report (suc i) os

abbrev pub is_failure : BatchItem → Bool
is_failure r = if r.is_ok then false else true

count-append :
    (p : BatchItem → Bool) (a b : List BatchItem) → count p (a ++ b) ≡ count p a + count p b
count-append p [] b = omega arith
count-append p (x ∷ a) b = ground (arith, count-append p a b)

append-nil : {A : Type 0} (a : List A) → a ++ [] ≡ a
append-nil [] = refl
append-nil (x ∷ a) = ap (◌∷◌ x) (append-nil a)

append_assoc : {A : Type 0} (a b c : List A) → (a ++ b) ++ c ≡ a ++ (b ++ c)
append_assoc [] b c = refl
append_assoc (x ∷ a) b c = ap (◌∷◌ x) (append_assoc a b c)

-- Both counts are those of the entries.
abbrev pub IsCounted : BatchResult → Type 0
IsCounted b =
    (count (λ r. r.is_ok) b.results ≡ b.success_count)
    × (count is_failure b.results ≡ b.failure_count)

add_result-IsCounted :
    (i : ℕ) (path : Text) (r : Result MutationResult) (b : BatchResult)
    → IsCounted b
    → IsCounted (add_result i path r b)
unfolding add_result item_result
add_result-IsCounted i path r b h =
    let item = item_result i path r in
    let oks = count-append (λ x. x.is_ok) b.results (item ∷ []) in
    let failures = count-append is_failure b.results (item ∷ []) in
    elim r [
      | ok m ↦ (ground (arith, oks), ground (arith, failures))
      | err x ↦ (ground (arith, oks), ground (arith, failures))
    ]

module _ {I : Type 0} {W : Type 0} (path_of : I → Text) (run : I → Write W MutationResult) where
  run_from-runs :
      (i : ℕ) (items : List I) (b : BatchResult) (w : W)
      → IsCounted b
      → let out = run_from path_of run i items b w in
        (out.0.results ≡ b.results ++ report i (runs path_of run items w).0)
        × (out.1 ≡ (runs path_of run items w).1)
        × IsCounted out.0
  unfolding run_from runs report
  run_from-runs i [] b w h = (sym (append-nil b.results), refl, h)
  run_from-runs i (item ∷ items) b w h =
      let c = add_result i (path_of item) (run item w).0 b in
      let (r, s, t) =
        run_from-runs (suc i) items c (run item w).1
          (add_result-IsCounted i (path_of item) (run item w).0 b h) in
      (
        r
            ∙ append_assoc b.results (item_result i (path_of item) (run item w).0 ∷ [])
                (report (suc i) (runs path_of run items (run item w).1).0),
        s,
        t,
      )

  -- A batch runs its items one behind the other, each on the state that the one before it left, failed or
  -- not; its entries tell in order how each item went, and both counts are those of the entries.
  pub run_batch-runs :
      (items : List I) (w : W)
      → let out = run_batch path_of run items w in
        (out.0.results ≡ report 0 (runs path_of run items w).0)
        × (out.1 ≡ (runs path_of run items w).1)
        × IsCounted out.0
  unfolding run_batch
  run_batch-runs items w = run_from-runs 0 items no_results w (refl, refl)
