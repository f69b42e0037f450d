-- ===== src/Tests/Searches.antt =====
-- Runs of the searches, the index and the budget.
use mathlib.Core.List.{Perm, Permᴰ}
use mathlib.Core.List.Permᴰ
use para_mcp.Prelude.{
  ℕ, ◌+◌, ◌-◌, ◌*◌, ◌≤◌, ◌≡◌, refl, true, false, not, none, some, List, [], ◌∷◌, ◌++◌, map, take,
  min, ltb, All, arith, length, keep, suc,
}
use para_mcp.Prelude.Int.{pos}
use para_mcp.Prelude.Sort.{IsSorted}
use para_mcp.Prelude.Text.{Text, ascii, codes, dec_text}
use para_mcp.Prelude.Assoc.{get, has, Distinct}
use para_mcp.Domain.Results.{Result, ok}
use para_mcp.Domain.Entities.{Note, RankedNote, AuthFilter, summary}
use para_mcp.Vault.{Vault}
use para_mcp.Service.{Service, SemanticOptions, body_never, search_notes}
use para_mcp.Service
use para_mcp.Service.Search
use para_mcp.Service.Hybrid.{Fusion, hybrid_search}
use para_mcp.Service.Hybrid.Laws.{hybrid_search_lem}
use para_mcp.Service.Search.{semantic_search}
use para_mcp.Federation.{Registry, Entry}
use para_mcp.Federation.Search.{Answers}
use para_mcp.Federation.Search as Merged
use para_mcp.Storage.Local.{Doc}
use para_mcp.Index.{
  Floats, Config, Snapshot, new_snapshot, add_op, apply, tokenize, build_stop_words,
}
use para_mcp.Index.Apply.{IsIndex, apply_lem, holds_after, posting_after}
use para_mcp.Index.Laws.{posting_of}
use para_mcp.Index.Search.{hit_at}
use para_mcp.Index.Search as Lookup
use para_mcp.Index.Found.{search_lem, has_term}
use para_mcp.Semantic.Budget.{Use, Budget, vendor_calls, default_config, record_use, is_old}
use para_mcp.Semantic.Budget.Laws.{IsWindow, is_over, IsBreach, record_use_lem}
use para_mcp.Tests.Fixtures.{
  Disk, disk, nfc, mine, path_a, note_at, memory_vault, any_filter, ref_a,
}

abbrev arrive : Answers RankedNote → Answers RankedNote
arrive rs = rs

abbrev hit : ℕ → RankedNote
hit n = record { summary = summary ascii (note_at mine path_a); score = n; body = [] }

abbrev hits : List RankedNote
hits = hit 3 ∷ hit 7 ∷ hit 5 ∷ []

abbrev vault : Vault Disk
vault = record (memory_vault mine (λ w. w.own) (λ f w. record w { own = f })) {
  search = λ w text f limit. ok hits;
}

abbrev service : Service Disk
service = record {
  vault = vault;
  templates = [];
  related_scan_limit = pos 10;
  searcher = some (λ w text f o. ok (record { ref = ref_a; score = 5 } ∷ []));
}

abbrev entry : Entry Disk
entry = record { scope_id = mine; canonical_remote = []; svc = service }

abbrev registry : Registry Disk
registry = record { entries = entry ∷ []; by_scope = (mine, entry) ∷ [] }

abbrev filter : AuthFilter
filter = record { filter = any_filter; allowed_scopes = some (mine ∷ []) }

abbrev options : SemanticOptions
options = record { limit = pos 0; threshold = 0; body_mode = body_never }

abbrev Bare : RankedNote → Type 0
Bare n = n.body ≡ []

abbrev search_in : Service Disk → AuthFilter → Result (List RankedNote)
search_in s g = Service.search_notes ascii nfc s disk (codes "x") g (pos 2)

abbrev meaning_in : Service Disk → AuthFilter → Result (List RankedNote)
meaning_in s g = Search.semantic_search ascii nfc s disk (codes "x") g options

-- whole numbers in place of float64
abbrev floats : Floats ℕ
floats = record {
  of_ℕ = λ n. n;
  plus = λ a b. a + b;
  minus = λ a b. a - b;
  times = λ a b. a * b;
  over = λ a b. a;
  ln = λ a. a;
  less = ltb;
  bm25_k1 = 1;
  bm25_b = 1;
  half = 1;
}

abbrev config : Config ℕ
config = record {
  stemmer = none;
  title_boost = 2;
  stop_words = build_stop_words ascii [];
  unicode = ascii;
  is_word = λ c. ltb b'@' c;
}

abbrev doc : Doc
doc = record { ref = ref_a; title = codes "Tea"; body = codes "the tea tin"; updated_at = 4 }

empty-IsIndex : IsIndex floats config (new_snapshot floats config)
unfolding get
empty-IsIndex = record { distinct = tt; held = λ u k. refl }

apply_example :
    IsIndex floats config (apply floats config (new_snapshot floats config) (add_op doc))
    × ((k : Text)
        → has dec_text k (apply floats config (new_snapshot floats config) (add_op doc)).docs
          ≡ holds_after floats config
              (add_op doc)
              k
              (has dec_text k (new_snapshot floats config).docs))
    × ((u k : Text)
        → posting_of u k (apply floats config (new_snapshot floats config) (add_op doc)).postings
          ≡ posting_after floats config
              (add_op doc)
              u
              k
              (posting_of u k (new_snapshot floats config).postings))
apply_example = apply_lem floats config (new_snapshot floats config) (add_op doc) empty-IsIndex

abbrev snapshot : Snapshot ℕ
snapshot = apply floats config (new_snapshot floats config) (add_op doc)

less-total : (a b : ℕ) → not (floats.less a b) ≡ false → not (floats.less b a) ≡ true
less-total a b h = ground arith

less_trans :
    (a b c : ℕ)
    → not (floats.less a b) ≡ true
    → not (floats.less b c) ≡ true
    → not (floats.less a c) ≡ true
less_trans a b c h k = ground arith

search_example :
    (scored : List (Text × ℕ)) × Distinct dec_text scored
    × ((k : Text)
        → has dec_text k scored
          ≡ has_term floats config snapshot k (tokenize floats config (codes "tea")))
    × (ranking : List (Text × ℕ)) × Perm ranking scored
    × IsSorted (λ a b. not (floats.less a.1 b.1)) ranking
    × (Lookup.search floats config snapshot (codes "tea") (pos (suc 4))
        ≡ map (hit_at floats config snapshot) (take (suc 4) ranking))
    × (length (Lookup.search floats config snapshot (codes "tea") (pos (suc 4)))
        ≡ min (suc 4) (length scored))
search_example = search_lem floats config snapshot (codes "tea") 4 less-total less_trans refl

abbrev used : Use
used = record { at = 5; metric = vendor_calls; amount = 1999 }

abbrev budget : Budget
budget = record { cfg = default_config; window = used ∷ []; tripped = false }

record_use_example :
    let out = record_use 9 vendor_calls 2 budget in
    let new : Use = record { at = 9; metric = vendor_calls; amount = 2 } in
    let recent = keep (λ y. not (is_old 9 y)) (budget.window ++ new ∷ []) in
    (out.1.window ≡ recent)
    × IsWindow 9 out.1.window
    × (out.1.tripped ≡ is_over budget.cfg recent)
    × IsBreach budget.cfg recent out.0
record_use_example = record_use_lem 9 vendor_calls 2 budget (omega arith, tt, tt)

abbrev fusion : Fusion
fusion = record { add = λ a b. a + b; lexical = λ i. 100 - i; semantic = λ i. 100 - i }

-- the notes of the vault have its scope
vault-scope :
    (path : Text) (note : Note)
    → vault.get disk path ≡ ok note
    → (summary ascii note).ref.scope ≡ mine
unfolding get summary
vault-scope path note h = elim (dec_text path_a path) [
  | yes p ↦ ground arith
  | no p ↦ absurd (ground arith)
]

hits-scope : All (λ n. n.summary.ref.scope ≡ mine) hits
unfolding summary
hits-scope = (refl, (refl, (refl, tt)))

hybrid_search_example :
    (out : List RankedNote) × (hybrid_search ascii nfc fusion
        (λ l. l)
        service
        disk
        (codes "tea")
        filter
        (pos 2)
      ≡ ok out)
    × (length out ≤ 2)
    × All (λ n. n.summary.ref.scope ≡ mine) out
hybrid_search_example =
    hybrid_search_lem (λ x. x.ref.scope ≡ mine) ascii nfc fusion service disk vault-scope (λ l. l)
      (codes "tea") filter (pos 2) (mine ∷ []) (λ l. Permᴰ.refl l) refl hits-scope
