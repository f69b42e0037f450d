-- ===== src/Federation/Search/Laws.antt =====
-- application/federation.go: what the merged searches return.
use mathlib.Core.List.{Permᴰ}
use para_mcp.Prelude.{ℕ, ◌≤◌, ◌≡◌, true, some, List, length, All}
use para_mcp.Prelude.Sort.{IsSorted}
use para_mcp.Prelude.Text.{Text, Unicode, contains}
use para_mcp.Domain.Results.{Result, ok, err}
use para_mcp.Domain.Entities.{ScopeId, AuthFilter, RankedNote}
use para_mcp.Service.{Service}
use para_mcp.Service
use para_mcp.Service.Search
use para_mcp.Federation.{Registry, Entry, entry_for}
use para_mcp.Federation.Search.{Answers, scope_filter, scored_before}

module _ {ℓ κ} {A : Type ℓ} (P : A → Type κ) where
  abbrev pub Within : Result (List A) → Type κ
  Within (err x) = Unit
  Within (ok l) = All P l

-- A list of at most so many notes, none with a worse score before a better one.
abbrev pub IsRanking : ℕ → List RankedNote → Type 0
IsRanking n l = (length l ≤ n) × IsSorted scored_before l

module _ (u : Unicode) (nfc : Text → Text) {W : Type 0} (r : Registry W)
    (arrive : Answers RankedNote → Answers RankedNote)
    (arrives : (rs : Answers RankedNote) → Permᴰ (arrive rs) rs) (P : RankedNote → Type 0)
    (f : AuthFilter) (allowed : List ScopeId) where
  -- What holds of all notes that the allowed, registered scopes return.
  abbrev pub Holds : (Service W → AuthFilter → Result (List RankedNote)) → Type 0
  Holds call =
      (sc : ScopeId) (e : Entry W) (l : List RankedNote)
      → contains sc allowed ≡ true
      → entry_for r sc ≡ some e
      → call e.svc (scope_filter f sc) ≡ ok l
      → All P l
