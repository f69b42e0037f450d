-- ===== src/Domain/Results.antt =====
-- core/domain/vault.go: the sentinel errors, and the result of a query page.
use para_mcp.Prelude.{ℕ, ◌≡◌, refl, Bool, Option, List}
use para_mcp.Prelude.Text.{Text}
use para_mcp.Domain.Entities.{NoteSummary, ScopeId, PartialFailure}

-- An error by its sentinel; the text that wraps it is left out. `panic` is a run-time panic, which
-- ends the call and every caller as an error does.
pub data Error : Type 0 where
  not_found conflict invalid_path invalid_front_matter scope_forbidden unavailable : Error
  invalid_cursor capability_unavailable allowed_scopes_nil panic : Error
  other : Text → Error

pub data Result {ℓ} (A : Type ℓ) : Type ℓ where
  err : Error → Result A
  ok : A → Result A

-- the early return on an error
infixl 5 ◌>>=◌
abbrev pub ◌>>=◌ {ℓ κ} : {A : Type ℓ} {B : Type κ} (m : Result A) (next : A → Result B) → Result B
err e >>= next = err e
ok a >>= next = next a

-- A chain that succeeds succeeds at its first step, and the rest succeeds behind it.
pub >>=-eq-ok {ℓ κ} :
    {A : Type ℓ} {B : Type κ} (first : Result A) (next : A → Result B) {out : B}
    → first >>= next ≡ ok out
    → (a : A) × (first ≡ ok a) × (next a ≡ ok out)
>>=-eq-ok (err e) next done = cc
>>=-eq-ok (ok a) next done = (a, refl, done)

pub record QueryResult : Type 0 where
  pub notes : List NoteSummary
  pub total : ℕ
  pub has_more : Bool
  pub per_scope : List (ScopeId × ℕ)
  pub scopes_attempted : List ScopeId
  pub scopes_succeeded : List ScopeId
  pub partial_failure : Option (PartialFailure Error)
  pub next_cursor : Text
