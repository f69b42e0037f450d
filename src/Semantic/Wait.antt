-- ===== src/Semantic/Wait.antt =====
-- infra/semantic/waitforindex/waitforindex.go: the wait for a final index state.
use para_mcp.Prelude.{
  ◌≡◌, refl, subst, any, is_some, ◌||◌, Bool, true, false, not, Option, none, some, List, [], ◌∷◌,
  ◌++◌, arith, if◌then◌else◌, Bool-cases, inl, inr,
}
use para_mcp.Prelude.Int.{ℤ, pos, ltb_ℤ}
use para_mcp.Prelude.Text.{Text, codes}
use para_mcp.Domain.Results.{Result, ok, err}
use para_mcp.Domain.Entities.{
  IndexState, pending, failed, skipped_short, skipped_user_edited, tombstoned, unknown,
}

-- durations, in milliseconds
abbrev pub default_timeout : ℤ
default_timeout = pos 3000

abbrev pub max_timeout : ℤ
max_timeout = pos 10000

-- `ClampTimeout`
unfoldable pub clamp_timeout : ℤ → ℤ
clamp_timeout t =
    if not (ltb_ℤ (pos 0) t)
    then default_timeout
    else if ltb_ℤ max_timeout t
    then max_timeout
    else t

-- `isTerminal`
unfoldable pub is_terminal : IndexState → Bool
is_terminal pending = false
is_terminal (unknown t) = false
is_terminal _ = true

-- `Explainer`
unfoldable pub explainer : IndexState → Text
explainer pending =
    codes "Note is queued for indexing and has not yet been processed by the semantic pipeline."
explainer failed =
    codes
      "Semantic indexing failed after retries. Check logs for the embedding or summarisation error."
explainer skipped_short =
    codes "Note body is too short to embed meaningfully and was skipped by the pipeline."
explainer skipped_user_edited =
    codes "Derived metadata was edited by the user and will not be overwritten by the pipeline."
explainer tombstoned = codes "Note has been deleted and its vector records are marked for removal."
explainer _ = []

-- `Result`
pub record Waited : Type 0 where
  pub state : IndexState
  pub explanation : Text
  pub timed_out : Bool
  pub cancelled : Bool

-- How the `select` behind a poll ends: by the ticker, the deadline, or the caller's cancellation.
pub data Event : Type 0 where
  tick deadline cancel : Event

abbrev waited : IndexState → Bool → Bool → Waited
waited s t c = record { state = s; explanation = explainer s; timed_out = t; cancelled = c }

-- the last state that was observed
abbrev observed : IndexState → Result IndexState → IndexState
observed last (ok s) = s
observed last (err e) = last

-- a poll: what the state function returns, and how the `select` behind it ends
abbrev pub Poll : Type 0
Poll = Result IndexState × Event

abbrev answered : Result IndexState → Bool
answered (ok s) = is_terminal s
answered (err e) = false

abbrev ended : IndexState → Event → Option Waited → Option Waited
ended last tick rest = rest
ended last deadline rest = some (waited last true false)
ended last cancel rest = some (waited last false true)

-- The loop of `Wait` over the polls that it makes; `none` where they are not over.
unfoldable pub wait_from : IndexState → List Poll → Option Waited
unfolding is_terminal explainer
wait_from last [] = none
wait_from last ((answer, event) ∷ polls) =
    let now = observed last answer in
    let rest = wait_from now polls in
    if answered answer then some (waited now false false) else ended now event rest

-- `Wait`
unfoldable pub wait : List Poll → Option Waited
unfolding wait_from
wait polls = wait_from pending polls

-- A clamped timeout is positive and at most ten seconds; one that is both stays as it is.
pub clamp_timeout_lem :
    (t : ℤ)
    → (ltb_ℤ (pos 0) (clamp_timeout t) ≡ true)
      × (ltb_ℤ max_timeout (clamp_timeout t) ≡ false)
      × (ltb_ℤ (pos 0) t ≡ true → ltb_ℤ max_timeout t ≡ false → clamp_timeout t ≡ t)
unfolding clamp_timeout
clamp_timeout_lem t = elim (Bool-cases (ltb_ℤ (pos 0) t)) [
  | inl positive ↦ elim (Bool-cases (ltb_ℤ max_timeout t)) [
    | inl long ↦ rw (positive, long) (refl, refl, λ a b. absurd (cc b))
    | inr short ↦ rw (positive, short) (positive, short, λ a b. refl)
  ]
  | inr none_given ↦ rw none_given (refl, refl, λ a b. absurd (cc a))
]

wait_from_lem :
    (last : IndexState) (polls : List Poll) (w : Waited)
    → is_terminal last ≡ false
    → wait_from last polls ≡ some w
    → (w.explanation ≡ explainer w.state) × (is_terminal w.state ≡ not (w.timed_out || w.cancelled))
unfolding wait_from
wait_from_lem last [] w open_ h = absurd (cc h)
wait_from_lem last ((answer, event) ∷ polls) w open_ h =
    go answer event (λ s k. wait_from_lem s polls w k) h
  where
    Goal : Type 0
    Goal =
        (w.explanation ≡ explainer w.state)
        × (is_terminal w.state ≡ not (w.timed_out || w.cancelled))

    is_w : {x : Waited} → ◌≡◌ {A = Option Waited} (some x) (some w) → x ≡ w
    is_w q = cc q

    Good : Waited → Type 0
    Good w =
        (w.explanation ≡ explainer w.state)
        × (is_terminal w.state ≡ not (w.timed_out || w.cancelled))

    on_event :
        (s : IndexState) (e : Event)
        → is_terminal s ≡ false
        → ((s : IndexState) → is_terminal s ≡ false → wait_from s polls ≡ some w → Goal)
        → ended s e (wait_from s polls) ≡ some w
        → Goal
    on_event s tick k next q = next s k q
    on_event s deadline k next q = subst Good (is_w q) (refl, k)
    on_event s cancel k next q = subst Good (is_w q) (refl, k)

    go :
        (a : Result IndexState) (e : Event)
        → ((s : IndexState) → is_terminal s ≡ false → wait_from s polls ≡ some w → Goal)
        → (if answered a
            then some (waited (observed last a) false false)
            else ended (observed last a) e (wait_from (observed last a) polls))
          ≡ some w
        → Goal
    go (err _) e next q = on_event last e open_ next q
    go (ok s) e next q = elim (Bool-cases (is_terminal s)) [
      | inl final ↦ subst Good (is_w (rw final at q)) (refl, final)
      | inr on ↦ on_event s e on next (rw on at q)
    ]

-- The wait returns a final state, or says that it timed out or was cancelled, and then the state is not
-- final; the explanation is the one of the state.
pub wait_lem :
    (polls : List Poll) (w : Waited)
    → wait polls ≡ some w
    → (w.explanation ≡ explainer w.state) × (is_terminal w.state ≡ not (w.timed_out || w.cancelled))
unfolding wait is_terminal
wait_lem polls w h = wait_from_lem pending polls w refl h

-- a poll that ends the loop
abbrev pub ends : Poll → Bool
ends (answer, tick) = answered answer
ends (answer, deadline) = true
ends (answer, cancel) = true

wait_from-ends :
    (last : IndexState) (before : List Poll) (p : Poll) (after : List Poll)
    → any ends before ≡ false
    → ends p ≡ true
    → (wait_from last before ≡ none)
      × (is_some (wait_from last (before ++ p ∷ [])) ≡ true)
      × (wait_from last (before ++ p ∷ after) ≡ wait_from last (before ++ p ∷ []))
unfolding wait_from
wait_from-ends last [] (answer, tick) after h k = (refl, ground arith, ground arith)
wait_from-ends last [] (answer, deadline) after h k = (refl, ground arith, ground arith)
wait_from-ends last [] (answer, cancel) after h k = (refl, ground arith, ground arith)
wait_from-ends last ((answer, tick) ∷ before) p after h k =
    let (a, b, c) = wait_from-ends (observed last answer) before p after (ground arith) k in
    (ground (arith, a), ground (arith, b), ground (arith, c))
wait_from-ends last ((answer, deadline) ∷ before) p after h k = absurd (ground arith)
wait_from-ends last ((answer, cancel) ∷ before) p after h k = absurd (ground arith)

-- The wait goes on through the polls that neither find a final state nor see the context done, ends with
-- the first one that does, and does not depend on what would come behind it.
pub wait-ends :
    (before : List Poll) (p : Poll) (after : List Poll)
    → any ends before ≡ false
    → ends p ≡ true
    → (wait before ≡ none)
      × (is_some (wait (before ++ p ∷ [])) ≡ true)
      × (wait (before ++ p ∷ after) ≡ wait (before ++ p ∷ []))
unfolding wait
wait-ends before p after h k = wait_from-ends pending before p after h k
