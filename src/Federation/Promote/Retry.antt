-- ===== src/Federation/Promote/Retry.antt =====
-- A promotion that is asked for again by the same key.
use para_mcp.Prelude.{
  ◌≡◌, ◌≢◌, refl, ap, ◌∙◌, ◌+◌, ◌≤◌, Bool, false, none, some, arith, if◌then◌else◌, [],
}
use para_mcp.Prelude.Text.{Text, Unicode}
use para_mcp.Domain.Results.{ok}
use para_mcp.Domain.Entities.{MutationResult, PromoteInput, Time}
use para_mcp.Domain.Filter.{is_empty}
use para_mcp.Federation.{Registry}
use para_mcp.Federation.Idempotency.{Cache, Picks, IsBounded, lookup, store, store_lem, ttl}
use para_mcp.Federation.Promote.{State, replayed, promote}
use para_mcp.Federation.Promote.Laws.{promote_ok, promote_replay, is_empty-ne}

if_false : {A : Type 0} {b : Bool} (x : A) {y : A} → b ≡ false → (if b then x else y) ≡ y
if_false x e = rw e refl

module _ (u : Unicode) (nfc : Text → Text) {W : Type 0} (r : Registry W) where
  replayed_of :
      (input : PromoteInput) (now : Time) (done : Cache)
      → is_empty input.idempotency_key ≡ false
      → replayed u nfc r input now done ≡ lookup input.idempotency_key now done
  unfolding replayed
  replayed_of input now done e = rw e refl

  -- Where the cache is within its bound, a promotion under a key that succeeded and was no replay,
  -- asked for again at most 24 hours later, returns the same result and writes nothing: the note
  -- is promoted once. The map's iteration comes first to a key of the map.
  pub promote_once :
      (pick : Cache → Text) (id mint id2 mint2 : Text) (now later now2 later2 : Time)
      (input : PromoteInput) (st st' : State W) (res : MutationResult)
      → Picks pick
      → IsBounded st.done
      → input.idempotency_key ≢ []
      → replayed u nfc r input now st.done ≡ none
      → promote u nfc r pick id mint now later input st ≡ (ok res, st')
      → now2 ≤ later + ttl
      → promote u nfc r pick id2 mint2 now2 later2 input st' ≡ (ok res, st')
  unfolding replayed
  promote_once pick id mint id2 mint2 now later now2 later2 input st st' res picks b ne h k soon =
      promote_replay u nfc r pick id2 mint2 now2 later2 input st' res found
    where
      stored : st'.done ≡ (
          if is_empty input.idempotency_key
          then st.done
          else store pick input.idempotency_key res later st.done)
      stored = (promote_ok u nfc r pick id mint now later input st st' res h k).9

      found : replayed u nfc r input now2 st'.done ≡ some res
      found =
          replayed_of input now2 st'.done (is_empty-ne input.idempotency_key ne)
          ∙ ap (lookup input.idempotency_key now2)
              (stored ∙ if_false st.done (is_empty-ne input.idempotency_key ne))
          ∙ (store_lem pick input.idempotency_key res later now2 st.done picks b).1
          ∙ ground arith
