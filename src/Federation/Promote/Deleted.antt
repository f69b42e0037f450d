-- ===== src/Federation/Promote/Deleted.antt =====
-- What a deletion changes.
use para_mcp.Prelude.{◌≡◌, sym, ◌∙◌, ap, Bool, ◌||◌, ◌⊎◌, inl, inr}
use para_mcp.Prelude.Text.{Text, Unicode, same}
use para_mcp.Domain.Results.{Result, ok, err, Error}
use para_mcp.Domain.Entities.{NoteRef, ref_string}
use para_mcp.Federation.{Registry, Entry, entry_for_ref}
use para_mcp.Federation.Tombstones.{contains_ref, contains_ref-add}
use para_mcp.Federation.Promote.{State, delete, delete_from, removed}

module _ (u : Unicode) (nfc : Text → Text) {W : Type 0} (r : Registry W) where
  -- A deletion that succeeds hides its reference and no other that has another key; one that fails
  -- hides nothing. The cache of promotions stays as it is.
  pub delete_lem :
      (ref : NoteRef) (soft : Bool) (if_match : Text) (st st' : State W) (out : Result (Unit {0}))
      → delete u nfc r ref soft if_match st ≡ (out, st')
      → ((out ≡ ok tt)
          × ((b : NoteRef)
              → contains_ref b st'.dead
                ≡ (same (ref_string ref) (ref_string b) || contains_ref b st.dead))
          × (st'.done ≡ st.done))
        ⊎ ((e : Error) × (out ≡ err e) × (st'.dead ≡ st.dead) × (st'.done ≡ st.done))
  unfolding delete
  delete_lem ref soft if_match st st' out h = go (entry_for_ref r ref) h
    where
      Goal : Type 0
      Goal =
          ((out ≡ ok tt)
            × ((b : NoteRef)
                → contains_ref b st'.dead
                  ≡ (same (ref_string ref) (ref_string b) || contains_ref b st.dead))
            × (st'.done ≡ st.done))
          ⊎ ((e : Error) × (out ≡ err e) × (st'.dead ≡ st.dead) × (st'.done ≡ st.done))

      written :
          (id : Text) (o : Result (Unit {0}) × W) → removed u nfc r ref id st o ≡ (out, st') → Goal
      written id (err e, w) k =
          inr (e, sym (ap (λ x. x.0) k), sym (ap (λ x. x.1.dead) k), sym (ap (λ x. x.1.done) k))
      written id (ok _, w) k = inl (
        sym (ap (λ x. x.0) k),
        λ b. ap (λ x. contains_ref b x.1.dead) (sym k) ∙ contains_ref-add ref b id st.dead,
        sym (ap (λ x. x.1.done) k),
      )

      go : (o : Result (Entry W)) → delete_from u nfc r ref soft if_match st o ≡ (out, st') → Goal
      go (err e) k =
          inr (e, sym (ap (λ x. x.0) k), sym (ap (λ x. x.1.dead) k), sym (ap (λ x. x.1.done) k))
      go (ok e) k = written _ _ k
