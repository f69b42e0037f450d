-- ===== src/Storage/Local/Sync.antt =====
-- localvault: the agreement of the cache of summaries with the files.
use para_mcp.Prelude.{
  ◌≡◌, refl, ap, sym, subst, ◌∙◌, Bool, true, false, Option, none, some, is_some,
}
use para_mcp.Prelude.Assoc.{get}
use para_mcp.Prelude.Text.{Text, codes, cut_prefix, dec_text}
use para_mcp.Domain.Results.{Result, ok, err, Error, not_found, ◌>>=◌}
use para_mcp.Domain.Entities.{NoteSummary, Note, summary}
use para_mcp.Vault.{Write, attempt}
use para_mcp.Storage.Local.{Site, Local, read, unless_refused, note_of, read_note}
use para_mcp.Storage.Notes.{parse_note}

-- A step of a write keeps what holds of the state, where each way on does.
pub attempt-keeps :
    {S A B : Type 0} (P : S → Type 0) (r : Result A) (next : A → Write S B) (w : S)
    → P w
    → ((a : A) → r ≡ ok a → P (next a w).1)
    → P (attempt r next w).1
attempt-keeps P (ok a) next w h k = k a refl
attempt-keeps P (err x) next w h k = h

abbrev pub is_trash : Text → Bool
is_trash path = is_some (cut_prefix (codes ".trash/") path)

module _ {N : Type 0} {X : Type 0} (e : Site N X) where
  abbrev pub summary_of : Result Note → Option NoteSummary
  summary_of (ok n) = some (summary e.unicode n)
  summary_of (err x) = none

  pub read_note-files :
      (q : Text) (v w : Local X)
      → get dec_text q v.files ≡ get dec_text q w.files
      → read_note e q v ≡ read_note e q w
  unfolding read_note
  read_note-files q v w h = rw h refl

  -- a file that is not there
  pub summary_of-gone :
      (q : Text) (v : Local X) → get dec_text q v.files ≡ none → summary_of (read_note e q v) ≡ none
  unfolding read_note
  summary_of-gone q v h = rw h (refused (e.os.refuse read q))
    where
      refused :
          (o : Option Error)
          → summary_of (
              unless_refused e o (err not_found)
              >>= (λ raw. parse_note e.codec raw >>= (λ parts. ok (note_of e q parts))))
            ≡ none
      refused none = refl
      refused (some x) = refl

-- `skip` are the paths that are left out of the account.
module _ {N : Type 0} {X : Type 0} (e : Site N X) (skip : Text → Bool) where
  abbrev pub Agrees : Bool → Option NoteSummary → Result Note → Type 0
  Agrees true cached r = Unit
  Agrees false cached r = cached ≡ summary_of e r

  abbrev pub IsSyncedAt : Local X → Text → Type 0
  IsSyncedAt w q = Agrees (skip q) (get dec_text q w.cache) (read_note e q w)

  -- At every path, the summary in the cache is the one of the note that the file reads as, and where there
  -- is no such file none is cached.
  abbrev pub IsSynced : Local X → Type 0
  IsSynced w = (q : Text) → IsSyncedAt w q

  -- a path that a step does not touch
  pub untouched :
      (q : Text) (v w : Local X)
      → get dec_text q v.cache ≡ get dec_text q w.cache
      → get dec_text q v.files ≡ get dec_text q w.files
      → IsSyncedAt w q
      → IsSyncedAt v q
  untouched q v w c f h =
      subst (λ r. Agrees (skip q) (get dec_text q v.cache) r) (sym (read_note-files e q v w f))
        (subst (λ o. Agrees (skip q) o (read_note e q w)) (sym c) h)

  Agrees-eq :
      (b : Bool) (o : Option NoteSummary) (r : Result Note) → o ≡ summary_of e r → Agrees b o r
  Agrees-eq true o r h = tt
  Agrees-eq false o r h = h

  -- a path without a file and without a summary
  pub dropped :
      (q : Text) (v : Local X)
      → get dec_text q v.cache ≡ none
      → get dec_text q v.files ≡ none
      → IsSyncedAt v q
  dropped q v c f =
      Agrees-eq (skip q) (get dec_text q v.cache) (read_note e q v)
        (c ∙ sym (summary_of-gone e q v f))

  pub stored :
      (q : Text) (v : Local X) (n : Note) (s : NoteSummary)
      → get dec_text q v.cache ≡ some s
      → read_note e q v ≡ ok n
      → summary e.unicode n ≡ s
      → IsSyncedAt v q
  stored q v n s c r h =
      Agrees-eq (skip q) (get dec_text q v.cache) (read_note e q v)
        (c ∙ ap some (sym h) ∙ ap (summary_of e) (sym r))

  Agrees-skip : (b : Bool) (o : Option NoteSummary) (r : Result Note) → b ≡ true → Agrees b o r
  Agrees-skip true o r h = tt
  Agrees-skip false o r h = absurd (cc)

  pub skipped : (q : Text) (v : Local X) → skip q ≡ true → IsSyncedAt v q
  skipped q v h = Agrees-skip (skip q) (get dec_text q v.cache) (read_note e q v) h
