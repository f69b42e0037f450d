-- ===== src/Index.antt =====
-- infrastructure/index/index.go: the full-text index. The writer goroutine applies the operations one
-- behind the other; a search reads the snapshot behind the last of them.
pub mod Search
pub mod Laws
pub mod Apply
pub mod Found
use para_mcp.Prelude.{
  ℕ, ◌+◌, map, Bool, true, false, not, ◌||◌, Option, none, some, List, [], ◌∷◌, ◌++◌, length,
  if◌then◌else◌,
}
use para_mcp.Prelude.Assoc.{Assoc, get, put, remove, keys, values}
use para_mcp.Prelude.Text.{Text, Unicode, codes, contains, dec_text, to_lower}
use para_mcp.Domain.Entities.{NoteRef, Time, ref_string}
use para_mcp.Domain.Filter.{is_empty}
use para_mcp.Storage.Local.{Doc}

-- The arithmetic of float64.
pub record Floats (F : Type 0) : Type 0 where
  pub of_ℕ : ℕ → F
  pub plus : F → F → F
  pub minus : F → F → F
  pub times : F → F → F
  pub over : F → F → F
  pub ln : F → F
  pub less : F → F → Bool
  -- the constants 1.2, 0.75 and 0.5
  pub bm25_k1 : F
  pub bm25_b : F
  pub half : F

-- `config`, with the tables of `unicode`
pub record Config (F : Type 0) : Type 0 where
  pub stemmer : Option (Text → Text)
  pub title_boost : F
  pub stop_words : List Text
  pub unicode : Unicode
  -- a letter or a digit
  pub is_word : ℕ → Bool

-- float32 in the source, which has every count below 2^24 exactly
pub record Posting : Type 0 where
  pub body_tf : ℕ
  pub title_tf : ℕ

pub record DocMeta : Type 0 where
  pub ref : NoteRef
  pub body_len : ℕ
  pub title_len : ℕ
  pub updated_at : Time

abbrev pub Postings : Type 0
Postings = Assoc Text (Assoc Text Posting)

pub record Snapshot (F : Type 0) : Type 0 where
  pub postings : Postings
  pub docs : Assoc Text DocMeta
  pub avg_body : F
  pub avg_title : F

-- `writeOp`, less the signal of the tests
pub data WriteOp : Type 0 where
  add_op : Doc → WriteOp
  remove_op : NoteRef → WriteOp

abbrev built_in : List Text
built_in =
    codes "a"
    ∷ codes "an"
    ∷ codes "the"
    ∷ codes "and"
    ∷ codes "or"
    ∷ codes "but"
    ∷ codes "in"
    ∷ codes "on"
    ∷ codes "at"
    ∷ codes "to"
    ∷ codes "for"
    ∷ codes "of"
    ∷ codes "with"
    ∷ codes "by"
    ∷ codes "from"
    ∷ codes "is"
    ∷ codes "it"
    ∷ codes "its"
    ∷ codes "be"
    ∷ codes "as"
    ∷ codes "was"
    ∷ codes "are"
    ∷ codes "were"
    ∷ codes "been"
    ∷ codes "has"
    ∷ codes "have"
    ∷ codes "had"
    ∷ codes "do"
    ∷ codes "does"
    ∷ codes "did"
    ∷ codes "will"
    ∷ codes "would"
    ∷ codes "could"
    ∷ codes "should"
    ∷ codes "may"
    ∷ codes "might"
    ∷ codes "this"
    ∷ codes "that"
    ∷ codes "these"
    ∷ codes "those"
    ∷ codes "i"
    ∷ codes "we"
    ∷ codes "you"
    ∷ codes "he"
    ∷ codes "she"
    ∷ codes "they"
    ∷ codes "not"
    ∷ []

-- `buildStopWords`
abbrev pub build_stop_words : Unicode → List Text → List Text
build_stop_words u extra = built_in ++ map (to_lower u) extra

abbrev pub closed : Text × List Text → List Text
closed ([], fs) = fs
closed (c ∷ f, fs) = (c ∷ f) ∷ fs

-- the field that the text starts in, and those behind it
unfoldable pub split_fields : (ℕ → Bool) → Text → Text × List Text
split_fields is_word [] = ([], [])
split_fields is_word (c ∷ s) =
    let r = split_fields is_word s in if is_word c then (c ∷ r.0, r.1) else ([], closed r)

-- `strings.FieldsFunc`
unfoldable pub fields_func : (ℕ → Bool) → Text → List Text
unfolding split_fields
fields_func is_word s = closed (split_fields is_word s)

-- `docKey`
unfoldable pub doc_key : NoteRef → Text
unfolding ref_string
doc_key ref = ref_string ref

abbrev pub stemmed : Option (Text → Text) → Text → Text
stemmed none w = w
stemmed (some stem) w = stem w

-- the loop of `tokenize`: stop words are dropped, and stems that are empty
unfoldable pub stems : Option (Text → Text) → List Text → List Text → List Text
stems stemmer stop_words [] = []
stems stemmer stop_words (f ∷ fs) =
    let rest = stems stemmer stop_words fs in
    if contains f stop_words || is_empty (stemmed stemmer f) then rest else stemmed stemmer f ∷ rest

abbrev pub or_zero : Option ℕ → ℕ
or_zero none = 0
or_zero (some n) = n

-- `termFreq`, on from a map
unfoldable pub term_freq : List Text → Assoc Text ℕ → Assoc Text ℕ
term_freq [] freq = freq
term_freq (t ∷ ts) freq = term_freq ts (put dec_text t (or_zero (get dec_text t freq) + 1) freq)

-- `freq[term]`
abbrev pub freq_of : Text → Assoc Text ℕ → ℕ
freq_of t freq = or_zero (get dec_text t freq)

abbrev pub or_new {ℓ} : {A : Type ℓ} → Option (List A) → List A
or_new none = []
or_new (some l) = l

-- the loop over the terms of a document
unfoldable pub add_postings : Text → Assoc Text ℕ → Assoc Text ℕ → List Text → Postings → Postings
add_postings key body title [] ps = ps
add_postings key body title (t ∷ ts) ps = add_postings key body title ts (
    put dec_text t
      (put dec_text key (record { body_tf = freq_of t body; title_tf = freq_of t title })
        (or_new (get dec_text t ps)))
      ps)

-- a term that no document has is deleted
abbrev pub put_front : Text → Assoc Text Posting → Postings → Postings
put_front t [] ps = ps
put_front t (p ∷ pm) ps = (t, p ∷ pm) ∷ ps

-- the loop over the postings of `removeDoc`
unfoldable pub drop_key : Text → Postings → Postings
drop_key key [] = []
drop_key key (e ∷ ps) = put_front e.0 (remove dec_text key e.1) (drop_key key ps)

unfoldable pub sum_lengths : (DocMeta → ℕ) → List DocMeta → ℕ
sum_lengths size [] = 0
sum_lengths size (m ∷ ms) = size m + sum_lengths size ms

module _ {F : Type 0} (fl : Floats F) (cfg : Config F) where
  -- `tokenize`
  unfoldable pub tokenize : Text → List Text
  unfolding fields_func stems
  tokenize text =
      stems cfg.stemmer cfg.stop_words (fields_func cfg.is_word (to_lower cfg.unicode text))

  abbrev pub removed : Text → Option DocMeta → Snapshot F → Snapshot F
  removed key none s = s
  removed key (some m) s = record s {
    docs = remove dec_text key s.docs;
    postings = drop_key key s.postings;
  }

  -- `removeDoc`
  unfoldable pub remove_doc : Text → Snapshot F → Snapshot F
  unfolding drop_key
  remove_doc key s = removed key (get dec_text key s.docs) s

  -- `addDoc`
  unfoldable pub add_doc : Text → Doc → Snapshot F → Snapshot F
  unfolding tokenize term_freq add_postings
  add_doc key doc s =
      let body = term_freq (tokenize doc.body) [] in
      let title = term_freq (tokenize doc.title) [] in
      record s {
        postings = add_postings key body title (keys body ++ keys title) s.postings;
        docs =
            put dec_text key
              (record {
                ref = doc.ref;
                body_len = length (tokenize doc.body);
                title_len = length (tokenize doc.title);
                updated_at = doc.updated_at;
              })
              s.docs;
      }

  abbrev pub average : (DocMeta → ℕ) → List DocMeta → F
  average size [] = fl.of_ℕ 0
  average size (m ∷ ms) = fl.over (fl.of_ℕ (sum_lengths size (m ∷ ms))) (fl.of_ℕ (length (m ∷ ms)))

  -- `recomputeAvg`
  unfoldable pub recompute_avg : Snapshot F → Snapshot F
  unfolding sum_lengths
  recompute_avg s = record s {
    avg_body = average (λ m. m.body_len) (values s.docs);
    avg_title = average (λ m. m.title_len) (values s.docs);
  }

  -- `apply`
  unfoldable pub apply : Snapshot F → WriteOp → Snapshot F
  unfolding recompute_avg remove_doc add_doc doc_key
  apply s (remove_op ref) = recompute_avg (remove_doc (doc_key ref) s)
  apply s (add_op doc) =
      recompute_avg (add_doc (doc_key doc.ref) doc (remove_doc (doc_key doc.ref) s))

  -- the empty snapshot
  abbrev pub new_snapshot : Snapshot F
  new_snapshot = record { postings = []; docs = []; avg_body = fl.of_ℕ 0; avg_title = fl.of_ℕ 0 }
