-- ===== src/Index/Apply.antt =====
-- index.go: what one operation does to the snapshot.
use para_mcp.Prelude.{
  ◌≡◌, Bool, true, false, ◌||◌, Option, none, some, [], ◌++◌, length, arith, if◌then◌else◌,
  Option-cases, inl, inr,
}
use para_mcp.Prelude.Assoc.{get, has, keys, get-put, get-remove, Distinct}
use para_mcp.Prelude.Text.{Text, contains, same, dec_text}
use para_mcp.Storage.Local.{Doc}
use para_mcp.Index.{
  Floats, Config, Posting, Snapshot, WriteOp, add_op, remove_op, term_freq, tokenize, remove_doc,
  add_doc, recompute_avg, apply, doc_key,
}
use para_mcp.Storage.Graph.Laws.{by_path}
use para_mcp.Index.Laws.{
  posting_of, occurs, freqs, Distinct-drop_key, Distinct-add_postings, posting_of-drop_key,
  posting_of-add_postings, freq_of-term_freq, contains-keys, has-term_freq, contains-append,
}

module _ {F : Type 0} (fl : Floats F) (cfg : Config F) where
  -- Each term is listed once, and only documents that are held have postings.
  pub record IsIndex (s : Snapshot F) : Type 0 where
    pub distinct : Distinct dec_text s.postings
    pub held :
        (u k : Text) → (if has dec_text k s.docs then none else posting_of u k s.postings) ≡ none

  -- what a document has under a term
  abbrev pub doc_posting : Doc → Text → Option Posting
  doc_posting doc u =
      let body = tokenize fl cfg doc.body in
      let title = tokenize fl cfg doc.title in
      if contains u body || contains u title
      then some (record { body_tf = occurs u body; title_tf = occurs u title })
      else none

  -- the posting behind an operation
  abbrev pub posting_after : WriteOp → Text → Text → Option Posting → Option Posting
  posting_after (remove_op ref) u k old = if same (doc_key ref) k then none else old
  posting_after (add_op doc) u k old = if same (doc_key doc.ref) k then doc_posting doc u else old

  -- the documents behind an operation
  abbrev pub holds_after : WriteOp → Text → Bool → Bool
  holds_after (remove_op ref) k old = if same (doc_key ref) k then false else old
  holds_after (add_op doc) k old = if same (doc_key doc.ref) k then true else old

  Removes : Text → Snapshot F → Snapshot F → Type 0
  Removes key s out =
      Distinct dec_text out.postings
      × ((k : Text)
          → has dec_text k out.docs ≡ (if same key k then false else has dec_text k s.docs))
      × ((u k : Text)
          → posting_of u k out.postings ≡ (if same key k then none else posting_of u k s.postings))

  remove_doc-Removes :
      (key : Text) (s : Snapshot F) → IsIndex s → Removes key s (remove_doc fl cfg key s)
  unfolding remove_doc Removes
  remove_doc-Removes key s h = elim (Option-cases (get dec_text key s.docs)) [
    | inl e ↦ rw e (
      h.distinct,
      (λ k.
          by_path
            (λ j. has dec_text j s.docs ≡ (if same key j then false else has dec_text j s.docs)) key
            (ground arith) (λ j n. ground arith) k),
      λ u k.
          by_path
            (λ j.
              posting_of u j s.postings ≡ (if same key j then none else posting_of u j s.postings))
            key (ground (arith, h.held u key)) (λ j n. ground arith) k,
    )
    | inr (m, e) ↦ rw e (
      Distinct-drop_key key s.postings h.distinct,
      (λ k. ground (arith, get-remove dec_text key k s.docs)),
      λ u k. posting_of-drop_key key u k s.postings h.distinct,
    )
  ]

  -- the terms of a document, as the loop goes over them
  terms_lem :
      (doc : Doc) (u : Text)
      → let body = term_freq (tokenize fl cfg doc.body) [] in
        let title = term_freq (tokenize fl cfg doc.title) [] in
        (if contains u (keys body ++ keys title) then some (freqs u body title) else none)
        ≡ doc_posting doc u
  unfolding get
  terms_lem doc u =
      let body = term_freq (tokenize fl cfg doc.body) [] in
      let title = term_freq (tokenize fl cfg doc.title) [] in
      ground (
        arith,
        contains-append u (keys body) (keys title),
        contains-keys u body,
        contains-keys u title,
        has-term_freq u (tokenize fl cfg doc.body) [],
        has-term_freq u (tokenize fl cfg doc.title) [],
        freq_of-term_freq u (tokenize fl cfg doc.body) [],
        freq_of-term_freq u (tokenize fl cfg doc.title) [],
      )

  Adds : Text → Doc → Snapshot F → Snapshot F → Type 0
  Adds key doc s out =
      Distinct dec_text out.postings
      × ((k : Text)
          → has dec_text k out.docs ≡ (if same key k then true else has dec_text k s.docs))
      × ((u k : Text)
          → posting_of u k out.postings
            ≡ (if same key k then doc_posting doc u else posting_of u k s.postings))

  add_doc-Adds :
      (key : Text) (doc : Doc) (s r : Snapshot F)
      → Removes key s r
      → Adds key doc s (add_doc fl cfg key doc r)
  unfolding add_doc Removes Adds
  add_doc-Adds key doc s r (d, h, p) =
      let body = term_freq (tokenize fl cfg doc.body) [] in
      let title = term_freq (tokenize fl cfg doc.title) [] in
      (
        Distinct-add_postings key body title (keys body ++ keys title) r.postings d,
        (λ k. ground (
          arith,
          h k,
          get-put dec_text key k
              (record {
                ref = doc.ref;
                body_len = length (tokenize fl cfg doc.body);
                title_len = length (tokenize fl cfg doc.title);
                updated_at = doc.updated_at;
              })
              r.docs,
        )),
        λ u k. ground (
          arith,
          p u k,
          terms_lem doc u,
          posting_of-add_postings key k u body title (keys body ++ keys title) r.postings,
        ),
      )

  -- Each operation keeps the snapshot an index: a document that is added has exactly the postings of the
  -- terms of its text and its title, with how often each occurs there, also where it was held before; one
  -- that is removed has none; and the postings of all other documents stay as they are.
  pub apply_lem :
      (s : Snapshot F) (op : WriteOp)
      → IsIndex s
      → IsIndex (apply fl cfg s op)
        × ((k : Text)
            → has dec_text k (apply fl cfg s op).docs ≡ holds_after op k (has dec_text k s.docs))
        × ((u k : Text)
            → posting_of u k (apply fl cfg s op).postings
              ≡ posting_after op u k (posting_of u k s.postings))
  unfolding apply recompute_avg Removes Adds
  apply_lem s (remove_op ref) h =
      let (d, k, p) = remove_doc-Removes (doc_key ref) s h in
      (record { distinct = d; held = λ u j. ground (arith, k j, p u j, h.held u j) }, k, p)
  apply_lem s (add_op doc) h =
      let r = remove_doc fl cfg (doc_key doc.ref) s in
      let (d, k, p) =
        add_doc-Adds (doc_key doc.ref) doc s r (remove_doc-Removes (doc_key doc.ref) s h) in
      (record { distinct = d; held = λ u j. ground (arith, k j, p u j, h.held u j) }, k, p)
