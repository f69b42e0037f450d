-- ===== src/Index/Laws.antt =====
-- index.go: after each operation the postings are those of the documents that are held.
use para_mcp.Prelude.{
  ℕ, ◌+◌, ◌≡◌, refl, ap, sym, subst, ◌∙◌, true, ◌&&◌, Option, none, some, List, [], ◌∷◌, ◌++◌,
  count, is_some, arith, if◌then◌else◌,
}
use para_mcp.Prelude.Assoc.{
  Assoc, get, put, remove, keys, get-put, get-remove, Distinct, Distinct-put,
}
use para_mcp.Prelude.Text.{Text, contains, same, dec_text}
use para_mcp.Index.{
  Posting, Postings, or_zero, term_freq, freq_of, or_new, add_postings, put_front, drop_key,
}

-- the posting of a document under a term
abbrev pub posting_of : Text → Text → Postings → Option Posting
posting_of t k ps = get dec_text k (or_new (get dec_text t ps))

-- how often a term occurs
abbrev pub occurs : Text → List Text → ℕ
occurs t ts = count (λ u. same u t) ts

posting_of-put :
    (t u key k : Text) (p : Posting) (ps : Postings)
    → posting_of u k (put dec_text t (put dec_text key p (or_new (get dec_text t ps))) ps)
      ≡ (if same t u && same key k then some p else posting_of u k ps)
posting_of-put t u key k p ps =
    let pm = put dec_text key p (or_new (get dec_text t ps)) in
    elim (dec_text t u) [
      | yes e ↦
          subst
            (λ v.
              posting_of v k (put dec_text t pm ps)
              ≡ (if same t v && same key k then some p else posting_of v k ps))
            e
            (ground (
              arith,
              get-put dec_text t t pm ps,
              get-put dec_text key k p (or_new (get dec_text t ps)),
            ))
      | no n ↦ ground (arith, get-put dec_text t u pm ps)
    ]

-- the posting that a document's terms give
abbrev pub freqs : Text → Assoc Text ℕ → Assoc Text ℕ → Posting
freqs t body title = record { body_tf = freq_of t body; title_tf = freq_of t title }

pub posting_of-add_postings :
    (key k u : Text) (body title : Assoc Text ℕ) (ts : List Text) (ps : Postings)
    → posting_of u k (add_postings key body title ts ps)
      ≡ (if contains u ts && same key k then some (freqs u body title) else posting_of u k ps)
unfolding add_postings contains
posting_of-add_postings key k u body title [] ps = refl
posting_of-add_postings key k u body title (t ∷ ts) ps =
    let next =
      put dec_text t (put dec_text key (freqs t body title) (or_new (get dec_text t ps))) ps in
    let rest = posting_of-add_postings key k u body title ts next in
    elim (dec_text t u) [
      | yes e ↦ ground (
        arith,
        rest,
        posting_of-put t u key k (freqs t body title) ps,
        ap (λ v. freqs v body title) e,
      )
      | no n ↦ ground (arith, rest, posting_of-put t u key k (freqs t body title) ps)
    ]

or_new-put_front :
    (u t : Text) (pm : Assoc Text Posting) (ps : Postings)
    → (if same u t then or_new (get dec_text t ps) else []) ≡ []
    → or_new (get dec_text t (put_front u pm ps))
      ≡ (if same u t then pm else or_new (get dec_text t ps))
unfolding get
or_new-put_front u t [] ps h = ground arith
or_new-put_front u t (p ∷ pm) ps h = ground arith

get-drop_key :
    (key t : Text) (ps : Postings)
    → Distinct dec_text ps
    → or_new (get dec_text t (drop_key key ps)) ≡ remove dec_text key (or_new (get dec_text t ps))
unfolding get drop_key remove
get-drop_key key t [] d = refl
get-drop_key key t (e ∷ ps) d =
    let rest = get-drop_key key t ps d.1 in
    elim (dec_text e.0 t) [
      | yes p ↦
          let gone : get dec_text t ps ≡ none = ap (λ v. get dec_text v ps) (sym p) ∙ d.0 in
          let empty : or_new (get dec_text t (drop_key key ps)) ≡ [] =
            rest ∙ ap (λ o. remove dec_text key (or_new o)) gone in
          or_new-put_front e.0 t (remove dec_text key e.1) (drop_key key ps) (ground (arith, empty))
          ∙ ground arith
      | no n ↦
          or_new-put_front e.0 t (remove dec_text key e.1) (drop_key key ps) (ground arith)
          ∙ ground (arith, rest)
    ]

get_absent-drop_key :
    (key t : Text) (ps : Postings)
    → get dec_text t ps ≡ none
    → get dec_text t (drop_key key ps) ≡ none
unfolding get drop_key
get_absent-drop_key key t [] h = refl
get_absent-drop_key key t (e ∷ ps) h = elim (dec_text e.0 t) [
  | yes p ↦ absurd (ground arith)
  | no n ↦ front (remove dec_text key e.1) (get_absent-drop_key key t ps (ground arith)) n
]
  where
    front :
        (pm : Assoc Text Posting)
        → get dec_text t (drop_key key ps) ≡ none
        → ¬ (e.0 ≡ t)
        → get dec_text t (put_front e.0 pm (drop_key key ps)) ≡ none
    front [] h n = h
    front (p ∷ pm) h n = ground arith

pub Distinct-drop_key :
    (key : Text) (ps : Postings) → Distinct dec_text ps → Distinct dec_text (drop_key key ps)
unfolding drop_key
Distinct-drop_key key [] d = tt
Distinct-drop_key key (e ∷ ps) d = front (remove dec_text key e.1) (Distinct-drop_key key ps d.1)
  where
    front :
        (pm : Assoc Text Posting)
        → Distinct dec_text (drop_key key ps)
        → Distinct dec_text (put_front e.0 pm (drop_key key ps))
    front [] h = h
    front (p ∷ pm) h = (get_absent-drop_key key e.0 ps d.0, h)

pub Distinct-add_postings :
    (key : Text) (body title : Assoc Text ℕ) (ts : List Text) (ps : Postings)
    → Distinct dec_text ps
    → Distinct dec_text (add_postings key body title ts ps)
unfolding add_postings
Distinct-add_postings key body title [] ps d = d
Distinct-add_postings key body title (t ∷ ts) ps d =
    let pm = put dec_text key (freqs t body title) (or_new (get dec_text t ps)) in
    Distinct-add_postings key body title ts (put dec_text t pm ps) (Distinct-put dec_text t pm ps d)

pub posting_of-drop_key :
    (key u k : Text) (ps : Postings)
    → Distinct dec_text ps
    → posting_of u k (drop_key key ps) ≡ (if same key k then none else posting_of u k ps)
posting_of-drop_key key u k ps d =
    ap (get dec_text k) (get-drop_key key u ps d)
    ∙ ground (arith, get-remove dec_text key k (or_new (get dec_text u ps)))

freq_of-put :
    (t u : Text) (freq : Assoc Text ℕ)
    → freq_of u (put dec_text t (or_zero (get dec_text t freq) + 1) freq)
      ≡ (if same t u then 1 else 0) + freq_of u freq
freq_of-put t u freq = elim (dec_text t u) [
  | yes e ↦
      subst
        (λ v.
          freq_of v (put dec_text t (or_zero (get dec_text t freq) + 1) freq)
          ≡ (if same t v then 1 else 0) + freq_of v freq)
        e (ground (arith, get-put dec_text t t (or_zero (get dec_text t freq) + 1) freq))
  | no n ↦ ground (arith, get-put dec_text t u (or_zero (get dec_text t freq) + 1) freq)
]

pub freq_of-term_freq :
    (u : Text) (ts : List Text) (freq : Assoc Text ℕ)
    → freq_of u (term_freq ts freq) ≡ occurs u ts + freq_of u freq
unfolding term_freq
freq_of-term_freq u [] freq = omega arith
freq_of-term_freq u (t ∷ ts) freq = ground (
  arith,
  freq_of-term_freq u ts (put dec_text t (or_zero (get dec_text t freq) + 1) freq),
  freq_of-put t u freq,
)

pub contains-keys :
    {V : Type 0} (u : Text) (m : Assoc Text V) → contains u (keys m) ≡ is_some (get dec_text u m)
unfolding contains get
contains-keys u [] = refl
contains-keys u (e ∷ m) = ground (arith, contains-keys u m)

pub has-term_freq :
    (u : Text) (ts : List Text) (freq : Assoc Text ℕ)
    → is_some (get dec_text u (term_freq ts freq))
      ≡ (if contains u ts then true else is_some (get dec_text u freq))
unfolding term_freq contains
has-term_freq u [] freq = refl
has-term_freq u (t ∷ ts) freq = ground (
  arith,
  has-term_freq u ts (put dec_text t (or_zero (get dec_text t freq) + 1) freq),
  get-put dec_text t u (or_zero (get dec_text t freq) + 1) freq,
)

pub contains-append :
    (u : Text) (a b : List Text)
    → contains u (a ++ b) ≡ (if contains u a then true else contains u b)
unfolding contains
contains-append u [] b = refl
contains-append u (t ∷ a) b = ground (arith, contains-append u a b)
