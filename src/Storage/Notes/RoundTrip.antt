-- ===== src/Storage/Notes/RoundTrip.antt =====
-- noteutil.go: a note that is written is the note that is read.
use para_mcp.Prelude.{
  ℕ, ◌≡◌, refl, ap, ap₂, ◌∙◌, not, Bool, true, false, ◌||◌, Option, none, some, [], ◌∷◌, ◌++◌,
  arith, ◌==◌, if◌then◌else◌,
}
use para_mcp.Prelude.Text.{Text, same, cut_prefix, has_rune, dec_text}
use para_mcp.Domain.Results.{ok, ◌>>=◌}
use para_mcp.Domain.Entities.{FrontMatter}
use para_mcp.Storage.Notes.{
  Codec, delimiter, newline, cut_text, or_found, behind, trim_newlines, parse_note, parse_opened,
  decoded, format_note, note_text, with_text,
}

-- A prefix that is not found is not found where a code point follows that it does not have.
cut_prefix-append :
    (p : Text) (c : ℕ) (s t : Text)
    → has_rune c p ≡ false
    → cut_prefix p s ≡ none
    → cut_prefix p (s ++ c ∷ t) ≡ none
unfolding cut_prefix has_rune
cut_prefix-append [] c s t absent miss = cc
cut_prefix-append (a ∷ p) c [] t absent miss = ground arith
cut_prefix-append (a ∷ p) c (b ∷ s) t absent miss = ground (arith, cut_prefix-append p c s t)

cut_prefix_self : (p t : Text) → cut_prefix p (p ++ t) ≡ some t
unfolding cut_prefix
cut_prefix_self [] t = refl
cut_prefix_self (a ∷ p) t = ground (arith, cut_prefix_self p t)

or_found-none :
    (o : Option Text) (later : Option (Text × Text))
    → or_found o later ≡ none
    → (o ≡ none) × (later ≡ none)
or_found-none none later h = (refl, h)
or_found-none (some r) later h = absurd (cc)

behind-none : (b : ℕ) (o : Option (Text × Text)) → behind b o ≡ none → o ≡ none
behind-none b none h = refl
behind-none b (some x) h = absurd (cc)

-- The first occurrence of a line is the one written behind a text without it.
cut_text-append :
    (p : Text) (c : ℕ) (s t : Text)
    → has_rune c p ≡ false
    → cut_text (c ∷ p) s ≡ none
    → cut_text (c ∷ p) (s ++ (c ∷ (p ++ t))) ≡ some (s, t)
unfolding cut_text cut_prefix
cut_text-append p c [] t absent miss =
    ap (λ o. or_found o (behind c (cut_text (c ∷ p) (p ++ t)))) (cut_prefix_self (c ∷ p) t)
cut_text-append p c (b ∷ s) t absent miss =
    let (here, later) =
      or_found-none (cut_prefix (c ∷ p) (b ∷ s)) (behind b (cut_text (c ∷ p) s)) miss in
    let rest = cut_text-append p c s t absent (behind-none b (cut_text (c ∷ p) s) later) in
    let still : cut_prefix (c ∷ p) ((b ∷ s) ++ (c ∷ (p ++ t))) ≡ none =
      ground (arith, cut_prefix-append p c s (p ++ t) absent) in
    ap₂ (λ o r. or_found o (behind b r)) still rest

-- A body that no line end starts.
abbrev pub starts_clean : Text → Bool
starts_clean [] = true
starts_clean (c ∷ s) = not (c == newline || c == 13)

pub trim_newlines-clean : (body : Text) → starts_clean body ≡ true → trim_newlines body ≡ body
unfolding trim_newlines
trim_newlines-clean [] h = refl
trim_newlines-clean (c ∷ s) h = ground arith

trim_newlines-written :
    (body : Text)
    → trim_newlines (newline ∷ (if same body [] then [] else newline ∷ body)) ≡ trim_newlines body
unfolding trim_newlines dec_text
trim_newlines-written [] = refl
trim_newlines-written (c ∷ s) = refl

-- What the YAML of a front matter is: lines, none of them the closing one, that decode to it.
pub record IsYaml {N : Type 0} (c : Codec N) (fm : FrontMatter) (lines : Text) : Type 0 where
  pub marshalled : c.marshal fm ≡ some (lines ++ (newline ∷ []))
  pub unmarshalled : c.unmarshal lines ≡ some fm
  pub not_closed : cut_text (newline ∷ delimiter) lines ≡ none

line_end : (lines t : Text) → (lines ++ (newline ∷ [])) ++ t ≡ lines ++ (newline ∷ t)
line_end [] t = refl
line_end (a ∷ s) t = ap (◌∷◌ a) (line_end s t)

-- The file of a note reads as its front matter, and its body without the line ends before it.
pub parse_note-note_text :
    {N : Type 0} (c : Codec N) (fm : FrontMatter) (lines body : Text)
    → IsYaml c fm lines
    → parse_note c (note_text c (lines ++ (newline ∷ [])) body) ≡ ok (fm, trim_newlines body)
unfolding parse_note note_text cut_prefix has_rune
parse_note-note_text c fm lines body y =
    let tail = newline ∷ (if same body [] then [] else newline ∷ body) in
    let file = note_text c (lines ++ (newline ∷ [])) body in
    ap (λ t. parse_opened c file (cut_text (newline ∷ delimiter) t))
      (line_end lines (delimiter ++ tail))
    ∙ ap (parse_opened c file) (cut_text-append delimiter newline lines tail refl y.not_closed)
    ∙ ap (λ o. decoded c o tail) y.unmarshalled
    ∙ ap (λ b. ok (fm, b)) (trim_newlines-written body)

pub format_note-IsYaml :
    {N : Type 0} (c : Codec N) (fm : FrontMatter) (lines body : Text)
    → IsYaml c fm lines
    → format_note c fm body ≡ ok (note_text c (lines ++ (newline ∷ [])) body)
unfolding format_note
format_note-IsYaml c fm lines body y = ap (λ o. with_text c o body) y.marshalled

-- Where the front matter is written as lines of YAML that decode to it again, none of them the closing line,
-- a note that is written reads as the same front matter and, if no line end starts it, the same body.
pub parse_note-format_note :
    {N : Type 0} (c : Codec N) (fm : FrontMatter) (lines body : Text)
    → IsYaml c fm lines
    → starts_clean body ≡ true
    → format_note c fm body >>= parse_note c ≡ ok (fm, body)
parse_note-format_note c fm lines body y clean =
    ap (λ r. r >>= parse_note c) (format_note-IsYaml c fm lines body y)
    ∙ parse_note-note_text c fm lines body y
    ∙ ap (λ b. ok (fm, b)) (trim_newlines-clean body clean)
