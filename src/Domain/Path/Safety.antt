-- ===== src/Domain/Path/Safety.antt =====
-- An accepted path stays below a PARA folder of the vault.
use mathlib.Core.Bool.{false≢true}
use mathlib.Core.List.{reverse, reverse-cons}
use para_mcp.Prelude.{
  ◌≡◌, ◌≢◌, refl, sym, ap, ◌∙◌, ◌⊎◌, inl, inr, Bool, true, false, List, [], ◌∷◌, ◌++◌, arith,
  if◌then◌else◌, ◌==◌, is_some, All, All-append, Bool-cases, is,
}
use para_mcp.Prelude.Text.{
  Text, Unicode, codes, same, dec_text, cut, cut_prefix, contains, has_rune, to_lower,
}
use para_mcp.Domain.Results.{ok}
use para_mcp.Domain.Path.Clean.{dot, dotdot, split, join, back, push, walk, written, clean, IsName}
use para_mcp.Domain.Path.{NormalizedPath, roots, traverses, canonical, normalize}

abbrev NoSlash : Text → Type 0
NoSlash s = has_rune b'/' s ≡ false

split-NoSlash : (s : Text) → All NoSlash ((split s).0 ∷ (split s).1)
unfolding split has_rune
split-NoSlash [] = (refl, tt)
split-NoSlash (c ∷ s) =
    let h = split-NoSlash s in
    elim (Bool-cases (c == b'/')) [
      | inl e ↦ rw e (refl, h)
      | inr e ↦ rw e (ground (arith, h.0), h.1)
    ]

-- The kept segments are names, above `..` segments only.
abbrev Shape : List Text → Type 0
Shape [] = Unit
Shape (t ∷ out) = (IsName t × Shape out) ⊎ ((t ≡ dotdot) × All (λ s. s ≡ dotdot) out)

dots-Shape : (out : List Text) → All (λ s. s ≡ dotdot) out → Shape out
dots-Shape [] h = tt
dots-Shape (t ∷ out) h = inr h

back-Shape : (rooted : Bool) (out : List Text) → Shape out → Shape (back rooted out)
unfolding back
back-Shape true [] h = tt
back-Shape false [] h = inr (refl, tt)
back-Shape rooted (t ∷ out) (inl (n, h)) =
    elim (dec_text t dotdot) as (λ d. Shape (if is d then dotdot ∷ t ∷ out else out)) [
      | yes p ↦ absurd (n.not_dotdot p)
      | no p ↦ h
    ]
back-Shape rooted (t ∷ out) (inr (e, h)) =
    elim (dec_text t dotdot) as (λ d. Shape (if is d then dotdot ∷ t ∷ out else out)) [
      | yes p ↦ inr (refl, (e, h))
      | no p ↦ absurd (p e)
    ]

push-Shape :
    (rooted : Bool) (out : List Text) (s : Text) → NoSlash s → Shape out → Shape (push rooted out s)
unfolding push
push-Shape rooted out s slash h =
    elim (dec_text s [])
      as (λ d. Shape (
        if is d
        then out
        else if same s dot
        then out
        else if same s dotdot
        then back rooted out
        else s ∷ out)) [
          | yes p ↦ h
          | no p ↦
              elim (dec_text s dot)
                as (λ d.
                  Shape
                    (if is d then out else if same s dotdot then back rooted out else s ∷ out)) [
                      | yes q ↦ h
                      | no q ↦
                          elim (dec_text s dotdot)
                            as (λ d. Shape (if is d then back rooted out else s ∷ out)) [
                              | yes r ↦ back-Shape rooted out h
                              | no r ↦ inl (
                                record {
                                  not_empty = p;
                                  not_dot = q;
                                  not_dotdot = r;
                                  no_slash = slash;
                                },
                                h,
                              )
                            ]
                    ]
        ]

walk-Shape :
    (rooted : Bool) (out ss : List Text) → All NoSlash ss → Shape out → Shape (walk rooted out ss)
unfolding walk
walk-Shape rooted out [] a h = h
walk-Shape rooted out (s ∷ ss) a h =
    walk-Shape rooted (push rooted out s) ss a.1 (push-Shape rooted out s a.0 h)

-- Read from the start, such a stack begins with `..` or holds names only.
reverse-dots :
    (t : Text) (out : List Text)
    → All (λ s. s ≡ dotdot) (t ∷ out)
    → (rest : List Text) × (reverse (t ∷ out) ≡ dotdot ∷ rest)
reverse-dots t [] h = ([], rw (reverse-cons, h.0))
reverse-dots t (s ∷ out) h =
    let (rest, e) = reverse-dots s out h.1 in
    (rest ++ t ∷ [], reverse-cons t (s ∷ out) ∙ ap (λ l. l ++ t ∷ []) e)

Shape-cases :
    (out : List Text)
    → Shape out
    → All IsName out ⊎ ((rest : List Text) × (reverse out ≡ dotdot ∷ rest))
Shape-cases [] h = inl tt
Shape-cases (t ∷ out) (inl (n, h)) = elim (Shape-cases out h) [
  | inl names ↦ inl (n, names)
  | inr (rest, e) ↦ inr (rest ++ t ∷ [], reverse-cons t out ∙ ap (λ l. l ++ t ∷ []) e)
]
Shape-cases (t ∷ out) (inr h) = inr (reverse-dots t out h)

All-reverse : (P : Text → Type 0) (l : List Text) → All P l → All P (reverse l)
All-reverse P [] h = tt
All-reverse P (x ∷ l) h =
    rw reverse-cons (All-append P (reverse l) (x ∷ []) (All-reverse P l h.1) (h.0, tt))

traverses-dotdot : (rest : List Text) → traverses (join (dotdot ∷ rest)) ≡ true
unfolding join cut_prefix dec_text
traverses-dotdot [] = refl
traverses-dotdot (t ∷ ts) = refl

cut-join : (s : Text) (ss : List Text) → NoSlash s → (cut b'/' (join (s ∷ ss))).0 ≡ s
unfolding cut join has_rune
cut-join [] [] h = refl
cut-join [] (t ∷ ts) h = refl
cut-join (c ∷ s) ss h = ground (arith, cut-join s ss)

-- A path of directory entries, the first of them a PARA folder up to case.
pub record IsPara (u : Unicode) (path : Text) : Type 0 where
  pub folder : Text
  pub below : List Text
  pub spelled : path ≡ join (folder ∷ below)
  pub names : All IsName (folder ∷ below)
  pub known : contains (to_lower u folder) roots ≡ true

segments-IsPara :
    (u : Unicode) (segs : List Text)
    → segs ≢ []
    → All IsName segs
    → contains (to_lower u (cut b'/' (join segs)).0) roots ≡ true
    → IsPara u (join segs)
segments-IsPara u [] e n k = absurd (e refl)
segments-IsPara u (s ∷ ss) e n k = record {
  folder = s;
  below = ss;
  spelled = refl;
  names = n;
  known = rw (cut-join s ss n.0.no_slash) at k;
}

reverse-ne-nil : (t : Text) (out : List Text) → reverse (t ∷ out) ≢ []
reverse-ne-nil t out e = go (reverse out) (sym (reverse-cons t out) ∙ e)
  where
    go : (l : List Text) → l ++ t ∷ [] ≢ []
    go [] p = cc
    go (x ∷ l) p = cc

written-IsPara :
    (u : Unicode) (rooted : Bool) (out : List Text)
    → Shape out
    → traverses (written rooted out) ≡ false
    → contains (to_lower u (cut b'/' (written rooted out)).0) roots ≡ true
    → IsPara u (written rooted out)
unfolding contains cut
written-IsPara u true out h t k = absurd (ground arith)
written-IsPara u false [] h t k = absurd (ground arith)
written-IsPara u false (s ∷ out) h t k = elim (Shape-cases (s ∷ out) h) [
  | inl names ↦
      segments-IsPara u (reverse (s ∷ out)) (reverse-ne-nil s out)
        (All-reverse IsName (s ∷ out) names) k
  | inr (rest, e) ↦
      absurd (false≢true (sym t ∙ ap (λ l. traverses (join l)) e ∙ traverses-dotdot rest))
]

clean-IsPara :
    (u : Unicode) (path : Text)
    → traverses (clean path) ≡ false
    → contains (to_lower u (cut b'/' (clean path)).0) roots ≡ true
    → IsPara u (clean path)
unfolding clean
clean-IsPara u path =
    let rooted = is_some (cut_prefix (codes "/") path) in
    written-IsPara u rooted (walk rooted [] ((split path).0 ∷ (split path).1))
      (walk-Shape rooted [] ((split path).0 ∷ (split path).1) (split-NoSlash path) tt)

canonical-ok :
    (u : Unicode) (cs : Bool) (cleaned : Text) (np : NormalizedPath)
    → canonical u cs cleaned ≡ ok np
    → (traverses cleaned ≡ false)
      × (contains (to_lower u (cut b'/' cleaned).0) roots ≡ true)
      × (np.storage ≡ cleaned)
      × (np.index_key ≡ (if cs then cleaned else to_lower u cleaned))
unfolding canonical
canonical-ok u cs cleaned np h = ground arith

-- An accepted path consists of directory entries, none of them empty, `.`, `..` or with a slash, and
-- starts at a PARA folder; its index key is the path itself, or its lower case where the vault does
-- not tell cases apart. The given path has no NUL and no backslash, and does not start with a slash.
pub normalize-IsPara :
    (u : Unicode) (nfc : Text → Text) (path : Text) (cs : Bool) (np : NormalizedPath)
    → normalize u nfc path cs ≡ ok np
    → IsPara u np.storage
      × (np.index_key ≡ (if cs then np.storage else to_lower u np.storage))
      × (has_rune 0 path ≡ false)
      × (has_rune 92 path ≡ false)
      × (is_some (cut_prefix (codes "/") path) ≡ false)
unfolding normalize
normalize-IsPara u nfc path cs np h =
    let c : canonical u cs (clean (nfc path)) ≡ ok np = unfold canonical in ground arith in
    let (t, k, s, i) = canonical-ok u cs (clean (nfc path)) np c in
    (rw s (clean-IsPara u (nfc path) t k), rw s i, ground arith, ground arith, ground arith)
