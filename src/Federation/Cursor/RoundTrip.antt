-- ===== src/Federation/Cursor/RoundTrip.antt =====
-- What a cursor decodes to, and which cursors are taken.
use para_mcp.Prelude.{
  ◌≤◌, ◌+◌, ◌≡◌, ◌⊎◌, refl, sym, ap, ap₂, ◌∙◌, subst, true, false, Option, none, some, [], ◌∷◌,
  ◌++◌, arith, leb, length, if◌then◌else◌, Bool-cases, inl, inr, ◌==◌, ℕ,
}
use para_mcp.Prelude.Text.{Text, cut_prefix, has_rune, same, dec_text}
use para_mcp.Domain.Results.{Result, ok}
use para_mcp.Domain.Entities.{Time}
use para_mcp.Federation.Scopes.{Payload}
use para_mcp.Server.Handles.{Handles, IsHandles, view, put_handle, get_handle-view, put_handle-view}
use para_mcp.Federation.Cursor.{
  Bytes, Codec, IsCodec, handle_prefix, handle_ttl, inline_budget, cut_last, cut_before,
  cursor_hmac, set_content, set_payload, payload_of, get_payload, encode_handle, encode_content,
  encode_cursor, or_invalid, verify, decode_inline, decode_split, decode_cursor,
}

no_prefix : (t : Text) → has_rune b':' t ≡ false → cut_prefix handle_prefix t ≡ none
unfolding cut_prefix has_rune
no_prefix [] h = refl
no_prefix (a ∷ []) h = ground arith
no_prefix (a ∷ b ∷ t) h = ground arith

cut_last-none : (c : ℕ) (t : Text) → has_rune c t ≡ false → cut_last c t ≡ none
unfolding cut_last has_rune
cut_last-none c [] h = refl
cut_last-none c (b ∷ t) h = ground (arith, cut_last-none c t)

-- The last bar is the one before a text without bars.
cut_last_append :
    (c : ℕ) (s t : Text) → has_rune c t ≡ false → cut_last c (s ++ c ∷ t) ≡ some (s, t)
unfolding cut_last
cut_last_append c [] t h = rw (cut_last-none c t h) (ground arith)
cut_last_append c (b ∷ s) t h = rw (cut_last_append c s t h) refl

fst_of : {x y v w : Text} → ◌≡◌ {A = Option (Text × Text)} (some (x, y)) (some (v, w)) → x ≡ v
fst_of h = cc h

snd_of : {x y v w : Text} → ◌≡◌ {A = Option (Text × Text)} (some (x, y)) (some (v, w)) → y ≡ w
snd_of h = cc h

text_of : {x y : Text} → ◌≡◌ {A = Result Text} (ok x) (ok y) → x ≡ y
text_of h = cc h

cut_last_whole : (c : ℕ) (t x y : Text) → cut_last c t ≡ some (x, y) → t ≡ x ++ c ∷ y
unfolding cut_last
cut_last_whole c [] x y h = absurd (cc h)
cut_last_whole c (b ∷ t) x y h = go (cut_last c t) (λ v w q. cut_last_whole c t v w q) h
  where
    go :
        (o : Option (Text × Text))
        → ((v w : Text) → o ≡ some (v, w) → t ≡ v ++ c ∷ w)
        → cut_before c b t o ≡ some (x, y)
        → ◌≡◌ {A = Text} (b ∷ t) (x ++ c ∷ y)
    go (some (v, w)) p k = ap (◌∷◌ b) (p v w refl) ∙ ap₂ (λ v w. v ++ c ∷ w) (fst_of k) (snd_of k)
    go none p k = elim (Bool-cases (b == c)) [
      | inl e ↦ ground (arith, fst_of (rw e at k), snd_of (rw e at k))
      | inr e ↦ absurd (cc (rw e at k))
    ]

cut_prefix_whole : (q t r : Text) → cut_prefix q t ≡ some r → t ≡ q ++ r
unfolding cut_prefix
cut_prefix_whole [] t r h = cc h
cut_prefix_whole (a ∷ q) [] r h = absurd (cc h)
cut_prefix_whole (a ∷ q) (b ∷ t) r h = elim (Bool-cases (a == b)) [
  | inl e ↦ ground (arith, cut_prefix_whole q t r (rw e at h))
  | inr e ↦ absurd (cc (rw e at h))
]

module _ (c : Codec) where
  decode_whole :
      (key : Bytes) (now : Time) (content : Bytes) (p : Payload) (s : Handles)
      → IsCodec c
      → c.unmarshal content ≡ some p
      → (decode_cursor c key now (c.encode64 (content ++ b'|' ∷ cursor_hmac c key content)) s).0
        ≡ ok p
  unfolding decode_cursor decode_inline verify cursor_hmac
  decode_whole key now content p s laws um =
      let mac = cursor_hmac c key content in
      let whole = content ++ b'|' ∷ mac in
      let t = c.encode64 whole in
      ap (λ o. (decode_split c key now t s o).0) (no_prefix t (laws.no_colon whole))
      ∙ ap (decode_inline c key) (laws.decode64-encode64 whole)
      ∙ ap (verify c key) (cut_last_append b'|' content mac (laws.no_bar (c.hmac key content)))
      ∙ ground (arith, um)

  decode_handle :
      (key : Bytes) (now later : Time) (handle : Text) (content : Bytes) (p : Payload) (s : Handles)
      → IsHandles s
      → c.unmarshal content ≡ some p
      → now ≤ later
      → later ≤ now + handle_ttl
      → (decode_cursor c key later
          (handle_prefix ++ handle)
          (put_handle now handle content handle_ttl s)).0
        ≡ ok p
  unfolding decode_cursor get_payload cut_prefix
  decode_handle key now later handle content p s d um h k =
      let s' = put_handle now handle content handle_ttl s in
      let (d', v) = put_handle-view now later handle handle content handle_ttl s d h in
      let read = (get_handle-view later later handle handle s' d' (omega arith)).1 in
      ap (λ o. or_invalid c (payload_of c o)) (read ∙ v ∙ live) ∙ ap (or_invalid c) um
    where
      live :
          (if same handle handle
            then (if leb later (now + handle_ttl) then some content else none)
            else view s later handle)
          ≡ some content
      live = ground arith

  -- A cursor decodes to the payload that it was made from, under the same key: a cursor that is sent
  -- whole at any later time, and a handle for ten minutes. The payload survives its JSON form.
  pub decode_cursor-encode_cursor :
      (key : Bytes) (now later : Time) (random : Option Bytes) (p : Payload) (content : Bytes)
      (s s' : Handles) (t : Text)
      → IsCodec c
      → IsHandles s
      → c.marshal p ≡ some content
      → c.unmarshal content ≡ some p
      → encode_cursor c key now random p s ≡ (ok t, s')
      → now ≤ later
      → (leb (length (content ++ b'|' ∷ cursor_hmac c key content)) inline_budget ≡ true)
        ⊎ (later ≤ now + handle_ttl)
      → (decode_cursor c key later t s').0 ≡ ok p
  unfolding encode_cursor encode_handle set_payload
  decode_cursor-encode_cursor key now later random p content s s' t laws d m um e h k =
      elim (Bool-cases (leb (length whole) inline_budget)) [
        | inl short ↦ sent_whole (rw short at e')
        | inr long ↦ elim k [
          | inl short ↦ absurd (cc (long, short))
          | inr soon ↦ by_handle random soon (rw long at e')
        ]
      ]
    where
      whole : Bytes
      whole = content ++ b'|' ∷ cursor_hmac c key content

      e' : encode_content c key now random p s (some content) ≡ (ok t, s')
      e' = ap (encode_content c key now random p s) (sym m) ∙ e

      sent_whole :
          ◌≡◌ {A = Result Text × Handles} (ok (c.encode64 whole), s) (ok t, s')
          → (decode_cursor c key later t s').0 ≡ ok p
      sent_whole q =
          subst (λ x. (decode_cursor c key later x s').0 ≡ ok p) (text_of (ap (λ z. z.0) q))
            (decode_whole key later content p s' laws um)

      by_handle :
          (r : Option Bytes)
          → later ≤ now + handle_ttl
          → encode_handle c now r p s ≡ (ok t, s')
          → (decode_cursor c key later t s').0 ≡ ok p
      by_handle none soon q = absurd (cc (ap (λ z. z.0) q))
      by_handle (some r) soon q =
          subst (λ x. (decode_cursor c key later x s').0 ≡ ok p) (text_of (ap (λ z. z.0) q))
            (subst (λ x. (decode_cursor c key later (handle_prefix ++ c.encode64 r) x).0 ≡ ok p)
              (ap (λ x. set_content c now (c.encode64 r) x s) (sym m) ∙ ap (λ z. z.1) q)
              (decode_handle key now later (c.encode64 r) content p s d um h soon))

  -- A cursor that is taken holds a content that is signed with the server's key, or names a live
  -- handle of its store, and the payload is read from that content.
  pub decode_cursor_lem :
      (key : Bytes) (now : Time) (t : Text) (s : Handles) (p : Payload)
      → IsHandles s
      → (decode_cursor c key now t s).0 ≡ ok p
      → ((content : Bytes) × (c.decode64 t ≡ some (content ++ b'|' ∷ cursor_hmac c key content))
          × (c.unmarshal content ≡ some p))
        ⊎ ((handle : Text) × (content : Bytes) × (t ≡ handle_prefix ++ handle)
            × (view s now handle ≡ some content)
            × (c.unmarshal content ≡ some p))
  unfolding decode_cursor get_payload decode_inline verify
  decode_cursor_lem key now t s p d h = go (cut_prefix handle_prefix t) refl h
    where
      Signed : Text → Type 0
      Signed raw =
          (content : Bytes) × (raw ≡ content ++ b'|' ∷ cursor_hmac c key content)
          × (c.unmarshal content ≡ some p)

      accepted : (o : Option Payload) → or_invalid c o ≡ ok p → o ≡ some p
      accepted none k = absurd (cc k)
      accepted (some x) k = cc k

      verified :
          (raw : Text) (o : Option (Text × Text))
          → cut_last b'|' raw ≡ o
          → verify c key o ≡ ok p
          → Signed raw
      verified raw none q k = absurd (cc k)
      verified raw (some (content, mac)) q k = elim (dec_text mac (cursor_hmac c key content)) [
        | yes e ↦ (
          content,
          cut_last_whole b'|' raw content mac q ∙ ap (λ x. content ++ b'|' ∷ x) e,
          accepted (c.unmarshal content) (ground arith),
        )
        | no e ↦ absurd (ground arith)
      ]

      inline :
          (o : Option Bytes)
          → decode_inline c key o ≡ ok p
          → (content : Bytes) × (o ≡ some (content ++ b'|' ∷ cursor_hmac c key content))
            × (c.unmarshal content ≡ some p)
      inline none k = absurd (cc k)
      inline (some raw) k =
          let (content, whole, um) = verified raw (cut_last b'|' raw) refl k in
          (content, ap some whole, um)

      stored :
          (handle : Text) (o : Option Bytes)
          → view s now handle ≡ o
          → or_invalid c (payload_of c o) ≡ ok p
          → (content : Bytes) × (view s now handle ≡ some content) × (c.unmarshal content ≡ some p)
      stored handle none q k = absurd (cc k)
      stored handle (some content) q k = (content, q, accepted (c.unmarshal content) k)

      go :
          (o : Option Text)
          → cut_prefix handle_prefix t ≡ o
          → (decode_split c key now t s o).0 ≡ ok p
          → ((content : Bytes) × (c.decode64 t ≡ some (content ++ b'|' ∷ cursor_hmac c key content))
              × (c.unmarshal content ≡ some p))
            ⊎ ((handle : Text) × (content : Bytes) × (t ≡ handle_prefix ++ handle)
                × (view s now handle ≡ some content)
                × (c.unmarshal content ≡ some p))
      go none q k = inl (inline (c.decode64 t) k)
      go (some handle) q k =
          let read = (get_handle-view now now handle handle s d (omega arith)).1 in
          let (content, there, um) =
            stored handle (view s now handle) refl
              (subst (λ o. or_invalid c (payload_of c o) ≡ ok p) read k) in
          inr (handle, content, cut_prefix_whole handle_prefix t handle q, there, um)
