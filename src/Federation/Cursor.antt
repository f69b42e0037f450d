-- ===== src/Federation/Cursor.antt =====
-- application/cursor.go: a cursor as text, either whole and signed, or as a handle into the store.
pub mod RoundTrip
use para_mcp.Prelude.{
  ℕ, ◌*◌, ◌≡◌, Bool, true, false, Option, none, some, List, [], ◌∷◌, ◌++◌, ◌==◌, leb, length,
  if◌then◌else◌,
}
use para_mcp.Prelude.Text.{Text, codes, same, cut_prefix, has_rune}
use para_mcp.Domain.Results.{Result, ok, err, Error, invalid_cursor, other}
use para_mcp.Domain.Entities.{Time}
use para_mcp.Federation.Scopes.{Payload}
use para_mcp.Server.Handles.{Handles, get_handle, put_handle}

-- a sequence of bytes
abbrev pub Bytes : Type 0
Bytes = List ℕ

-- `encoding/json` on payloads, `base64.RawURLEncoding`, and the HMAC of `crypto/hmac` with SHA-256.
pub record Codec : Type 0 where
  pub marshal : Payload → Option Bytes
  pub unmarshal : Bytes → Option Payload
  pub encode64 : Bytes → Text
  pub decode64 : Text → Option Bytes
  pub hmac : Bytes → Bytes → Bytes

-- What the encoding documents: it is decoded again, and its alphabet has neither `:` nor `|`.
pub record IsCodec (c : Codec) : Type 0 where
  pub decode64-encode64 : (b : Bytes) → c.decode64 (c.encode64 b) ≡ some b
  pub no_colon : (b : Bytes) → has_rune b':' (c.encode64 b) ≡ false
  pub no_bar : (b : Bytes) → has_rune b'|' (c.encode64 b) ≡ false

abbrev pub handle_prefix : Text
handle_prefix = codes "h:"

abbrev pub inline_budget : ℕ
inline_budget = 1024

-- 10 minutes, in nanoseconds
abbrev pub handle_ttl : Time
handle_ttl = 600 * 1000000000

abbrev pub cut_before : ℕ → ℕ → Text → Option (Text × Text) → Option (Text × Text)
cut_before c b s (some e) = some (b ∷ e.0, e.1)
cut_before c b s none = if b == c then some ([], s) else none

-- what stands before and behind the last `c`: `strings.LastIndex`, and the slices there
unfoldable pub cut_last : ℕ → Text → Option (Text × Text)
cut_last c [] = none
cut_last c (b ∷ s) = cut_before c b s (cut_last c s)

module _ (c : Codec) where
  -- `cursorHMAC`
  unfoldable pub cursor_hmac : Bytes → Bytes → Text
  cursor_hmac key content = c.encode64 (c.hmac key content)

  -- the adapter's `set`, which drops what does not marshal
  abbrev pub set_content : Time → Text → Option Bytes → Handles → Handles
  set_content now handle none s = s
  set_content now handle (some content) s = put_handle now handle content handle_ttl s

  unfoldable pub set_payload : Time → Text → Payload → Handles → Handles
  set_payload now handle p s = set_content now handle (c.marshal p) s

  abbrev pub payload_of : Option Bytes → Option Payload
  payload_of none = none
  payload_of (some content) = c.unmarshal content

  -- the adapter's `get`
  unfoldable pub get_payload : Time → Text → Handles → Option Payload × Handles
  get_payload now handle s = let out = get_handle now handle s in (payload_of out.0, out.1)

  -- the handle of a payload that is too long to be sent whole; `random` is what `rand.Read` gives
  unfoldable pub encode_handle : Time → Option Bytes → Payload → Handles → Result Text × Handles
  unfolding set_payload
  encode_handle now none p s = (err (other []), s)
  encode_handle now (some r) p s =
      (ok (handle_prefix ++ c.encode64 r), set_payload now (c.encode64 r) p s)

  abbrev pub encode_content :
      Bytes → Time → Option Bytes → Payload → Handles → Option Bytes → Result Text × Handles
  encode_content key now random p s none = (err (other []), s)
  encode_content key now random p s (some content) =
      let whole = content ++ b'|' ∷ cursor_hmac key content in
      if leb (length whole) inline_budget
      then (ok (c.encode64 whole), s)
      else encode_handle now random p s

  -- `encodeCursor`
  unfoldable pub encode_cursor :
      Bytes → Time → Option Bytes → Payload → Handles → Result Text × Handles
  unfolding cursor_hmac encode_handle
  encode_cursor key now random p s = encode_content key now random p s (c.marshal p)

  abbrev pub or_invalid : Option Payload → Result Payload
  or_invalid none = err invalid_cursor
  or_invalid (some p) = ok p

  -- the content of a cursor that was sent whole, if its signature is right
  unfoldable pub verify : Bytes → Option (Text × Text) → Result Payload
  unfolding cursor_hmac
  verify key none = err invalid_cursor
  verify key (some e) =
      if same e.1 (cursor_hmac key e.0) then or_invalid (c.unmarshal e.0) else err invalid_cursor

  unfoldable pub decode_inline : Bytes → Option Bytes → Result Payload
  unfolding verify cut_last
  decode_inline key none = err invalid_cursor
  decode_inline key (some raw) = verify key (cut_last b'|' raw)

  abbrev pub decode_split : Bytes → Time → Text → Handles → Option Text → Result Payload × Handles
  decode_split key now t s none = (decode_inline key (c.decode64 t), s)
  decode_split key now t s (some handle) =
      let out = get_payload now handle s in (or_invalid out.0, out.1)

  -- `decodeCursor`
  unfoldable pub decode_cursor : Bytes → Time → Text → Handles → Result Payload × Handles
  unfolding get_payload decode_inline cut_prefix
  decode_cursor key now t s = decode_split key now t s (cut_prefix handle_prefix t)
