-- ===== src/Tests/Cursors.antt =====
-- Cursors at concrete inputs, with a codec that stands for the libraries'.
use para_mcp.Prelude.{
  ℕ, ◌+◌, ◌-◌, ◌≤◌, ◌≡◌, ◌⊎◌, refl, ap, true, false, none, some, [], ◌∷◌, ◌++◌, inl, arith,
}
use para_mcp.Prelude.Text.{Text, codes, has_rune, cut_prefix, dec_text}
use para_mcp.Domain.Results.{ok}
use para_mcp.Domain.Entities.{by_title}
use para_mcp.Federation.Scopes.{Payload}
use para_mcp.Federation.Cursor.{
  Bytes, Codec, IsCodec, handle_prefix, cursor_hmac, encode_cursor, decode_cursor, decode_inline,
  verify, cut_last,
}
use para_mcp.Federation.Cursor.RoundTrip.{decode_cursor-encode_cursor, decode_cursor_lem}
use para_mcp.Server.Handles.{Handles, view, new_in_memory}
use para_mcp.Tests.Fixtures.{mine}

abbrev position : Payload
position = record { sort = by_title; desc = true; scopes = mine ∷ []; offsets = [] }

abbrev up : Bytes → Text
up [] = []
up (b ∷ bs) = (b + 300) ∷ up bs

abbrev down : Text → Bytes
down [] = []
down (c ∷ t) = (c - 300) ∷ down t

abbrev shifted : Codec
shifted = record {
  marshal = λ p. some (codes "p");
  unmarshal = λ content. some position;
  encode64 = up;
  decode64 = λ t. some (down t);
  hmac = λ key content. key;
}

down-up : (b : Bytes) → down (up b) ≡ b
down-up [] = refl
down-up (x ∷ b) = ground (arith, down-up b)

without : (c : ℕ) (b : Bytes) → c ≤ 299 → has_rune c (up b) ≡ false
unfolding has_rune
without c [] h = refl
without c (x ∷ b) h = ground (arith, without c b h)

shifted-IsCodec : IsCodec shifted
shifted-IsCodec = record {
  decode64-encode64 = λ b. ap some (down-up b);
  no_colon = λ b. without b':' b (omega arith);
  no_bar = λ b. without b'|' b (omega arith);
}

abbrev key : Bytes
key = 7 ∷ 8 ∷ []

abbrev store : Handles
store = new_in_memory 10

abbrev sent : Text
sent = up (codes "p" ++ b'|' ∷ up key)

encoded : encode_cursor shifted key 5 none position store ≡ (ok sent, store)
unfolding encode_cursor cursor_hmac
encoded = refl

decode_cursor-encode_cursor_example : (decode_cursor shifted key 9 sent store).0 ≡ ok position
unfolding cursor_hmac
decode_cursor-encode_cursor_example =
    decode_cursor-encode_cursor shifted key 5 9 none position (codes "p") store store sent
      shifted-IsCodec tt refl refl encoded (omega arith) (inl refl)

decoded : (decode_cursor shifted key 9 sent store).0 ≡ ok position
unfolding decode_cursor decode_inline verify cut_last cut_prefix cursor_hmac dec_text
decoded = refl

decode_cursor_example :
    ((content : Bytes) × (shifted.decode64 sent
        ≡ some (content ++ b'|' ∷ cursor_hmac shifted key content))
      × (shifted.unmarshal content ≡ some position))
    ⊎ ((handle : Text) × (content : Bytes) × (sent ≡ handle_prefix ++ handle)
        × (view store 9 handle ≡ some content)
        × (shifted.unmarshal content ≡ some position))
decode_cursor_example = decode_cursor_lem shifted key 9 sent store position tt decoded
