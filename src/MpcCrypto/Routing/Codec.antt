-- ===== src/MpcCrypto/Routing/Codec.antt =====
-- Wire messages decode to what was encoded; byte arrays are compared exactly
-- (packages/mpc-crypto/src/routing.ts).
use selfmade_mpc_wallet.Prelude.{◌≡◌, refl, ◌↔◌, true, List, [], ◌∷◌, arith}
use selfmade_mpc_wallet.MpcCrypto.Routing.{
  Bytes, Base64, MpcMessage, bytes_equal, decode_wire_message, encode_wire_message,
  decode_wire_messages, encode_wire_messages,
}

module _ (base64 : Base64) where
  decode-encode_message :
      (m : MpcMessage) → decode_wire_message base64 (encode_wire_message base64 m) ≡ m
  unfolding decode_wire_message encode_wire_message
  decode-encode_message m = λ i. record {
    from_id = m.from_id;
    to_id = m.to_id;
    payload = base64.decode-encode m.payload i;
  }

  -- A list of messages that is sent over the wire arrives as it was: senders, receivers, payloads
  -- and order.
  pub decode-encode_messages :
      (msgs : List MpcMessage)
      → decode_wire_messages base64 (encode_wire_messages base64 msgs) ≡ msgs
  unfolding decode_wire_messages encode_wire_messages
  decode-encode_messages [] = refl
  decode-encode_messages (m ∷ msgs) = cc (decode-encode_message m, decode-encode_messages msgs)

bytes_equal_sound : (a b : Bytes) → bytes_equal a b ≡ true → a ≡ b
unfolding bytes_equal
bytes_equal_sound [] [] h = refl
bytes_equal_sound [] (y ∷ b) h = cc
bytes_equal_sound (x ∷ a) [] h = cc
bytes_equal_sound (x ∷ a) (y ∷ b) h = ground (arith, bytes_equal_sound a b)

bytes_equal_refl : (a : Bytes) → bytes_equal a a ≡ true
unfolding bytes_equal
bytes_equal_refl [] = refl
bytes_equal_refl (x ∷ a) = ground (arith, bytes_equal_refl a)

-- `bytesEqual` answers true exactly on equal arrays.
pub bytes_equal_iff : (a b : Bytes) → (bytes_equal a b ≡ true) ↔ (a ≡ b)
bytes_equal_iff a b = (bytes_equal_sound a b, λ e. rw e (bytes_equal_refl b))
