-- ===== src/MpcCrypto/Routing.antt =====
-- packages/mpc-crypto/src/constants.ts, types.ts and routing.ts: parties, protocol messages, their
-- wire format and their routing. apps/recovery/src/mpc/wire.ts is a copy of the same functions.
-- A message of the WASM library is its sender, its receiver (none: a broadcast) and its payload,
-- so `clone()` is the message itself. Base64 is the platform's: a parameter.
pub mod Delivery
pub mod Codec
use selfmade_mpc_wallet.Prelude.{
  ℕ, String, ◌≡◌, Bool, true, false, not, ◌&&◌, Option, none, some, List, [], ◌∷◌, map, eqb, filter,
}

-- MPC_PARTY
abbrev pub party_a : ℕ
party_a = 0

abbrev pub party_b : ℕ
party_b = 1

abbrev pub party_c : ℕ
party_c = 2

abbrev pub Bytes : Type 0
Bytes = List ℕ

pub record MpcMessage : Type 0 where
  pub from_id : ℕ
  pub to_id : Option ℕ
  pub payload : Bytes

pub record WireMessage : Type 0 where
  pub sender : ℕ
  pub receiver : Option ℕ
  pub payload_b64 : String

-- `bytesToBase64` and `base64ToBytes` hand over to `Buffer`, or to `btoa` and `atob`: decoding an
-- encoded array gives it back.
pub record Base64 : Type 0 where
  pub bytes_to_base64 : Bytes → String
  pub base64_to_bytes : String → Bytes
  pub decode-encode : (bytes : Bytes) → base64_to_bytes (bytes_to_base64 bytes) ≡ bytes

-- `m.from_id !== partyId`
abbrev pub is_from_other : ℕ → MpcMessage → Bool
is_from_other party_id m = not (eqb m.from_id party_id)

abbrev pub addresses : ℕ → Option ℕ → Bool
addresses party_id none = false
addresses party_id (some to) = eqb to party_id

-- `m.to_id === partyId`
abbrev pub is_to : ℕ → MpcMessage → Bool
is_to party_id m = addresses party_id m.to_id

unfoldable pub filter_messages : List MpcMessage → ℕ → List MpcMessage
filter_messages msgs party_id = filter (is_from_other party_id) msgs

unfoldable pub select_messages : List MpcMessage → ℕ → List MpcMessage
select_messages msgs party_id = filter (is_to party_id) msgs

-- The loop leaves at the first difference.
unfoldable pub bytes_equal : Bytes → Bytes → Bool
bytes_equal [] [] = true
bytes_equal [] (b ∷ bs) = false
bytes_equal (a ∷ rest) [] = false
bytes_equal (a ∷ rest) (b ∷ bs) = eqb a b && bytes_equal rest bs

module _ (base64 : Base64) where
  unfoldable pub encode_wire_message : MpcMessage → WireMessage
  encode_wire_message msg = record {
    sender = msg.from_id;
    receiver = msg.to_id;
    payload_b64 = base64.bytes_to_base64 msg.payload;
  }

  unfoldable pub decode_wire_message : WireMessage → MpcMessage
  decode_wire_message wire = record {
    from_id = wire.sender;
    to_id = wire.receiver;
    payload = base64.base64_to_bytes wire.payload_b64;
  }

  unfoldable pub encode_wire_messages : List MpcMessage → List WireMessage
  unfolding encode_wire_message
  encode_wire_messages = map encode_wire_message

  unfoldable pub decode_wire_messages : List WireMessage → List MpcMessage
  unfolding decode_wire_message
  decode_wire_messages = map decode_wire_message
