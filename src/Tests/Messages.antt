-- ===== src/Tests/Messages.antt =====
-- Protocol messages and signatures.
use selfmade_mpc_wallet.Tests.Codes.{base64, bytes32}
use selfmade_mpc_wallet.Prelude.{
  ◌+◌, ◌*◌, ◌≡◌, ◌↔◌, ◌⊎◌, inr, refl, true, none, some, List, [], ◌∷◌, arith, All, count, length,
  ◌≢◌, ◌≤◌, Bool, ℕ, eqb, if◌then◌else◌,
}
use selfmade_mpc_wallet.Errors.{returned}
use selfmade_mpc_wallet.MpcCrypto.Routing.{
  Bytes, MpcMessage, bytes_equal, party_a, party_b, party_c, filter_messages, select_messages,
  encode_wire_messages, decode_wire_messages,
}
use selfmade_mpc_wallet.MpcCrypto.Routing.Codec.{decode-encode_messages, bytes_equal_iff}
use selfmade_mpc_wallet.MpcCrypto.Routing.Delivery.{
  select_messages_partition, filter_messages_twice,
}
use selfmade_mpc_wallet.MpcCrypto.Ethereum.{
  MpcEcdsaSignature, RecoverAddress, recovers, build_ecdsa_signature,
  build_ecdsa_signature-recovers, build_ecdsa_signature_complete,
}

abbrev from_a : MpcMessage
from_a = record { from_id = 0; to_id = some 1; payload = 7 ∷ 8 ∷ [] }

abbrev from_c : MpcMessage
from_c = record { from_id = 2; to_id = some 0; payload = 9 ∷ [] }

abbrev batch : List MpcMessage
batch = from_a ∷ from_c ∷ []

select_messages_partition_example :
    ((p : ℕ) → All (λ m. m.to_id ≡ some p) (select_messages batch p))
    × ((q : MpcMessage → Bool)
        → count q (select_messages batch party_a)
            + count q (select_messages batch party_b)
            + count q (select_messages batch party_c)
          ≡ count q batch)
select_messages_partition_example =
    select_messages_partition batch ((1, refl, omega arith), ((0, refl, omega arith), tt))

decode-encode_messages_example :
    decode_wire_messages base64 (encode_wire_messages base64 batch) ≡ batch
decode-encode_messages_example = decode-encode_messages base64 batch

filter_messages_twice_example :
    ((p : ℕ) → All (λ m. m.from_id ≢ p) (filter_messages batch p))
    × ((p : ℕ) (q : MpcMessage → Bool) → count q (filter_messages batch p) ≤ count q batch)
    × ((q : MpcMessage → Bool)
        → count q (filter_messages batch party_a)
            + count q (filter_messages batch party_b)
            + count q (filter_messages batch party_c)
          ≡ 2 * count q batch)
filter_messages_twice_example = filter_messages_twice batch (omega arith, (omega arith, tt))

abbrev one_two : Bytes
one_two = 1 ∷ 2 ∷ []

abbrev one_three : Bytes
one_three = 1 ∷ 3 ∷ []

bytes_equal_iff_example : (bytes_equal one_two one_three ≡ true) ↔ (one_two ≡ one_three)
bytes_equal_iff_example = bytes_equal_iff one_two one_three

-- Only 28 recovers the address.
abbrev recover : RecoverAddress
recover digest r s v = if eqb v 28 then some "0xAB" else none

abbrev signature : MpcEcdsaSignature
signature = record { r = bytes32; s = bytes32; v = 28 }

build_ecdsa_signature-recovers_example :
    (signature.r ≡ bytes32)
    × (signature.s ≡ bytes32)
    × (length bytes32 ≡ 32)
    × (length bytes32 ≡ 32)
    × (length bytes32 ≡ 32)
    × ((signature.v ≡ 27) ⊎ (signature.v ≡ 28))
    × (recovers (recover bytes32 signature.r signature.s signature.v) "0xab" ≡ true)
unfolding build_ecdsa_signature bytes_equal
build_ecdsa_signature-recovers_example =
    build_ecdsa_signature-recovers recover bytes32 bytes32 bytes32 "0xab" signature refl

build_ecdsa_signature_complete_example :
    (sig : MpcEcdsaSignature) × (build_ecdsa_signature recover bytes32 bytes32 bytes32 "0xab"
      ≡ returned sig)
unfolding bytes_equal
build_ecdsa_signature_complete_example =
    build_ecdsa_signature_complete recover bytes32 bytes32 bytes32 "0xab" 28 refl refl refl
      (inr refl) refl
