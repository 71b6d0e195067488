-- ===== src/MpcCrypto/Ethereum.antt =====
-- packages/mpc-crypto/src/ethereum.ts: the recovery id of an MPC signature. Recovering a public key
-- and computing its address are the ethers library's, one parameter that throws (none) or answers.
use selfmade_mpc_wallet.Prelude.{
  ℕ, ◌+◌, ◌≡◌, ◌⊎◌, inl, inr, String, Bool, true, false, not, ◌&&◌, ◌||◌, Option, none, some, List,
  [], ◌∷◌, arith, eqb, leb, length, Bool-cases, if◌then◌else◌,
}
use Prim.Native.Char.{code}
use selfmade_mpc_wallet.Errors.{plain, other, Result, returned, threw}
use selfmade_mpc_wallet.MpcCrypto.Routing.{Bytes, bytes_equal}

pub record MpcEcdsaSignature : Type 0 where
  pub r : Bytes
  pub s : Bytes
  pub v : ℕ

-- `computeAddress(SigningKey.recoverPublicKey(digest, Signature.from({ r, s, v })))`
abbrev pub RecoverAddress : Type 0
RecoverAddress = Bytes → Bytes → Bytes → ℕ → Option String

-- `toLowerCase()` on the letters of a hexadecimal address, as code points.
abbrev lower_code : ℕ → ℕ
lower_code c = if leb 65 c && leb c 90 then c + 32 else c

abbrev pub lower_case : String → List ℕ
lower_case String.[] = []
lower_case (String.◌∷◌ c s) = lower_code (code c) ∷ lower_case s

-- The body of the loop: a throw is caught, and the next value is tried.
abbrev pub recovers : Option String → String → Bool
recovers none expected_address = false
recovers (some address) expected_address =
    bytes_equal (lower_case address) (lower_case expected_address)

module _ (recover : RecoverAddress) where
  unfoldable pub resolve_recovery_id : Bytes → Bytes → Bytes → String → Result ℕ
  resolve_recovery_id digest32 r s expected_address =
      if recovers (recover digest32 r s 27) expected_address
      then returned 27
      else if recovers (recover digest32 r s 28) expected_address
      then returned 28
      else threw (plain other)

  abbrev with_recovery_id : Bytes → Bytes → Result ℕ → Result MpcEcdsaSignature
  with_recovery_id r s (returned v) = returned (record { r = r; s = s; v = v })
  with_recovery_id r s (threw e) = threw e

  unfoldable pub build_ecdsa_signature : Bytes → Bytes → Bytes → String → Result MpcEcdsaSignature
  unfolding resolve_recovery_id
  build_ecdsa_signature digest32 r s expected_address =
      if not (eqb (length digest32) 32)
      then threw (plain other)
      else if not (eqb (length r) 32) || not (eqb (length s) 32)
      then threw (plain other)
      else with_recovery_id r s (resolve_recovery_id digest32 r s expected_address)

  -- A signature that is built consists of the given halves, 32 bytes each, and a `v` of 27 or 28
  -- for which the digest recovers the expected address, letters' case aside.
  pub build_ecdsa_signature-recovers :
      (digest32 r s : Bytes) (expected : String) (sig : MpcEcdsaSignature)
      → build_ecdsa_signature digest32 r s expected ≡ returned sig
      → (sig.r ≡ r)
        × (sig.s ≡ s)
        × (length digest32 ≡ 32)
        × (length r ≡ 32)
        × (length s ≡ 32)
        × ((sig.v ≡ 27) ⊎ (sig.v ≡ 28))
        × (recovers (recover digest32 sig.r sig.s sig.v) expected ≡ true)
  unfolding build_ecdsa_signature
  build_ecdsa_signature-recovers digest32 r s expected sig h = ground arith

  -- It throws only on a wrong length, or where neither 27 nor 28 recovers the expected address.
  pub build_ecdsa_signature_complete :
      (digest32 r s : Bytes) (expected : String) (v : ℕ)
      → length digest32 ≡ 32
      → length r ≡ 32
      → length s ≡ 32
      → (v ≡ 27) ⊎ (v ≡ 28)
      → recovers (recover digest32 r s v) expected ≡ true
      → (sig : MpcEcdsaSignature) × (build_ecdsa_signature digest32 r s expected ≡ returned sig)
  unfolding build_ecdsa_signature
  build_ecdsa_signature_complete digest32 r s expected v ld lr ls which good =
      elim (Bool-cases (recovers (recover digest32 r s 27) expected)) [
        | inl e ↦ (record { r = r; s = s; v = 27 }, ground arith)
        | inr e ↦ (record { r = r; s = s; v = 28 }, ground arith)
      ]
