-- ===== src/Tests/Codes.antt =====
-- A concrete code of byte arrays by texts, and a byte array of the length of a digest.
use Prim.Native.Char.{code}
use selfmade_mpc_wallet.Prelude.{
  ℕ, zero, suc, ◌+◌, String, ◌≡◌, refl, [], ◌∷◌, arith, eqb, if◌then◌else◌,
}
use selfmade_mpc_wallet.MpcCrypto.Routing.{Bytes, Base64}

-- A code of byte arrays by texts that can be read back: each byte in unary.
unfoldable pub unary : ℕ → String → String
unary zero s = s
unary (suc n) s = String.◌∷◌ "a" (unary n s)

unfoldable pub to_text : Bytes → String
unfolding unary
to_text [] = String.[]
to_text (n ∷ ns) = unary n (String.◌∷◌ "b" (to_text ns))

unfoldable pub read : ℕ → String → Bytes
read n String.[] = []
read n (String.◌∷◌ c s) =
    let counted = read (suc n) s in
    let rest = read 0 s in if eqb (code c) 97 then counted else n ∷ rest

read-unary : (n acc : ℕ) (s : String) → read acc (unary n s) ≡ read (acc + n) s
unfolding read unary
read-unary zero acc s = ground arith
read-unary (suc n) acc s = ground (arith, read-unary n (suc acc) s)

pub read-to_text : (bytes : Bytes) → read 0 (to_text bytes) ≡ bytes
unfolding read to_text
read-to_text [] = refl
read-to_text (n ∷ ns) =
    ground (arith, read-unary n 0 (String.◌∷◌ "b" (to_text ns)), read-to_text ns)

abbrev pub base64 : Base64
base64 = record {
  bytes_to_base64 = to_text;
  base64_to_bytes = read 0;
  decode-encode = read-to_text;
}

abbrev pub bytes32 : Bytes
bytes32 =
    1 ∷ 2 ∷ 3 ∷ 4 ∷ 5 ∷ 6 ∷ 7 ∷ 8 ∷ 1 ∷ 2 ∷ 3 ∷ 4 ∷ 5 ∷ 6 ∷ 7 ∷ 8 ∷ 1 ∷ 2 ∷ 3 ∷ 4 ∷ 5 ∷ 6 ∷ 7 ∷ 8
    ∷ 1 ∷ 2 ∷ 3 ∷ 4 ∷ 5 ∷ 6 ∷ 7 ∷ 8 ∷ []
