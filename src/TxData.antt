-- ===== src/TxData.antt =====
-- `normalizeTxData` of apps/api/src/mpc/eth-transfer.ts (and its copy in
-- apps/web/src/lib/mpc/wysiwys.ts): the canonical form of calldata in hexadecimal. A text is the
-- list of its code units.
pub mod Normal
use selfmade_mpc_wallet.Prelude.{
  ℕ, ◌+◌, ◌%◌, Bool, true, false, not, ◌&&◌, ◌||◌, Option, none, some, List, [], ◌∷◌, map, eqb, leb,
  length, if◌then◌else◌,
}
use selfmade_mpc_wallet.Errors.{Result, returned, threw, plain, other}

-- WhiteSpace and LineTerminator of ECMAScript, which `trim()` removes
abbrev pub is_space : ℕ → Bool
is_space c =
    (leb 9 c && leb c 13)
    || eqb c 32
    || eqb c 160
    || eqb c 5760
    || (leb 8192 c && leb c 8202)
    || eqb c 8232
    || eqb c 8233
    || eqb c 8239
    || eqb c 8287
    || eqb c 12288
    || eqb c 65279

unfoldable pub trim_start : List ℕ → List ℕ
trim_start [] = []
trim_start (c ∷ cs) = let rest = trim_start cs in if is_space c then rest else c ∷ cs

abbrev is_empty : List ℕ → Bool
is_empty [] = true
is_empty (c ∷ cs) = false

unfoldable pub trim_end : List ℕ → List ℕ
trim_end [] = []
trim_end (c ∷ cs) = let rest = trim_end cs in if is_space c && is_empty rest then [] else c ∷ rest

unfoldable pub trim : List ℕ → List ℕ
unfolding trim_start trim_end
trim cs = trim_end (trim_start cs)

-- `x` and `X`
abbrev pub is_x : ℕ → Bool
is_x c = eqb c 120 || eqb c 88

-- [0-9a-fA-F]
abbrev pub is_hex : ℕ → Bool
is_hex c = (leb 48 c && leb c 57) || (leb 97 c && leb c 102) || (leb 65 c && leb c 70)

unfoldable pub all_hex : List ℕ → Bool
all_hex [] = true
all_hex (c ∷ cs) = is_hex c && all_hex cs

-- `toLowerCase()` on a hexadecimal digit
abbrev pub lower : ℕ → ℕ
lower c = if leb 65 c && leb c 90 then c + 32 else c

unfoldable pub lower_all : List ℕ → List ℕ
lower_all [] = []
lower_all (c ∷ cs) = lower c ∷ lower_all cs

-- `data ?? ''`
abbrev pub or_empty : Option (List ℕ) → List ℕ
or_empty none = []
or_empty (some cs) = cs

-- The tests on the trimmed text: empty or `0x`, then `0x` followed by an even number of digits.
unfoldable pub normalize_trimmed : List ℕ → Result (List ℕ)
unfolding all_hex lower_all
normalize_trimmed [] = returned (48 ∷ 120 ∷ [])
normalize_trimmed (a ∷ []) = threw (plain other)
normalize_trimmed (a ∷ b ∷ digits) =
    if eqb a 48 && is_x b && all_hex digits && eqb (length digits % 2) 0
    then returned (48 ∷ 120 ∷ lower_all digits)
    else threw (plain other)

unfoldable pub normalize_tx_data : Option (List ℕ) → Result (List ℕ)
unfolding trim normalize_trimmed
normalize_tx_data raw = normalize_trimmed (trim (or_empty raw))
