-- ===== src/Texts.antt =====
-- JavaScript's `trim` on texts, and comparison with a keyword in capitals.
use selfmade_mpc_wallet.Prelude.{
  ℕ, zero, suc, ◌-◌, ◌/◌, ◌%◌, ◌<◌, ◌≡◌, arith, String, Bool, true, false, ◌&&◌, List, [], ◌∷◌, leb,
  ltb, eqb, if◌then◌else◌,
}
use Prim.Native.Char.{code}
use selfmade_mpc_wallet.TxData.{is_space}

trim_start : String → String
trim_start String.[] = String.[]
trim_start (String.◌∷◌ c s) =
    let rest = trim_start s in if is_space (code c) then rest else String.◌∷◌ c s

abbrev is_empty : String → Bool
is_empty String.[] = true
is_empty (String.◌∷◌ c s) = false

trim_end : String → String
trim_end String.[] = String.[]
trim_end (String.◌∷◌ c s) =
    let rest = trim_end s in
    if is_space (code c) && is_empty rest then String.[] else String.◌∷◌ c rest

-- `text.trim()`
unfoldable pub trim_text : String → String
unfolding trim_start trim_end
trim_text s = trim_end (trim_start s)

abbrev pub codes : String → List ℕ
codes String.[] = []
codes (String.◌∷◌ c s) = code c ∷ codes s

-- `toUpperCase()` on ASCII letters; no other letter's capital is ASCII text of the keywords here.
abbrev pub upper : ℕ → ℕ
upper c = if leb 97 c && leb c 122 then c - 32 else c

-- `toString()` of a number, with the digits that are left to print as fuel.
abbrev digit : ℕ → String
digit n =
    if eqb n 0
    then "0"
    else if eqb n 1
    then "1"
    else if eqb n 2
    then "2"
    else if eqb n 3
    then "3"
    else if eqb n 4
    then "4"
    else if eqb n 5
    then "5"
    else if eqb n 6
    then "6"
    else if eqb n 7
    then "7"
    else if eqb n 8
    then "8"
    else "9"

-- A character of `0x` and lower case hexadecimal, by its code.
abbrev hex_char : ℕ → String
hex_char c =
    if eqb c 120
    then "x"
    else if eqb c 97
    then "a"
    else if eqb c 98
    then "b"
    else if eqb c 99
    then "c"
    else if eqb c 100
    then "d"
    else if eqb c 101
    then "e"
    else if eqb c 102
    then "f"
    else digit (c - 48)

-- The text of calldata in its canonical form, whose characters are these.
unfoldable pub hex_text : List ℕ → String
hex_text [] = ""
hex_text (c ∷ cs) = Prim.Native.String.◌++◌ (hex_char c) (hex_text cs)

unfoldable pub print_decimal : ℕ → ℕ → String
print_decimal zero n = ""
print_decimal (suc fuel) n = elim (ltb n 10) [
  | true ↦ digit n
  | false ↦ Prim.Native.String.◌++◌ (print_decimal fuel (n / 10)) (digit (n % 10))
]

unfoldable pub to_decimal : ℕ → String
unfolding print_decimal
to_decimal n = print_decimal (suc n) n

-- Enough fuel: any that is more than the number prints it all.
pub print_decimal-to_decimal : (f g n : ℕ) → n < f → n < g → print_decimal f n ≡ print_decimal g n
unfolding print_decimal
print_decimal-to_decimal zero g n h k = absurd (omega arith)
print_decimal-to_decimal (suc f) zero n h k = absurd (omega arith)
print_decimal-to_decimal (suc f) (suc g) n h k =
    ground (arith, print_decimal-to_decimal f g (n / 10))
