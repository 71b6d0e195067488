-- ===== src/TxData/Normal.antt =====
-- The canonical form of calldata: `normalizeTxData` gives it, and leaves it alone.
use selfmade_mpc_wallet.Prelude.{
  ℕ, ◌%◌, ◌≡◌, refl, subst, suc, Bool-cases, inl, inr, Bool, true, false, ◌&&◌, ◌||◌, Option, some,
  List, [], ◌∷◌, arith, leb, eqb, length, ap,
}
use selfmade_mpc_wallet.Errors.{returned, returned-injective}
use selfmade_mpc_wallet.TxData.{
  or_empty, is_x, is_space, trim_end, trim, is_hex, all_hex, lower, lower_all, normalize_trimmed,
  normalize_tx_data,
}

-- [0-9a-f]
abbrev pub is_lower_hex : ℕ → Bool
is_lower_hex c = (leb 48 c && leb c 57) || (leb 97 c && leb c 102)

abbrev pub AllLowerHex : List ℕ → Type 0
AllLowerHex [] = Unit
AllLowerHex (c ∷ cs) = (is_lower_hex c ≡ true) × AllLowerHex cs

-- `0x`, then an even number of lower-case digits.
abbrev pub IsCanonical : List ℕ → Type 0
IsCanonical (a ∷ b ∷ digits) = (a ≡ 48) × (b ≡ 120) × (length digits % 2 ≡ 0) × AllLowerHex digits
IsCanonical _ = ⊥

lower_hex-facts :
    (c : ℕ) → is_lower_hex c ≡ true → (is_space c ≡ false) × (is_hex c ≡ true) × (lower c ≡ c)
lower_hex-facts c h = (ground arith, ground arith, ground arith)

lower-is_lower_hex : (c : ℕ) → is_hex c ≡ true → is_lower_hex (lower c) ≡ true
lower-is_lower_hex c h = ground arith

trim_end-digits : (cs : List ℕ) → AllLowerHex cs → trim_end cs ≡ cs
unfolding trim_end
trim_end-digits [] h = refl
trim_end-digits (c ∷ cs) (h, hs) = ground (arith, trim_end-digits cs hs, lower_hex-facts c h)

all_hex-digits : (cs : List ℕ) → AllLowerHex cs → all_hex cs ≡ true
unfolding all_hex
all_hex-digits [] h = refl
all_hex-digits (c ∷ cs) (h, hs) = ground (arith, all_hex-digits cs hs, lower_hex-facts c h)

lower_all-digits : (cs : List ℕ) → AllLowerHex cs → lower_all cs ≡ cs
unfolding lower_all
lower_all-digits [] h = refl
lower_all-digits (c ∷ cs) (h, hs) = cc (lower_all-digits cs hs, (lower_hex-facts c h).2)

lower_all-AllLowerHex : (cs : List ℕ) → all_hex cs ≡ true → AllLowerHex (lower_all cs)
unfolding all_hex lower_all
lower_all-AllLowerHex [] h = tt
lower_all-AllLowerHex (c ∷ cs) h =
    (lower-is_lower_hex c (ground arith), lower_all-AllLowerHex cs (ground arith))

length-lower_all : (cs : List ℕ) → length (lower_all cs) ≡ length cs
unfolding lower_all
length-lower_all [] = refl
length-lower_all (c ∷ cs) = ap suc (length-lower_all cs)

normalize_trimmed-IsCanonical :
    (cs out : List ℕ) → normalize_trimmed cs ≡ returned out → IsCanonical out
unfolding normalize_trimmed
normalize_trimmed-IsCanonical [] out h =
    subst IsCanonical (returned-injective h) (refl, refl, refl, tt)
normalize_trimmed-IsCanonical (a ∷ []) out h = cc
normalize_trimmed-IsCanonical (a ∷ b ∷ digits) out h =
    elim (Bool-cases (eqb a 48 && is_x b && all_hex digits && eqb (length digits % 2) 0)) [
      | inl e ↦ subst IsCanonical (returned-injective (rw e at h)) (
        refl,
        refl,
        rw (length-lower_all digits) (ground arith),
        lower_all-AllLowerHex digits (ground arith),
      )
      | inr e ↦ absurd (cc (rw e at h))
    ]

-- What `normalizeTxData` returns is canonical: `0x` and an even number of lower-case digits.
pub normalize_tx_data-IsCanonical :
    (raw : Option (List ℕ)) (out : List ℕ) → normalize_tx_data raw ≡ returned out → IsCanonical out
unfolding normalize_tx_data
normalize_tx_data-IsCanonical raw out h = normalize_trimmed-IsCanonical (trim (or_empty raw)) out h

-- A canonical text is normalized to itself.
pub normalize_tx_data-canonical :
    (cs : List ℕ) → IsCanonical cs → normalize_tx_data (some cs) ≡ returned cs
unfolding normalize_tx_data
normalize_tx_data-canonical (a ∷ b ∷ digits) h =
    ground
      (arith, trim_end-digits digits h.3, all_hex-digits digits h.3, lower_all-digits digits h.3)
normalize_tx_data-canonical [] h = absurd h
normalize_tx_data-canonical (a ∷ []) h = absurd h

-- What `normalizeTxData` returns is canonical, and normalizing it again returns it.
pub normalize_tx_data_idem :
    (raw : Option (List ℕ)) (out : List ℕ)
    → normalize_tx_data raw ≡ returned out
    → IsCanonical out × (normalize_tx_data (some out) ≡ returned out)
normalize_tx_data_idem raw out h =
    let canonical = normalize_tx_data-IsCanonical raw out h in
    (canonical, normalize_tx_data-canonical out canonical)
