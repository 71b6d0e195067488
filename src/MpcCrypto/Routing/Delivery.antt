-- ===== src/MpcCrypto/Routing/Delivery.antt =====
-- Which messages reach a party (packages/mpc-crypto/src/routing.ts).
use selfmade_mpc_wallet.Prelude.{
  ℕ, ◌+◌, ◌*◌, ◌≤◌, ◌≡◌, ◌≢◌, Bool, true, Option, none, some, List, [], ◌∷◌, arith, count, filter,
  All, All-filter,
}
use selfmade_mpc_wallet.MpcCrypto.Routing.{
  MpcMessage, party_a, party_b, party_c, addresses, is_to, is_from_other, filter_messages,
  select_messages,
}

-- Sent to one of the three parties.
abbrev pub IsPointToPoint : List MpcMessage → Type 0
IsPointToPoint = All (λ m. (to : ℕ) × (m.to_id ≡ some to) × (to ≤ 2))

-- Written by one of the three parties.
abbrev pub IsFromParties : List MpcMessage → Type 0
IsFromParties = All (λ m. m.from_id ≤ 2)

addresses_sound : (p : ℕ) (to : Option ℕ) → addresses p to ≡ true → to ≡ some p
addresses_sound p none h = absurd (cc)
addresses_sound p (some to) h = ground arith

select_messages_total :
    (q : MpcMessage → Bool) (msgs : List MpcMessage)
    → IsPointToPoint msgs
    → count q (select_messages msgs party_a)
        + count q (select_messages msgs party_b)
        + count q (select_messages msgs party_c)
      ≡ count q msgs
unfolding select_messages filter count
select_messages_total q [] h = omega arith
select_messages_total q (m ∷ msgs) ((to, e, le), h) = ground (arith, select_messages_total q msgs h)

-- A party is handed only messages addressed to it; and of the point-to-point messages among the
-- three parties, those under any test are handed out, over the three, just as often as they were
-- sent.
pub select_messages_partition :
    (msgs : List MpcMessage)
    → IsPointToPoint msgs
    → ((p : ℕ) → All (λ m. m.to_id ≡ some p) (select_messages msgs p))
      × ((q : MpcMessage → Bool)
          → count q (select_messages msgs party_a)
              + count q (select_messages msgs party_b)
              + count q (select_messages msgs party_c)
            ≡ count q msgs)
unfolding select_messages
select_messages_partition msgs h = (
  λ p. All-filter (λ m. m.to_id ≡ some p) (is_to p) (λ m t. addresses_sound p m.to_id t) msgs,
  λ q. select_messages_total q msgs h,
)

filter_messages_total :
    (q : MpcMessage → Bool) (msgs : List MpcMessage)
    → IsFromParties msgs
    → count q (filter_messages msgs party_a)
        + count q (filter_messages msgs party_b)
        + count q (filter_messages msgs party_c)
      ≡ 2 * count q msgs
unfolding filter_messages filter count
filter_messages_total q [] h = omega arith
filter_messages_total q (m ∷ msgs) (le, h) = ground (arith, filter_messages_total q msgs h)

filter_messages_once :
    (p : ℕ) (q : MpcMessage → Bool) (msgs : List MpcMessage)
    → count q (filter_messages msgs p) ≤ count q msgs
unfolding filter_messages filter count
filter_messages_once p q [] = omega arith
filter_messages_once p q (m ∷ msgs) = ground (arith, filter_messages_once p q msgs)

-- A party is handed no message of a broadcast round that it wrote itself, and none more often than
-- it was sent; and of the messages that the three parties wrote, those under any test are handed
-- out, over the three, twice as often as they were sent.
pub filter_messages_twice :
    (msgs : List MpcMessage)
    → IsFromParties msgs
    → ((p : ℕ) → All (λ m. m.from_id ≢ p) (filter_messages msgs p))
      × ((p : ℕ) (q : MpcMessage → Bool) → count q (filter_messages msgs p) ≤ count q msgs)
      × ((q : MpcMessage → Bool)
          → count q (filter_messages msgs party_a)
              + count q (filter_messages msgs party_b)
              + count q (filter_messages msgs party_c)
            ≡ 2 * count q msgs)
unfolding filter_messages
filter_messages_twice msgs h = (
  λ p.
      All-filter (λ m. m.from_id ≢ p) (is_from_other p) (λ m t (e : m.from_id ≡ p). ground arith)
        msgs,
  λ p q. filter_messages_once p q msgs,
  λ q. filter_messages_total q msgs h,
)
