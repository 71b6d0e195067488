-- ===== src/RecoveryServer/Shares.antt =====
-- apps/recovery/src/shares/shares.service.ts: the rows of Share C. The id of a new row, the default
-- of its column, is an argument, and so is the clock.
use selfmade_mpc_wallet.Prelude.{
  ℕ, String, Bool, not, Option, none, some, [], ◌∷◌, ◌++◌, ◌==◌, eqb, ltb, find, update, length,
  is_some, if◌then◌else◌,
}
use selfmade_mpc_wallet.Errors.{conflict, not_found, no_code, record_not_found, unique_violation}
use selfmade_mpc_wallet.Exec.{
  Exec, pure, throw, gets, modify, or_throw, throw_if, lift, ◌>>=◌, ◌>>◌,
}
use selfmade_mpc_wallet.MpcCrypto.Routing.{Bytes}
use selfmade_mpc_wallet.RecoveryServer.{RecoveryShare, RecoveryServer, RecoveryEnv, share_of}

abbrev pub share_c_party_id : ℕ
share_c_party_id = 2

abbrev pub status_active : String
status_active = "ACTIVE"

abbrev pub status_retired : String
status_retired = "RETIRED"

-- mpcRecoveryShare.findUnique({ where: { walletId } })
abbrev pub find_share : String → Exec RecoveryServer (Option RecoveryShare)
find_share wallet_id = gets (λ s. find (share_of wallet_id) s.shares)

-- mpcRecoveryShare.create({ data }): `walletId` is unique.
abbrev pub create_share : RecoveryShare → Exec RecoveryServer Unit
create_share row s =
    (throw_if (is_some (find (share_of row.wallet_id) s.shares)) unique_violation
        >> modify (λ t. record t { shares = t.shares ++ row ∷ [] }))
      s

-- mpcRecoveryShare.update({ where: { walletId }, data })
abbrev update_share : String → (RecoveryShare → RecoveryShare) → Exec RecoveryServer Unit
update_share wallet_id f s =
    (throw_if (not (is_some (find (share_of wallet_id) s.shares))) record_not_found
        >> modify (λ t. record t { shares = update (share_of wallet_id) f t.shares }))
      s

-- Both branches throw the same class, with another text.
abbrev pub assert_share_c_insert_allowed : Option RecoveryShare → Exec RecoveryServer Unit
assert_share_c_insert_allowed none = pure tt
assert_share_c_insert_allowed (some existing) = throw (conflict no_code)

pub record UpsertShareC : Type 0 where
  pub new_row_id : String
  pub wallet_id : String
  pub user_id : String
  pub mpc_public_key : String
  pub share_c_base64 : String
  pub party_id : Option ℕ

-- `toSafeDto`: no share material.
pub record SafeShare : Type 0 where
  pub id : String
  pub wallet_id : String
  pub user_id : String
  pub party_id : ℕ
  pub mpc_public_key : String
  pub status : String
  pub created_at : ℕ
  pub retired_at : Option ℕ
  pub has_encrypted_share : Bool

unfoldable pub to_safe_dto : RecoveryShare → SafeShare
to_safe_dto row = record {
  id = row.id;
  wallet_id = row.wallet_id;
  user_id = row.user_id;
  party_id = row.party_id;
  mpc_public_key = row.mpc_public_key;
  status = row.status;
  created_at = row.created_at;
  retired_at = row.retired_at;
  has_encrypted_share = row.status == status_active;
}

abbrev pub party_or_c : Option ℕ → ℕ
party_or_c none = share_c_party_id
party_or_c (some p) = p

unfoldable pub require_share : String → Exec RecoveryServer RecoveryShare
require_share wallet_id = do row ← find_share wallet_id; or_throw row (not_found no_code)

unfoldable pub get_share_meta : String → Exec RecoveryServer SafeShare
unfolding require_share to_safe_dto
get_share_meta wallet_id = do row ← require_share wallet_id; pure (to_safe_dto row)

abbrev pub retired_row : ℕ → RecoveryShare → RecoveryShare
retired_row now row = record row {
  status = status_retired;
  retired_at = some now;
  encrypted_share_c = "";
}

unfoldable pub retire_share : ℕ → String → Exec RecoveryServer SafeShare
unfolding require_share to_safe_dto
retire_share now wallet_id = do
  row ← require_share wallet_id
  if row.status == status_retired
      then pure (to_safe_dto row)
      else (update_share wallet_id (retired_row now) >> pure (to_safe_dto (retired_row now row)))

-- The row of a new share: its id, wallet, user, party, public key and ciphertext.
abbrev pub active_share : ℕ → String → String → String → ℕ → String → String → RecoveryShare
active_share now id wallet_id user_id party_id mpc_public_key encrypted = record {
  id = id;
  wallet_id = wallet_id;
  user_id = user_id;
  party_id = party_id;
  mpc_public_key = mpc_public_key;
  encrypted_share_c = encrypted;
  status = status_active;
  created_at = now;
  retired_at = none;
}

module _ (env : RecoveryEnv) where
  unfoldable pub insert_share_c : ℕ → UpsertShareC → Exec RecoveryServer SafeShare
  unfolding to_safe_dto
  insert_share_c now dto = do
    throw_if (not (eqb (party_or_c dto.party_id) share_c_party_id)) (conflict no_code)
    existing ← find_share dto.wallet_id
    assert_share_c_insert_allowed existing
    let share_bytes = env.base64.base64_to_bytes dto.share_c_base64
    throw_if (ltb (length share_bytes) 32) (conflict no_code)
    encrypted ← lift (env.encrypt_share_c share_bytes)
    let row =
        active_share now dto.new_row_id dto.wallet_id dto.user_id (party_or_c dto.party_id)
          dto.mpc_public_key encrypted
    create_share row
    pure (to_safe_dto row)

  unfoldable pub load_active_share_c_bytes : String → Exec RecoveryServer Bytes
  unfolding require_share
  load_active_share_c_bytes wallet_id = do
    row ← require_share wallet_id
    throw_if (not (row.status == status_active)) (conflict no_code)
    lift (env.decrypt_share_c row.encrypted_share_c)
