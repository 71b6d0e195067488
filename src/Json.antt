-- ===== src/Json.antt =====
-- JSON values, as they stand in the `metadata` column of a withdrawal.
use selfmade_mpc_wallet.Prelude.{ℕ, String, Bool, Option, none, some, ◌==◌, if◌then◌else◌}

mutual
  pub data Json : Type 0 where
    null : Json
    boolean : Bool → Json
    number : ℕ → Json
    text : String → Json
    array : Items → Json
    object : Fields → Json

  pub data Items : Type 0 where
    nil : Items
    cons : Json → Items → Items

  pub data Fields : Type 0 where
    end : Fields
    field : String → Json → Fields → Fields

-- The own property `k` of an object literal.
abbrev pub property : String → Fields → Option Json
property k end = none
property k (field j v fs) = if j == k then some v else property k fs
