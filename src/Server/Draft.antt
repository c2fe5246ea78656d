-- ===== src/Server/Draft.antt =====
-- netlify/functions/vaults-compile.js: a draft vault of named fields and its timelocks. The user, the
-- tip, the public key of an extended key and the database's error on the write are parameters.
use dynastytrust.Prelude.{
  ℕ, String, Bool, true, false, ◌&&◌, ◌||◌, Option, is_some, List, length, ltb, if◌then◌else◌,
}
use dynastytrust.Server.Http.{Outcome, done, ◌>>◌, no_error}
use dynastytrust.Server.Numeric.{
  Value, undefined, null_value, structure, boolean, text, number, count_of,
}
use dynastytrust.Server.Compile.{Tip, tip_of_reply}
use dynastytrust.Server.Locks.{check_timelock_floor}
use dynastytrust.Server.Roster.{RosterKey, Plan, Roster}

-- The columns of the draft; a timelock is a number or null.
pub record NamedDraft : Type 0 where
  pub user_id : String
  pub name : String
  pub network : String
  pub address_type : String
  pub status : String
  pub plan : Plan
  pub founder_quorum : ℕ
  pub heir_quorum : ℕ
  pub recovery_quorum : Option ℕ
  pub recovery_after : Value
  pub inheritance_after : Value
  pub consent_quorum : Option ℕ
  pub backup_quorum : Option ℕ
  pub second_heir_quorum : Option ℕ
  pub second_inheritance_after : Value

-- `value != null`
abbrev pub is_given : Value → Bool
is_given undefined = false
is_given null_value = false
is_given structure = true
is_given (boolean b) = true
is_given (text t) = true
is_given (number n) = true

abbrev pub has_second_inheritance : NamedDraft → Roster → Bool
has_second_inheritance vault r =
    ltb 0 (length r.second_heirs)
    && (is_some vault.second_heir_quorum
        && (is_given vault.second_inheritance_after && ltb 0 (length r.heirs)))

abbrev pub value_if : Bool → Value → Value
value_if test v = if test then v else null_value

unfoldable pub check_floors : NamedDraft → Roster → Outcome (Unit {0})
check_floors vault r = do
  no_error (check_timelock_floor vault.recovery_after "recovery_after") 400
  no_error (check_timelock_floor vault.inheritance_after "inheritance_after") 400
  no_error
      (check_timelock_floor
        (value_if (has_second_inheritance vault r) vault.second_inheritance_after)
        "second_inheritance_after")
      400

-- The tip is fetched where some timelock is a number but 0.
abbrev pub is_set : Value → Bool
is_set v = ltb 0 (count_of v)

abbrev pub needs_tip : NamedDraft → Roster → Bool
needs_tip vault r =
    is_set vault.recovery_after
    || (is_set vault.inheritance_after
        || (has_second_inheritance vault r && is_set vault.second_inheritance_after))

pub record NamedServices : Type 0 where
  pub user : Option String
  pub pubkey_from_xpub : String → String
  pub fetch_tip_height : String → Tip
  pub vault_of : String → Option NamedDraft
  pub members_of : String → List RosterKey
  pub write_error : Option String

abbrev pub tip_for_named : NamedServices → NamedDraft → Roster → Outcome ℕ
tip_for_named services vault r =
    if needs_tip vault r
    then tip_of_reply (services.fetch_tip_height vault.network) vault.network
    else done 0
