-- ===== src/Server/Governance/Status.antt =====
-- netlify/functions/governance.js: jsGovernanceStatus and jsGovernanceStatusLeafList, which spending
-- paths are open at a height.
pub mod Countdown
use dynastytrust.Prelude.{
  ℕ, ◌-◌, String, ◌⧺◌, decimal, Bool, true, false, ◌&&◌, ◌||◌, not, Option, none, some, List, [],
  ◌∷◌, ◌++◌, length, map, filter, every, ltb, leb, if◌then◌else◌,
}
use dynastytrust.Paths.{VaultShape, SpendingPathSummary, UnlockType}
use dynastytrust.Server.Shape.{get_spending_paths}
use dynastytrust.Server.Governance.{BasePolicy, blocks_per_day, round_days}

pub data Phase : Type 0 where
  active recovery_unlocked inheritance_unlocked : Phase

-- `blocks / BLOCKS_PER_DAY`, a fraction.
pub record Days : Type 0 where
  pub numerator : ℕ
  pub denominator : ℕ

pub record StatusResult : Type 0 where
  pub current_block : ℕ
  pub active_paths : List String
  pub phase : Phase
  pub blocks_until_recovery : Option ℕ
  pub blocks_until_inheritance : Option ℕ
  pub days_until_recovery : Option Days
  pub days_until_inheritance : Option Days
  pub status_label : String

abbrev pub days_of : Option ℕ → Option Days
days_of none = none
days_of (some blocks) = some (record { numerator = blocks; denominator = blocks_per_day })

abbrev pub name_if : Bool → String → List String
name_if test name = if test then name ∷ [] else []

-- `Math.round(null / BLOCKS_PER_DAY)` is 0.
abbrev pub rounded_days : Option ℕ → String
rounded_days none = "0"
rounded_days (some blocks) = decimal (round_days blocks)

pub status_text : Phase → Bool → Option ℕ → Option ℕ → String
status_text active true until_recovery until_inheritance =
    "Active — founders can spend. Recovery unlocks in ~" ⧺ (rounded_days until_recovery ⧺ " days.")
status_text active false until_recovery until_inheritance =
    "Active — founders can spend. No separate recovery path on this vault."
status_text recovery_unlocked has_recovery until_recovery until_inheritance =
    "Recovery path unlocked. Inheritance unlocks in ~" ⧺ (rounded_days until_inheritance ⧺ " days.")
status_text inheritance_unlocked has_recovery until_recovery until_inheritance =
    "All paths unlocked. Founders and heirs can spend."

unfoldable pub js_governance_status : BasePolicy → ℕ → StatusResult
js_governance_status policy utxo_age_blocks =
    let has_recovery = ltb 0 policy.recovery_after in
    let recovery_open = has_recovery && leb policy.recovery_after utxo_age_blocks in
    let inheritance_open = leb policy.inheritance_after utxo_age_blocks in
    let phase =
      if inheritance_open
      then Phase.inheritance_unlocked
      else if recovery_open
      then Phase.recovery_unlocked
      else Phase.active in
    let until_recovery =
      if not has_recovery || recovery_open
      then none
      else some (policy.recovery_after - utxo_age_blocks) in
    let until_inheritance =
      if inheritance_open then none else some (policy.inheritance_after - utxo_age_blocks) in
    record {
      current_block = utxo_age_blocks;
      active_paths =
          "founders_now"
          ∷ (name_if recovery_open "recovery" ++ name_if inheritance_open "inheritance");
      phase = phase;
      blocks_until_recovery = until_recovery;
      blocks_until_inheritance = until_inheritance;
      days_until_recovery = days_of until_recovery;
      days_until_inheritance = days_of until_inheritance;
      status_label = status_text phase has_recovery until_recovery until_inheritance;
    }

-- What the status of a leaf-list vault says of one path.
pub record LeafStatus : Type 0 where
  pub id : String
  pub label : String
  pub quorum : ℕ
  pub key_count : ℕ
  pub unlock_type : UnlockType
  pub unlock_blocks : ℕ
  pub unlocked : Bool
  pub blocks_until_unlock : Option ℕ

pub data LeafPhase : Type 0 where
  all_unlocked some_locked : LeafPhase

pub record LeafListStatus : Type 0 where
  pub current_block : ℕ
  pub active_paths : List String
  pub paths : List LeafStatus
  pub phase : LeafPhase
  pub status_label : String

-- Whether the height opens the path; a relative lock cannot be told from it.
abbrev pub opens : UnlockType → ℕ → ℕ → Bool
opens UnlockType.immediate unlock_blocks height = true
opens UnlockType.after unlock_blocks height = leb unlock_blocks height
opens UnlockType.older unlock_blocks height = false

abbrev pub until_open : UnlockType → ℕ → ℕ → Option ℕ
until_open UnlockType.immediate unlock_blocks height = none
until_open UnlockType.after unlock_blocks height =
    if leb unlock_blocks height then none else some (unlock_blocks - height)
until_open UnlockType.older unlock_blocks height = none

abbrev pub leaf_status : ℕ → SpendingPathSummary → LeafStatus
leaf_status height p = record {
  id = p.id;
  label = p.label;
  quorum = p.quorum;
  key_count = p.key_count;
  unlock_type = p.unlock_type;
  unlock_blocks = p.unlock_blocks;
  unlocked = opens p.unlock_type p.unlock_blocks height;
  blocks_until_unlock = until_open p.unlock_type p.unlock_blocks height;
}

unfoldable pub js_governance_status_leaf_list : VaultShape → ℕ → LeafListStatus
js_governance_status_leaf_list vault utxo_age_blocks =
    let paths = map (leaf_status utxo_age_blocks) (get_spending_paths vault) in
    let active_paths = map (λ p. p.id) (filter (λ p. p.unlocked) paths) in
    let all_open = ltb 0 (length paths) && every (λ p. p.unlocked) paths in
    record {
      current_block = utxo_age_blocks;
      active_paths = active_paths;
      paths = paths;
      phase = if all_open then LeafPhase.all_unlocked else LeafPhase.some_locked;
      status_label =
          if all_open
          then "All paths unlocked."
          else decimal (length active_paths)
            ⧺ (" of " ⧺ (decimal (length paths) ⧺ " paths currently spendable."));
    }
