-- ===== src/Server/Governance.antt =====
-- netlify/functions/governance.js: the rules for the spending paths of a vault that the server runs
-- itself. Heights, amounts and quorums are natural numbers, a null column counting as 0; the number
-- called `utxo_age_blocks` is the height of the chain's tip.
pub mod Status
pub mod Audit
pub mod Handler
use dynastytrust.Prelude.{
  ℕ, ◌+◌, ◌-◌, ◌*◌, ◌/◌, ◌%◌, String, ◌⧺◌, decimal, Bool, not, Option, none, some, List, [], ◌∷◌,
  length, map, filter, ltb, if◌then◌else◌,
}

pub data Severity : Type 0 where
  hard soft info : Severity

pub record Rule : Type 0 where
  pub id : String
  pub description : String
  pub severity : Severity

-- An element of `violations`, `warnings` or `notes`.
pub record Remark : Type 0 where
  pub rule : Rule
  pub detail : String

pub record Signer : Type 0 where
  pub index : ℕ
  pub signed : Bool

pub record SpendDraft : Type 0 where
  pub path : String
  pub amount_sats : ℕ
  pub destination : String
  pub utxo_age_blocks : ℕ
  pub total_vault_sats : ℕ
  pub signers : List Signer

-- `policyBase` of the handler.
pub record BasePolicy : Type 0 where
  pub founder_quorum : ℕ
  pub founder_key_count : ℕ
  pub heir_quorum : ℕ
  pub heir_key_count : ℕ
  pub recovery_after : ℕ
  pub inheritance_after : ℕ

pub record AuditTrail : Type 0 where
  pub violations : List Remark
  pub warnings : List Remark
  pub notes : List Remark
  pub approved : Bool

pub record Evaluation : Type 0 where
  pub allowed : Bool
  pub path : String
  pub required_signers : ℕ
  pub provided_signers : ℕ
  pub missing_signers : ℕ
  pub timelock_satisfied : Bool
  pub quorum_satisfied : Bool
  pub pending_signer_indices : List ℕ
  pub reason : String

pub record NextAction : Type 0 where
  pub ready_to_broadcast : Bool
  pub signer_index : Option ℕ
  pub instruction : Option String

pub record AuditResult : Type 0 where
  pub audit : AuditTrail
  pub evaluation : Evaluation
  pub next_action : NextAction

abbrev pub blocks_per_day : ℕ
blocks_per_day = 144

-- `Math.round(blocks / BLOCKS_PER_DAY)`
abbrev pub round_days : ℕ → ℕ
round_days blocks = (2 * blocks + blocks_per_day) / (2 * blocks_per_day)

-- `(part / whole * 100).toFixed(1)`, for a positive whole.
pub percent : ℕ → ℕ → String
percent part whole =
    let tenths = (2000 * part + whole) / (2 * whole) in
    decimal (tenths / 10) ⧺ ("." ⧺ decimal (tenths % 10))

-- `if (test) list.push(remark);`
abbrev pub remark_if : Bool → Remark → List Remark
remark_if test remark = if test then remark ∷ [] else []

abbrev pub remark : String → String → Severity → String → Remark
remark id description severity detail = record {
  rule = record { id = id; description = description; severity = severity };
  detail = detail;
}

unfoldable pub signed_count : List Signer → ℕ
signed_count signers = length (filter (λ s. s.signed) signers)

unfoldable pub pending_indices : List Signer → List ℕ
pending_indices signers = map (λ s. s.index) (filter (λ s. not s.signed) signers)

abbrev pub timelock_remark : ℕ → ℕ → Remark
timelock_remark height unlock_height = remark "GOV-001" "Timelock not satisfied" Severity.hard (
    "Current chain height "
    ⧺ (decimal height
        ⧺ (" is below the unlock height. Needs "
            ⧺ (decimal (unlock_height - height)
                ⧺ (" more blocks (~"
                    ⧺ (decimal (round_days (unlock_height - height)) ⧺ " days)."))))))

abbrev pub quorum_remark : ℕ → ℕ → Remark
quorum_remark required signed =
    remark "GOV-002" "Quorum not satisfied" Severity.hard
      ("Need " ⧺ (decimal required ⧺ (" signatures, have " ⧺ (decimal signed ⧺ "."))))

abbrev pub dust_remark : ℕ → Remark
dust_remark amount =
    remark "GOV-003" "Output below dust limit" Severity.hard
      (decimal amount ⧺ " sats is below the 546 sat dust limit.")

abbrev pub balance_remark : ℕ → ℕ → Remark
balance_remark amount total =
    remark "GOV-004" "Insufficient vault balance" Severity.hard
      ("Spend " ⧺ (decimal amount ⧺ (" sats exceeds vault balance " ⧺ (decimal total ⧺ " sats."))))

pub large_spend_remark : ℕ → ℕ → Remark
large_spend_remark amount total =
    remark "GOV-005" "Large spend (>50% of vault)" Severity.soft
      ("Spending " ⧺ (percent amount total ⧺ "% of vault balance."))

-- `list.length > 0 ? list[0].detail : otherwise`
abbrev pub first_detail : List Remark → String → String
first_detail [] otherwise = otherwise
first_detail (r ∷ rs) otherwise = r.detail

-- `list[0]?.detail` and `list[0] ?? null`
abbrev pub detail_of_first : List Remark → Option String
detail_of_first [] = none
detail_of_first (r ∷ rs) = some r.detail

abbrev pub head_of {ℓ} : {A : Type ℓ} → List A → Option A
head_of [] = none
head_of (x ∷ xs) = some x

abbrev pub waiting_for : List ℕ → String
waiting_for [] = "Waiting for signer #1 to sign."
waiting_for (i ∷ is) = "Waiting for signer #" ⧺ (decimal (i + 1) ⧺ " to sign.")

abbrev pub is_empty {ℓ} : {A : Type ℓ} → List A → Bool
is_empty xs = not (ltb 0 (length xs))
