-- ===== src/Policy/Gate.antt =====
-- packages/policy-engine/src/index.ts, `evaluateSigningGate`: the checks in source order, each
-- adding a denial. Amounts and times are natural numbers (satoshis, epoch milliseconds).
pub mod Allow
use dynastytrust.Prelude.{
  ℕ, ℤ, pos, String, Bool, true, false, ◌&&◌, ◌||◌, not, Option, none, some, List, [], ◌∷◌, ◌++◌,
  suc, if◌then◌else◌, ltb, ltb_ℤ, ◌==◌, str_eq, ◌⧺◌, decimal, decimal_ℤ, is_some,
}
use dynastytrust.Policy.Types.{
  Code, no_ceremony, psbt_not_bound, vault_mismatch, psbt_hash_mismatch, destination_mismatch,
  amount_mismatch, path_mismatch, ceremony_not_signable, duress_hold, ceremony_expired,
  governance_rejected, liveness_red, liveness_not_green, ValidationMessage,
}
use dynastytrust.Policy.Messages.{when, is_empty}

pub data CeremonyStatus : Type 0 where
  draft pending approved signing broadcast cancelled : CeremonyStatus

pub record SigningCeremony : Type 0 where
  pub proposal_id : String
  pub vault_id : String
  pub status : CeremonyStatus
  pub authorized_psbt_hash : String
  pub destination : String
  pub amount_sats : ℕ
  pub path : String
  pub duress : Bool
  pub expires_at : Option ℕ

pub data LivenessState : Type 0 where
  green no_report red : LivenessState

pub record SpendRequest : Type 0 where
  pub vault_id : String
  pub psbt_hash : String
  pub destination : String
  pub amount_sats : ℕ
  pub path : String

pub record VaultRef : Type 0 where
  pub vault_id : String
  pub address : String

pub record LivenessInput : Type 0 where
  pub member_states : List LivenessState
  pub required_green : ℤ

pub record SigningGateInput : Type 0 where
  pub request : SpendRequest
  pub ceremony : Option SigningCeremony
  pub vault : VaultRef
  pub psbt_binds_to_vault : Bool
  pub governance_approved : Option Bool
  pub liveness : Option LivenessInput

pub record SigningGateResult : Type 0 where
  pub allow : Bool
  pub denials : List ValidationMessage

-- `deny(code, message)`: a denial names no field.
abbrev denial : Code → String → ValidationMessage
denial c m = record { code = c; field = none; message = m }

abbrev pub is_signable : CeremonyStatus → Bool
is_signable pending = true
is_signable approved = true
is_signable signing = true
is_signable _ = false

abbrev status_text : CeremonyStatus → String
status_text draft = "draft"
status_text pending = "pending"
status_text approved = "approved"
status_text signing = "signing"
status_text broadcast = "broadcast"
status_text cancelled = "cancelled"

-- `typeof ceremony.expiresAt === 'number' && now > ceremony.expiresAt`
abbrev pub is_expired : ℕ → Option ℕ → Bool
is_expired now none = false
is_expired now (some t) = ltb t now

-- `governanceApproved === false`
abbrev pub is_refused : Option Bool → Bool
is_refused (some false) = true
is_refused _ = false

-- The loop over `memberStates`, over the two counters.
unfoldable pub count_states : ℕ → ℕ → List LivenessState → ℕ × ℕ
count_states greens reds [] = (greens, reds)
count_states greens reds (green ∷ states) = count_states (suc greens) reds states
count_states greens reds (red ∷ states) = count_states greens (suc reds) states
count_states greens reds (no_report ∷ states) = count_states greens reds states

unfoldable pub liveness_denials : Option LivenessInput → List ValidationMessage
liveness_denials none = []
liveness_denials (some l) =
    let (greens, reds) = count_states 0 0 l.member_states in
    if ltb 0 reds
    then denial liveness_red
        "A circle member has raised red; signing is blocked and funds fall to the timelock backstop."
      ∷ []
    else when (ltb_ℤ (pos greens) l.required_green) (
        denial liveness_not_green (
          "Circle liveness quorum not met: "
          ⧺ decimal greens
          ⧺ " of "
          ⧺ decimal_ℤ l.required_green
          ⧺ " green."))

-- The spend must name what the ceremony names.
unfoldable pub binding_denials : SigningGateInput → SigningCeremony → List ValidationMessage
binding_denials input ceremony =
    when (not input.psbt_binds_to_vault)
      (denial psbt_not_bound "The PSBT inputs do not belong to this vault address.")
    ++ (when
          (not (str_eq ceremony.vault_id input.vault.vault_id)
            || not (str_eq input.request.vault_id input.vault.vault_id))
          (denial vault_mismatch
            "The spend, the ceremony, and the vault do not all refer to the same vault.")
        ++ (when (not (str_eq input.request.psbt_hash ceremony.authorized_psbt_hash)) (
              denial psbt_hash_mismatch
                "The transaction being signed does not match the one that was proposed and approved.")
            ++ (when (not (str_eq input.request.destination ceremony.destination))
                  (denial destination_mismatch "Destination differs from the approved proposal.")
                ++ (when (not (input.request.amount_sats == ceremony.amount_sats))
                      (denial amount_mismatch "Amount differs from the approved proposal.")
                    ++ when (not (str_eq input.request.path ceremony.path))
                        (denial path_mismatch "Spend path differs from the approved proposal.")))))

-- The ceremony must be in a state in which signing may go on.
unfoldable pub state_denials : SigningGateInput → SigningCeremony → ℕ → List ValidationMessage
state_denials input ceremony now =
    when (not (is_signable ceremony.status)) (
      denial ceremony_not_signable
        ("Proposal status \"" ⧺ status_text ceremony.status ⧺ "\" is not signable."))
    ++ (when ceremony.duress (
          denial duress_hold
            "A duress/hold signal is active. Signing is blocked; the timelock backstop is the guarantee.")
        ++ (when (is_expired now ceremony.expires_at)
              (denial ceremony_expired "This proposal has expired. Re-propose to sign.")
            ++ (when (is_refused input.governance_approved) (
                  denial governance_rejected
                    "Governance audit did not approve this spend (timelock/quorum/limits).")
                ++ liveness_denials input.liveness)))

unfoldable pub gate_denials : SigningGateInput → ℕ → Option SigningCeremony → List ValidationMessage
gate_denials input now none =
    denial no_ceremony
      "No proposal authorizes this spend. The wallet will not sign an unproposed transaction."
    ∷ []
gate_denials input now (some ceremony) =
    binding_denials input ceremony ++ state_denials input ceremony now

-- In the branch without a ceremony the source returns `allow: false` beside its one denial.
unfoldable pub evaluate_signing_gate : SigningGateInput → ℕ → SigningGateResult
unfolding gate_denials
evaluate_signing_gate input now = record {
  allow = is_some input.ceremony && is_empty (gate_denials input now input.ceremony);
  denials = gate_denials input now input.ceremony;
}
