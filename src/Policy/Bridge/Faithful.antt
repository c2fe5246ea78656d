-- ===== src/Policy/Bridge/Faithful.antt =====
-- packages/policy-engine/src/index.ts: the gate over a ceremony that the bridge built.
use dynastytrust.Prelude.{ℕ, String, true, false, some, ◌≡◌, sym, ◌⊎◌, arith, eq_iff}
use mathlib.Core.Path.{subst}
use dynastytrust.Policy.Gate.{pending, approved, signing, SigningGateInput, evaluate_signing_gate}
use dynastytrust.Policy.Gate.Allow.{evaluate_signing_gate_iff, IsBound, IsOpen}
use dynastytrust.Policy.Bridge.{CeremonyBridgeInput, map_proposal_status, ceremony_from_proposal}

map_signable :
    (s : String)
    → (map_proposal_status s ≡ pending)
      ⊎ ((map_proposal_status s ≡ approved) ⊎ (map_proposal_status s ≡ signing))
    → (s ≡ "pending") ⊎ (s ≡ "signed")
unfolding map_proposal_status
map_signable s h =
    ground
      (arith, eq_iff s "pending", eq_iff s "signed", eq_iff s "broadcast", eq_iff s "cancelled")

-- What the gate has established of the stored proposal when it lets a spend through.
pub record Sanctions (b : CeremonyBridgeInput) (input : SigningGateInput) : Type 0 where
  pub stored_status : (b.proposal.status ≡ "pending") ⊎ (b.proposal.status ≡ "signed")
  pub vault : input.vault.vault_id ≡ b.proposal.vault_id
  pub psbt_hash : input.request.psbt_hash ≡ b.authorized_psbt_hash
  pub destination : input.request.destination ≡ b.proposal.destination
  pub amount_sats : input.request.amount_sats ≡ b.proposal.amount_sats
  pub path : input.request.path ≡ b.proposal.path
  pub calm : b.duress ≡ false

-- Where the gate is asked about the ceremony of a stored proposal, and allows the spend, the stored
-- status is "pending" or "signed", the vault, the destination, the amount and the path are the
-- proposal's, the digest is the one bound to it, and no duress is flagged.
pub ceremony_from_proposal-Sanctions :
    (b : CeremonyBridgeInput) (input : SigningGateInput) (now : ℕ)
    → input.ceremony ≡ some (ceremony_from_proposal b)
    → (evaluate_signing_gate input now).allow ≡ true
    → Sanctions b input
unfolding ceremony_from_proposal
ceremony_from_proposal-Sanctions b input now e h =
    let a = (evaluate_signing_gate_iff input now).0 h in
    let same : a.ceremony ≡ ceremony_from_proposal b = cc in
    let bound = subst (IsBound input) same a.bound in
    let in_force = subst (λ c. IsOpen input c now) same a.in_force in
    record {
      stored_status = map_signable b.proposal.status in_force.signable;
      vault = sym bound.ceremony_vault;
      psbt_hash = bound.psbt_hash;
      destination = bound.destination;
      amount_sats = bound.amount_sats;
      path = bound.path;
      calm = in_force.calm;
    }
