-- ===== src/Server/Proposals/Ledger.antt =====
-- netlify/functions/proposals.js: a ledger of proposals, the specification that its requests refine.
pub mod Checks
pub mod Refine
pub mod Runs
use dynastytrust.Prelude.{
  Any, ℕ, String, ◌⧺◌, Bool, true, false, ◌&&◌, ◌||◌, not, Option, none, some, is_some, List, [],
  ◌∷◌, ◌++◌, map, find, str_eq, eq_iff, if◌then◌else◌, ◌≡◌, ◌≢◌, ◌⊎◌, ◌↔◌, inl, inr, refl, sym, ◌∙◌,
  ap, subst, arith, Bool-cases, Option-cases,
}
use dynastytrust.Server.Http.{
  Outcome, refused, done, ◌>>=◌, ◌>>◌, >>=-eq-done, >>-eq-done, done-injective, unless, no_error,
  found, truthy, require_user,
}
use dynastytrust.Server.Store.{
  Database, Proposal, ProposalStatus, draft, pending, signed, broadcast, cancelled, fulfilled,
  find_proposal, find_vault, membership, update_proposals, StoredAudit,
}
use dynastytrust.Server.Governance.Handler.Checked.{found-done, no_error-done}
use dynastytrust.Server.Proposals.{TxOutput, Fetched, failed, fetched, is_terminal, mempool_base}
use dynastytrust.Server.Proposals.Patch.{
  Updates, PatchServices, patch_proposal, check_patch, check_broadcast, check_payment,
  apply_updates, pays, txid_of, asked_status, AskedStatus, asked, not_asked, invalid,
  touches_locked, is_invalid, after_check, network_of, base_of, new_value, new_status,
}
use dynastytrust.Server.Proposals.Create.{
  ProposalBody, CreateServices, create_proposal, check_create, proposal_of, insert_proposal,
}

-- What no update of a proposal changes.
pub record SameTerms (p q : Proposal) : Type 0 where
  pub same_id : q.id ≡ p.id
  pub same_vault : q.vault_id ≡ p.vault_id
  pub same_user : q.user_id ≡ p.user_id
  pub same_path : q.path ≡ p.path
  pub same_destination : q.destination ≡ p.destination
  pub same_amount : q.amount_sats ≡ p.amount_sats
  pub same_audit : q.governance_audit ≡ p.governance_audit

-- An output that gives a destination exactly an amount.
pub record Pays (destination : String) (amount : ℕ) (o : TxOutput) : Type 0 where
  pub to_destination : o.scriptpubkey_address ≡ some destination
  pub whole_amount : o.value ≡ amount

-- The explorer showed the transaction of the row to pay its destination its amount.
pub record Paid (mempool_fetch : String → Fetched) (p : Proposal) : Type 0 where
  pub txid : String
  pub base : String
  pub outputs : List TxOutput
  pub recorded : p.txid ≡ some txid
  pub shown : mempool_fetch (base ⧺ ("/tx/" ⧺ txid)) ≡ fetched outputs
  pub pay : Any (Pays p.destination p.amount_sats) outputs

-- A step of the ledger at one id: nothing, a new row that is open, a new memo, a revision of an open
-- row that does not make it broadcast, or the broadcast of an open row that is paid.
pub data LedgerStep (mempool_fetch : String → Fetched)
    : Option Proposal → Option Proposal → Type 0 where
  kept : {o : Option Proposal} → LedgerStep mempool_fetch o o
  opened : {p : Proposal} → is_terminal p.status ≡ false → LedgerStep mempool_fetch none (some p)
  annotated :
      {p : Proposal} (memo : Option String)
      → LedgerStep mempool_fetch (some p) (some (record p { memo = memo }))
  revised :
      {p q : Proposal}
      → is_terminal p.status ≡ false
      → q.status ≢ broadcast
      → SameTerms p q
      → LedgerStep mempool_fetch (some p) (some q)
  settled :
      {p q : Proposal}
      → is_terminal p.status ≡ false
      → q.status ≡ broadcast
      → Paid mempool_fetch q
      → SameTerms p q
      → LedgerStep mempool_fetch (some p) (some q)
