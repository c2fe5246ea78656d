-- ===== src/Server/Proposals/Ledger/Refine.antt =====
-- netlify/functions/proposals.js: every request is a step of the ledger.
use dynastytrust.Prelude.{
  String, false, Option, none, some, List, str_eq, eq_iff, ◌≡◌, inl, inr, refl, sym, subst, arith,
  Bool-cases,
}
use dynastytrust.Server.Http.{
  Outcome, refused, done, >>=-eq-done, >>-eq-done, done-injective, no_error, found, truthy,
  require_user,
}
use dynastytrust.Server.Store.{
  Database, Proposal, find_proposal, find_vault, membership, update_proposals,
}
use dynastytrust.Server.Proposals.{Fetched, is_terminal}
use dynastytrust.Server.Proposals.Patch.{
  Updates, PatchServices, patch_proposal, check_patch, apply_updates, asked_status, AskedStatus,
  asked, not_asked, invalid, touches_locked, after_check, new_value, new_status,
}
use dynastytrust.Server.Proposals.Create.{
  ProposalBody, CreateServices, create_proposal, check_create, proposal_of, insert_proposal,
}
use dynastytrust.Server.Proposals.Ledger.{LedgerStep, kept, opened, annotated, revised, settled}
use dynastytrust.Server.Numeric.{check_number_bounds, amount_bounds}
use dynastytrust.Server.Governance.Handler.{or_zero, check_unless_zero}
use dynastytrust.Server.Proposals.Create.{first_status, check_fee_rate}
use dynastytrust.Server.Proposals.Patch.{log_status}
use dynastytrust.Server.Table.{
  find_row-id, find_row-update_rows, find_row-update_rows_other, find_row-append,
}
use dynastytrust.Server.Proposals.Ledger.Checks.{
  Checked, check_patch-Checked, check_broadcast-Paid, apply_updates-SameTerms, apply_updates-memo,
  apply_updates-broadcast,
}

row-LedgerStep :
    (services : PatchServices) (db : Database) (key : String) (u : Updates) (p : Proposal)
    → Checked services db key u p
    → LedgerStep services.mempool_fetch (some p) (some (apply_updates u p))
row-LedgerStep services db key u p c = elim (Bool-cases (is_terminal p.status)) [
  | inl closed ↦
      let untouched : touches_locked u ≡ false = (let h = c.unlocked in ground arith) in
      rw (apply_updates-memo u p untouched) (annotated (new_value u.memo p.memo))
  | inr still_open ↦ elim (apply_updates-broadcast u p still_open) [
    | inl final ↦
        settled still_open (rw (final, new_status) refl)
          (check_broadcast-Paid services db u p final c.accepted) (apply_updates-SameTerms u p)
    | inr other ↦ revised still_open other (apply_updates-SameTerms u p)
  ]
]

log_status-proposals :
    (services : PatchServices) (user : String) (p : Proposal) (u : Updates) (a : AskedStatus)
    (db : Database)
    → (log_status services user p u a db).proposals ≡ db.proposals
log_status-proposals services user p u not_asked db = refl
log_status-proposals services user p u invalid db = refl
log_status-proposals services user p u (asked status) db = refl

update_proposals-LedgerStep :
    (mempool_fetch : String → Fetched) (u : Updates) (rows : List Proposal) (p : Proposal)
    → find_proposal p.id rows ≡ some p
    → LedgerStep mempool_fetch (some p) (some (apply_updates u p))
    → (id : String)
    → LedgerStep mempool_fetch
        (find_proposal id rows)
        (find_proposal id (update_proposals p.id (apply_updates u) rows))
update_proposals-LedgerStep mempool_fetch u rows p there step id =
    elim (Bool-cases (str_eq id p.id)) [
      | inl hit ↦
          rw
            (
              (eq_iff _ _).0 hit,
              there,
              find_row-update_rows (λ q. q.id) p.id (apply_updates u) rows (λ q. refl) p there,
            )
            step
      | inr miss ↦
          rw
            (find_row-update_rows_other (λ q. q.id) p.id id (apply_updates u) rows (λ q. refl)
              (λ e. ground (arith, eq_iff id p.id)))
            kept
    ]

after_check-LedgerStep :
    (services : PatchServices) (u : Updates) (db : Database) (o : Outcome Proposal)
    → ((p : Proposal) → o ≡ done p → (key : String) × Checked services db key u p)
    → (id : String)
    → LedgerStep services.mempool_fetch
        (find_proposal id db.proposals)
        (find_proposal id (after_check services u o db).0.proposals)
after_check-LedgerStep services u db (refused code message) checked id = kept
after_check-LedgerStep services u db (done p) checked id =
    let (key, c) = checked p refl in
    let own_id : find_proposal p.id db.proposals ≡ some p =
      subst (λ i. find_proposal i db.proposals ≡ some p)
        (sym (find_row-id (λ q. q.id) key db.proposals p c.there)) c.there in
    rw (log_status-proposals services _ p u (asked_status u.status) _) (
      update_proposals-LedgerStep services.mempool_fetch u db.proposals p own_id
        (row-LedgerStep services db key u p c) id)

first_status-is_terminal : (psbt : Option String) → is_terminal (first_status psbt) ≡ false
first_status-is_terminal none = refl
first_status-is_terminal (some psbt) = refl

check_create-is_terminal :
    (services : CreateServices) (db : Database) (body : ProposalBody) (p : Proposal)
    → check_create services db body ≡ done p
    → is_terminal p.status ≡ false
unfolding check_create proposal_of
check_create-is_terminal services db body p h =
    let (user, signed_in, h1) = >>=-eq-done (require_user services.user) _ h in
    let (vault_id, asked_for, h2) = >>=-eq-done (found (truthy body.vault_id) 400 _) _ h1 in
    let (destination, payee, h3) = >>=-eq-done (found (truthy body.destination) 400 _) _ h2 in
    let (amount, h4) =
      >>-eq-done
        (no_error (check_number_bounds body.amount_sats (amount_bounds "amount_sats" 546)) 400) _
        h3 in
    let (fee, h5) =
      >>-eq-done (no_error (check_unless_zero (or_zero body.fee_sats) "fee_sats") 400) _ h4 in
    let (rate, h6) = >>-eq-done (no_error (check_fee_rate body.fee_rate) 400) _ h5 in
    let (height, h7) =
      >>-eq-done (no_error (check_unless_zero (or_zero body.utxo_age_blocks) "utxo_age_blocks") 400)
        _ h6 in
    let (total, h8) =
      >>-eq-done
        (no_error (check_unless_zero (or_zero body.total_vault_sats) "total_vault_sats") 400) _
        h7 in
    let (vault, there, h9) = >>=-eq-done (found (find_vault vault_id db.vaults) 404 _) _ h8 in
    let (member, belongs, h10) =
      >>=-eq-done (found (membership vault_id user db.members) 403 _) _ h9 in
    let (written, h11) = >>-eq-done (no_error services.write_error 500) _ h10 in
    subst (λ q. is_terminal q.status ≡ false) (done-injective h11)
      (first_status-is_terminal (truthy body.psbt_hex))

insert_proposal-LedgerStep :
    (mempool_fetch : String → Fetched) (db : Database) (o : Outcome Proposal)
    → ((p : Proposal) → o ≡ done p → is_terminal p.status ≡ false)
    → (id : String)
    → LedgerStep mempool_fetch
        (find_proposal id db.proposals)
        (find_proposal id (insert_proposal o db).0.proposals)
insert_proposal-LedgerStep mempool_fetch db (refused code message) fresh id = kept
insert_proposal-LedgerStep mempool_fetch db (done p) fresh id =
    elim (find_row-append (λ q. q.id) id db.proposals p) [
      | inl same ↦ rw same kept
      | inr (absent, now) ↦ rw (absent, now) (opened (fresh p refl))
    ]

-- A request that is served: a POST or a PATCH, with any answers of the services but one explorer, who
-- answers alike every time.
pub data Served (mempool_fetch : String → Fetched) : Database → Database → Type 0 where
  posted :
      (services : CreateServices) (body : ProposalBody) (db : Database)
      → Served mempool_fetch db (create_proposal services body db).0
  patched :
      (services : PatchServices) (id : Option String) (u : Updates) (db : Database)
      → services.mempool_fetch ≡ mempool_fetch
      → Served mempool_fetch db (patch_proposal services id u db).0

-- Every POST or PATCH of a proposal, accepted or refused, whatever it asks for and whoever sends it,
-- is at every id a step of the ledger: it leaves the row, opens a new row that is not final, changes
-- the memo alone, revises a row that is not final without making it broadcast and without changing
-- its terms, or makes a row that is not final broadcast, with a transaction on record that the
-- explorer shows to pay the destination the amount.
pub Served-LedgerStep :
    {mempool_fetch : String → Fetched} {before after : Database}
    → Served mempool_fetch before after
    → (id : String)
    → LedgerStep mempool_fetch
        (find_proposal id before.proposals)
        (find_proposal id after.proposals)
unfolding patch_proposal create_proposal
Served-LedgerStep {mempool_fetch = mempool_fetch} (posted services body db) id =
    insert_proposal-LedgerStep mempool_fetch db (check_create services db body)
      (check_create-is_terminal services db body) id
Served-LedgerStep (patched services key u db alike) id =
    subst
      (λ f.
        LedgerStep f (find_proposal id db.proposals)
          (find_proposal id (patch_proposal services key u db).0.proposals))
      alike
      (after_check-LedgerStep services u db (check_patch services db key u)
        (check_patch-Checked services db key u) id)
