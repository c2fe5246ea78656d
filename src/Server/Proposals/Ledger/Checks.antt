-- ===== src/Server/Proposals/Ledger/Checks.antt =====
-- netlify/functions/proposals.js: what the checks of an update say of its row.
use dynastytrust.Prelude.{
  ◌==◌, Any, ap, eq_iff, Bool-cases, [], ◌∷◌, ℕ, String, ◌⧺◌, Bool, true, false, ◌&&◌, ◌||◌, not,
  Option, none, some, is_some, List, ◌≡◌, ◌≢◌, ◌⊎◌, inl, inr, refl, subst, arith,
}
use dynastytrust.Server.Http.{
  done, >>=-eq-done, >>-eq-done, done-injective, unless, no_error, found, truthy, require_user,
}
use dynastytrust.Server.Store.{
  Database, Proposal, ProposalStatus, draft, pending, signed, broadcast, cancelled, fulfilled,
  find_proposal, find_vault, membership,
}
use dynastytrust.Server.Governance.Handler.Checked.{found-done}
use dynastytrust.Server.Proposals.{TxOutput, Fetched, failed, fetched, is_terminal}
use dynastytrust.Server.Proposals.Patch.{
  address_is, Updates, PatchServices, check_patch, check_broadcast, check_payment, apply_updates,
  pays, txid_of, asked_status, AskedStatus, asked, not_asked, invalid, touches_locked, is_invalid,
  network_of, base_of, new_value, new_status,
}
use dynastytrust.Server.Proposals.Ledger.{Pays, SameTerms, Paid}

pub apply_updates-SameTerms : (u : Updates) (p : Proposal) → SameTerms p (apply_updates u p)
apply_updates-SameTerms u p = record {
  same_id = refl;
  same_vault = refl;
  same_user = refl;
  same_path = refl;
  same_destination = refl;
  same_amount = refl;
  same_audit = refl;
}

pub unless-true :
    (b : Bool) (code : ℕ) (message : String) → unless b code message ≡ done tt → b ≡ true
unless-true true code message h = refl
unless-true false code message h = cc

pub not-false : (b : Bool) → not b ≡ true → b ≡ false
not-false false h = refl
not-false true h = cc

is_some-none {ℓ} : {A : Type ℓ} (o : Option A) → is_some o ≡ false → o ≡ none
is_some-none none h = refl
is_some-none (some a) h = cc

-- Updates of the memo alone leave the rest.
pub apply_updates-memo :
    (u : Updates) (p : Proposal)
    → touches_locked u ≡ false
    → apply_updates u p ≡ record p { memo = new_value u.memo p.memo }
apply_updates-memo u p h =
    let e1 : u.status ≡ none = is_some-none u.status (ground arith) in
    let e2 : u.psbt_hex ≡ none = is_some-none u.psbt_hex (ground arith) in
    let e3 : u.psbt_b64 ≡ none = is_some-none u.psbt_b64 (ground arith) in
    let e4 : u.psbt_signed_hex ≡ none = is_some-none u.psbt_signed_hex (ground arith) in
    let e5 : u.txid ≡ none = is_some-none u.txid (ground arith) in rw (e1, e2, e3, e4, e5)

-- What a checked update knows of its row.
pub record Checked (services : PatchServices) (db : Database) (id : String) (u : Updates)
    (p : Proposal) : Type 0 where
  pub there : find_proposal id db.proposals ≡ some p
  pub unlocked : (is_terminal p.status && touches_locked u) ≡ false
  pub accepted : check_broadcast services db u (asked_status u.status) p ≡ done tt

txid_of-some :
    (t : Option (Option String)) {txid : String} → txid_of t ≡ some txid → t ≡ some (some txid)
txid_of-some none h = cc
txid_of-some (some none) h = cc
txid_of-some (some (some t)) h = ground arith

address_is-some :
    (address : Option String) (destination : String)
    → address_is address destination ≡ true
    → address ≡ some destination
address_is-some none destination h = cc
address_is-some (some a) destination h = ap some ((eq_iff _ _).0 h)

pays-Pays :
    (outputs : List TxOutput) (p : Proposal)
    → pays outputs p ≡ true
    → Any (Pays p.destination p.amount_sats) outputs
unfolding pays
pays-Pays [] p h = cc
pays-Pays (o ∷ outputs) p h =
    elim (Bool-cases
      (address_is o.scriptpubkey_address p.destination && (o.value == p.amount_sats))) [
        | inl paid ↦ inl (record {
          to_destination = address_is-some o.scriptpubkey_address p.destination (ground arith);
          whole_amount = ground arith;
        })
        | inr other ↦ inr (pays-Pays outputs p (ground arith))
      ]

check_payment-fetched :
    (answer : Fetched) (txid : String) (network : Option String) (p : Proposal)
    → check_payment answer txid network p ≡ done tt
    → (outputs : List TxOutput) × (answer ≡ fetched outputs) × (pays outputs p ≡ true)
check_payment-fetched (failed message) txid network p h = absurd (ground arith)
check_payment-fetched (fetched outputs) txid network p h =
    (outputs, refl, unless-true (pays outputs p) 400 _ h)

pub check_broadcast-Paid :
    (services : PatchServices) (db : Database) (u : Updates) (p : Proposal)
    → asked_status u.status ≡ asked broadcast
    → check_broadcast services db u (asked_status u.status) p ≡ done tt
    → Paid services.mempool_fetch (apply_updates u p)
unfolding check_broadcast pays
check_broadcast-Paid services db u p e h =
    let h0 : check_broadcast services db u (asked broadcast) p ≡ done tt = rw e at h in
    let (txid, valid, h1) = >>=-eq-done (found (txid_of u.txid) 400 _) _ h0 in
    let network = network_of (find_vault p.vault_id db.vaults) in
    let given = txid_of-some u.txid (found-done (txid_of u.txid) 400 _ valid) in
    let (outputs, shown, paid) =
      check_payment-fetched (services.mempool_fetch (base_of network ⧺ ("/tx/" ⧺ txid))) txid
        network p h1 in
    let pay = pays-Pays outputs p paid in
    record {
      txid = txid;
      base = base_of network;
      outputs = outputs;
      recorded = rw given refl;
      shown = shown;
      pay = pay;
    }

new_status-broadcast :
    (a : AskedStatus) (s : ProposalStatus)
    → is_terminal s ≡ false
    → (a ≡ asked broadcast) ⊎ (new_status a s ≢ broadcast)
new_status-broadcast not_asked s h = inr (λ e. ground arith)
new_status-broadcast invalid s h = inr (λ e. ground arith)
new_status-broadcast (asked broadcast) s h = inl refl
new_status-broadcast (asked draft) s h = inr (λ e. cc)
new_status-broadcast (asked pending) s h = inr (λ e. cc)
new_status-broadcast (asked signed) s h = inr (λ e. cc)
new_status-broadcast (asked cancelled) s h = inr (λ e. cc)
new_status-broadcast (asked fulfilled) s h = inr (λ e. cc)

pub apply_updates-broadcast :
    (u : Updates) (p : Proposal)
    → is_terminal p.status ≡ false
    → (asked_status u.status ≡ asked broadcast) ⊎ ((apply_updates u p).status ≢ broadcast)
apply_updates-broadcast u p h = new_status-broadcast (asked_status u.status) p.status h

pub check_patch-Checked :
    (services : PatchServices) (db : Database) (id : Option String) (u : Updates) (p : Proposal)
    → check_patch services db id u ≡ done p
    → (key : String) × Checked services db key u p
unfolding check_patch
check_patch-Checked services db id u p h =
    let (user, signed_in, h1) = >>=-eq-done (require_user services.user) _ h in
    let (key, named, h2) = >>=-eq-done (found (truthy id) 400 _) _ h1 in
    let (touches, h3) = >>-eq-done (unless (touches_locked u || is_some u.memo) 400 _) _ h2 in
    let (valid, h4) = >>-eq-done (unless (not (is_invalid (asked_status u.status))) 400 _) _ h3 in
    let (row, there, h5) = >>=-eq-done (found (find_proposal key db.proposals) 404 _) _ h4 in
    let (open_row, h6) =
      >>-eq-done (unless (not (is_terminal row.status && touches_locked u)) 409 _) _ h5 in
    let (member, belongs, h7) =
      >>=-eq-done (found (membership row.vault_id user db.members) 403 _) _ h6 in
    let (accepted, h8) =
      >>-eq-done (check_broadcast services db u (asked_status u.status) row) _ h7 in
    let (written, h9) = >>-eq-done (no_error services.write_error 500) _ h8 in
    (
      key,
      subst (Checked services db key u) (done-injective h9) (record {
        there = found-done (find_proposal key db.proposals) 404 _ there;
        unlocked = not-false _ (unless-true _ 409 _ open_row);
        accepted = accepted;
      }),
    )
