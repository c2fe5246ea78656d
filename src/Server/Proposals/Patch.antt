-- ===== src/Server/Proposals/Patch.antt =====
-- netlify/functions/proposals.js: the PATCH of a proposal.
use dynastytrust.Prelude.{
  ℕ, String, ◌⧺◌, decimal, Bool, true, false, ◌&&◌, ◌||◌, not, Option, none, some, is_some, List,
  [], ◌∷◌, any, ◌==◌, str_eq, if◌then◌else◌,
}
use dynastytrust.Server.Http.{
  Outcome, refused, done, ◌>>=◌, ◌>>◌, unless, no_error, found, truthy, require_user,
}
use dynastytrust.Server.Store.{
  Database, Vault, Proposal, ProposalStatus, draft, pending, signed, broadcast, cancelled,
  fulfilled, find_proposal, find_vault, membership, update_proposals,
}
use dynastytrust.Server.Proposals.{
  TxOutput, Fetched, failed, fetched, is_terminal, status_name, valid_status, mempool_base,
  is_hex_text, log_event,
}

-- The allowed fields of the body. Each is absent, null or a text.
pub record Updates : Type 0 where
  pub status : Option (Option String)
  pub psbt_hex : Option (Option String)
  pub psbt_b64 : Option (Option String)
  pub psbt_signed_hex : Option (Option String)
  pub txid : Option (Option String)
  pub memo : Option (Option String)

-- What the services give during the request: the user or nothing, the explorer's answer to a URL, the
-- height of a network's tip where it can be fetched, and the database's error on the write.
pub record PatchServices : Type 0 where
  pub user : Option String
  pub mempool_fetch : String → Fetched
  pub tip_height : String → Option ℕ
  pub write_error : Option String

-- A status that is asked for: none, a valid one, or another value.
pub data AskedStatus : Type 0 where
  not_asked invalid : AskedStatus
  asked : ProposalStatus → AskedStatus

abbrev pub asked_of : Option ProposalStatus → AskedStatus
asked_of none = invalid
asked_of (some status) = asked status

abbrev pub asked_status : Option (Option String) → AskedStatus
asked_status none = not_asked
asked_status (some none) = invalid
asked_status (some (some name)) = asked_of (valid_status name)

abbrev pub is_invalid : AskedStatus → Bool
is_invalid not_asked = false
is_invalid invalid = true
is_invalid (asked status) = false

-- `Object.keys(updates).some((k) => k !== 'memo')`
abbrev pub touches_locked : Updates → Bool
touches_locked u =
    is_some u.status
    || (is_some u.psbt_hex || (is_some u.psbt_b64 || (is_some u.psbt_signed_hex || is_some u.txid)))

-- `updates.txid`, where it is a text that the pattern of a transaction id matches.
abbrev pub txid_of : Option (Option String) → Option String
txid_of none = none
txid_of (some none) = none
txid_of (some (some t)) = if is_hex_text 64 t then some t else none

abbrev pub address_is : Option String → String → Bool
address_is none destination = false
address_is (some a) destination = str_eq a destination

unfoldable pub pays : List TxOutput → Proposal → Bool
pays outputs p =
    any (λ o. address_is o.scriptpubkey_address p.destination && (o.value == p.amount_sats)) outputs

-- `v?.network`
abbrev pub network_of : Option Vault → Option String
network_of none = none
network_of (some v) = some v.network

abbrev pub base_of : Option String → String
base_of none = mempool_base "testnet"
base_of (some network) = mempool_base network

abbrev pub network_name : Option String → String
network_name none = "testnet"
network_name (some network) = if str_eq network "" then "testnet" else network

abbrev pub check_payment : Fetched → String → Option String → Proposal → Outcome (Unit {0})
check_payment (failed message) txid network existing =
    refused 400 (
      "Could not find transaction " ⧺ (txid ⧺ (" on " ⧺ (network_name network ⧺ (": " ⧺ message)))))
check_payment (fetched outputs) txid network existing = unless (pays outputs existing) 400 (
    "Transaction "
    ⧺ (txid
        ⧺ (" does not pay this proposal's destination ("
            ⧺ (existing.destination
                ⧺ (") with the expected amount ("
                    ⧺ (decimal existing.amount_sats ⧺ " sats) -- refusing to mark broadcast."))))))

-- The checks of a transition to `broadcast`; every other status needs none.
unfoldable pub check_broadcast :
    PatchServices → Database → Updates → AskedStatus → Proposal → Outcome (Unit {0})
check_broadcast services db updates (asked broadcast) existing = do
  txid ←
      found (txid_of updates.txid) 400
        "txid must be a 64-char hex transaction id to mark a proposal broadcast"
  let network = network_of (find_vault existing.vault_id db.vaults)
  check_payment (services.mempool_fetch (base_of network ⧺ ("/tx/" ⧺ txid))) txid network existing
check_broadcast services db updates (asked draft) existing = done tt
check_broadcast services db updates (asked pending) existing = done tt
check_broadcast services db updates (asked signed) existing = done tt
check_broadcast services db updates (asked cancelled) existing = done tt
check_broadcast services db updates (asked fulfilled) existing = done tt
check_broadcast services db updates not_asked existing = done tt
check_broadcast services db updates invalid existing = done tt

-- The handler up to the write: the row that may be updated.
unfoldable pub check_patch : PatchServices → Database → Option String → Updates → Outcome Proposal
check_patch services db id updates = do
  user ← require_user services.user
  id ← found (truthy id) 400 "Missing: ?id=<proposal-uuid>"
  unless (touches_locked updates || is_some updates.memo) 400 "No valid fields to update"
  unless (not (is_invalid (asked_status updates.status))) 400
      "Invalid status. Must be one of: draft, pending, signed, broadcast, cancelled, fulfilled"
  existing ← found (find_proposal id db.proposals) 404 "Proposal not found"
  unless (not (is_terminal existing.status && touches_locked updates)) 409 (
      "This proposal is already "
      ⧺ (status_name existing.status ⧺ " and its record is locked. Only memo may still be edited."))
  member ← found (membership existing.vault_id user db.members) 403 "Not a member of this vault"
  check_broadcast services db updates (asked_status updates.status) existing
  no_error services.write_error 500
  done existing

abbrev pub new_value {ℓ} : {A : Type ℓ} → Option A → A → A
new_value none old = old
new_value (some new) old = new

abbrev pub new_status : AskedStatus → ProposalStatus → ProposalStatus
new_status not_asked old = old
new_status invalid old = old
new_status (asked status) old = status

abbrev pub apply_updates : Updates → Proposal → Proposal
apply_updates u p = record p {
  status = new_status (asked_status u.status) p.status;
  psbt_hex = new_value u.psbt_hex p.psbt_hex;
  psbt_b64 = new_value u.psbt_b64 p.psbt_b64;
  psbt_signed_hex = new_value u.psbt_signed_hex p.psbt_signed_hex;
  txid = new_value u.txid p.txid;
  memo = new_value u.memo p.memo;
}

abbrev pub tip_of : PatchServices → Option String → ProposalStatus → Option ℕ
tip_of services none broadcast = none
tip_of services (some network) broadcast =
    if str_eq network "" then none else services.tip_height network
tip_of services network draft = none
tip_of services network pending = none
tip_of services network signed = none
tip_of services network cancelled = none
tip_of services network fulfilled = none

-- The event of a change of status.
abbrev pub log_status :
    PatchServices → String → Proposal → Updates → AskedStatus → Database → Database
log_status services user existing updates not_asked db = db
log_status services user existing updates invalid db = db
log_status services user existing updates (asked status) db =
    log_event
      (record {
        vault_id = existing.vault_id;
        user_id = user;
        event_type = status_name status;
        metadata =
            ("proposal_id", some existing.id) ∷ ("txid", truthy (new_value updates.txid none)) ∷ [];
        block_height = tip_of services (network_of (find_vault existing.vault_id db.vaults)) status;
      })
      db

abbrev pub user_text : Option String → String
user_text none = ""
user_text (some user) = user

abbrev pub after_check :
    PatchServices → Updates → Outcome Proposal → Database → Database × Outcome Proposal
after_check services updates (refused code message) db = (db, refused code message)
after_check services updates (done existing) db =
    let written = record db {
      proposals = update_proposals existing.id (apply_updates updates) db.proposals;
    } in
    (
      log_status services (user_text services.user) existing updates (asked_status updates.status)
          written,
      done (apply_updates updates existing),
    )

unfoldable pub patch_proposal :
    PatchServices → Option String → Updates → Database → Database × Outcome Proposal
patch_proposal services id updates db =
    after_check services updates (check_patch services db id updates) db
