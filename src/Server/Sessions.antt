-- ===== src/Server/Sessions.antt =====
-- netlify/functions/signer-sessions.js: the partial signatures that members record on a proposal. The
-- signed-in user, the time, the id of a new row and the database's error on the write are parameters.
pub mod Attribution
use dynastytrust.Prelude.{
  ℕ, String, Bool, true, false, ◌&&◌, Option, none, some, List, [], ◌∷◌, ◌++◌, length, map, filter,
  find, str_eq, if◌then◌else◌,
}
use dynastytrust.Server.Http.{
  Outcome, refused, done, ◌>>=◌, ◌>>◌, no_error, found, truthy, require_user,
}
use dynastytrust.Server.Store.{
  Database, Member, Proposal, SignerSession, VaultEvent, find_proposal, membership,
}
use dynastytrust.Server.Proposals.{log_event}

pub record SessionServices : Type 0 where
  pub user : Option String
  pub now : String
  pub new_id : String
  pub write_error : Option String

-- A label that is null counts as absent.
pub record SessionBody : Type 0 where
  pub proposal_id : Option String
  pub psbt_partial_hex : Option String
  pub label : Option String

abbrev pub signer_role : String → String
signer_role role = if str_eq role "heir" then "heir" else "founder"

abbrev pub or_else_text : Option String → Option String → Option String
or_else_text none otherwise = otherwise
or_else_text (some s) otherwise = some s

-- The columns that both the update and the insert write.
abbrev pub written :
    SessionServices → SessionBody → String → String → Member → SignerSession → SignerSession
written services body proposal_id psbt member s = record s {
  proposal_id = proposal_id;
  member_id = member.id;
  signer_role = signer_role member.role;
  label = or_else_text body.label member.label;
  fingerprint = member.fingerprint;
  psbt_partial_hex = psbt;
  signed = true;
  signed_at = services.now;
}

abbrev pub is_session_of : String → String → SignerSession → Bool
is_session_of proposal_id member_id s =
    str_eq s.proposal_id proposal_id && str_eq s.member_id member_id

abbrev pub session_count : String → List SignerSession → ℕ
session_count proposal_id rows = length (filter (λ s. str_eq s.proposal_id proposal_id) rows)

abbrev pub new_session :
    SessionServices → SessionBody → String → String → Member → List SignerSession → SignerSession
new_session services body proposal_id psbt member rows = record {
  id = services.new_id;
  proposal_id = proposal_id;
  member_id = member.id;
  signer_index = session_count proposal_id rows;
  signer_role = signer_role member.role;
  label = or_else_text body.label member.label;
  fingerprint = member.fingerprint;
  psbt_partial_hex = psbt;
  signed = true;
  signed_at = services.now;
}

abbrev pub update_session :
    (SignerSession → SignerSession) → String → List SignerSession → List SignerSession
update_session change id rows = map (λ s. if str_eq s.id id then change s else s) rows

-- The session that the member has on the proposal is replaced; else one is added.
abbrev pub upsert :
    SessionServices
    → SessionBody
    → String
    → String
    → Member
    → List SignerSession
    → Option SignerSession
    → List SignerSession
upsert services body proposal_id psbt member rows none =
    rows ++ (new_session services body proposal_id psbt member rows ∷ [])
upsert services body proposal_id psbt member rows (some existing) =
    update_session (written services body proposal_id psbt member) existing.id rows

pub record SessionInput : Type 0 where
  pub user : String
  pub proposal : Proposal
  pub psbt : String
  pub member : Member

-- The handler of a POST up to the write.
unfoldable pub check_session : SessionServices → Database → SessionBody → Outcome SessionInput
check_session services db body = do
  user ← require_user services.user
  proposal_id ← found (truthy body.proposal_id) 400 "Missing: proposal_id"
  psbt ← found (truthy body.psbt_partial_hex) 400 "Missing: psbt_partial_hex"
  proposal ← found (find_proposal proposal_id db.proposals) 404 "Proposal not found"
  member ← found (membership proposal.vault_id user db.members) 403 "Not a member of this vault"
  no_error services.write_error 500
  done (record { user = user; proposal = proposal; psbt = psbt; member = member })

abbrev pub store_session : SessionServices → SessionBody → SessionInput → Database → Database
store_session services body input db =
    log_event
      (record {
        vault_id = input.proposal.vault_id;
        user_id = input.user;
        event_type = "signed";
        metadata =
            ("proposal_id", some input.proposal.id)
            ∷ ("member_id", some input.member.id)
            ∷ ("fingerprint", input.member.fingerprint)
            ∷ [];
        block_height = none;
      })
      (record db {
        sessions =
            upsert services body input.proposal.id input.psbt input.member db.sessions
              (find (is_session_of input.proposal.id input.member.id) db.sessions);
      })

abbrev pub after_session :
    SessionServices
    → SessionBody
    → Outcome SessionInput
    → Database
    → Database × Outcome SessionInput
after_session services body (refused code message) db = (db, refused code message)
after_session services body (done input) db = (store_session services body input db, done input)

unfoldable pub record_session :
    SessionServices → SessionBody → Database → Database × Outcome SessionInput
record_session services body db = after_session services body (check_session services db body) db

-- GET: the sessions of a proposal, for an active member of its vault.
unfoldable pub list_sessions :
    Option String → Option String → Database → Outcome (List SignerSession)
list_sessions user proposal_id db = do
  user ← require_user user
  proposal_id ← found (truthy proposal_id) 400 "Missing: proposal_id"
  proposal ← found (find_proposal proposal_id db.proposals) 404 "Proposal not found"
  member ← found (membership proposal.vault_id user db.members) 403 "Not a member of this vault"
  done (filter (λ s. str_eq s.proposal_id proposal_id) db.sessions)
