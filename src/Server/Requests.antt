-- ===== src/Server/Requests.antt =====
-- netlify/functions/vault-requests.js: the requests of members for a distribution. The signed-in user,
-- the time, the id of a new row and the database's error on the write are parameters. The table of
-- members is read, the table of requests is the state.
pub mod Workflow
use dynastytrust.Prelude.{
  ℕ, String, ◌⧺◌, decimal, Bool, true, false, ◌&&◌, ◌||◌, not, Option, none, some, is_some, List,
  [], ◌∷◌, ◌++◌, map, filter, find, any, length, ltb, str_eq, if◌then◌else◌,
}
use dynastytrust.Server.Http.{
  Outcome, refused, done, ◌>>=◌, ◌>>◌, unless, no_error, found, truthy, require_user,
}
use dynastytrust.Server.Store.{Member, VaultEvent, membership}
use dynastytrust.Server.Proposals.Create.{newest_first}

pub data RequestStatus : Type 0 where
  pending approved declined fulfilled cancelled : RequestStatus

-- Amounts are whole here; the code takes any value that is not below 546.
pub record DistributionRequest : Type 0 where
  pub id : String
  pub vault_id : String
  pub requested_by : String
  pub rule_id : Option String
  pub rule_name : Option String
  pub amount_sats : ℕ
  pub recipient_name : Option String
  pub reason : Option String
  pub status : RequestStatus
  pub linked_proposal_id : Option String
  pub resolved_by : Option String
  pub resolved_at : Option String
  pub resolution_note : Option String

pub record RequestTables : Type 0 where
  pub members : List Member
  pub requests : List DistributionRequest
  pub events : List VaultEvent

pub record RequestServices : Type 0 where
  pub user : Option String
  pub now : String
  pub new_id : String
  pub write_error : Option String

abbrev pub status_name : RequestStatus → String
status_name pending = "pending"
status_name approved = "approved"
status_name declined = "declined"
status_name fulfilled = "fulfilled"
status_name cancelled = "cancelled"

-- `TRANSITIONS[from] ?? []`
abbrev pub next_statuses : RequestStatus → List RequestStatus
next_statuses pending = approved ∷ declined ∷ cancelled ∷ []
next_statuses approved = fulfilled ∷ cancelled ∷ []
next_statuses declined = []
next_statuses fulfilled = []
next_statuses cancelled = []

-- A status that the body names, among those it may move to; any other text is refused.
abbrev pub wanted_among : List RequestStatus → String → Option RequestStatus
wanted_among allowed name = find (λ s. str_eq (status_name s) name) allowed

abbrev pub find_request : String → List DistributionRequest → Option DistributionRequest
find_request id rows = find (λ r. str_eq r.id id) rows

-- The fields of a PATCH; each is absent, null or a text. A status that is null is refused as any text
-- that is no status.
pub record RequestUpdates : Type 0 where
  pub status : Option String
  pub resolution_note : Option (Option String)
  pub linked_proposal_id : Option (Option String)

abbrev pub valid_next : List RequestStatus → String
valid_next [] = ""
valid_next (s ∷ []) = status_name s
valid_next (s ∷ t ∷ rest) = status_name s ⧺ (", " ⧺ valid_next (t ∷ rest))

abbrev pub no_transition : RequestStatus → String → String
no_transition from name =
    "Cannot move a \""
    ⧺ (status_name from
        ⧺ ("\" request to \""
            ⧺ (name
                ⧺ ("\". "
                    ⧺ (if ltb 0 (length (next_statuses from))
                        then "Valid next states: " ⧺ (valid_next (next_statuses from) ⧺ ".")
                        else "This request is already "
                          ⧺ (status_name from ⧺ " and cannot be changed further."))))))

-- Who may ask for a status.
abbrev pub check_actor : RequestStatus → Bool → Bool → Outcome (Unit {0})
check_actor cancelled is_requester is_trustee =
    unless is_requester 403 "Only the requester can cancel"
check_actor approved is_requester is_trustee =
    unless is_trustee 403 "Only trustees can approve, decline, or mark fulfilled"
check_actor declined is_requester is_trustee =
    unless is_trustee 403 "Only trustees can approve, decline, or mark fulfilled"
check_actor fulfilled is_requester is_trustee =
    unless is_trustee 403 "Only trustees can approve, decline, or mark fulfilled"
check_actor pending is_requester is_trustee = done tt

-- The status that the request moves to, if one is asked for.
abbrev pub check_transition :
    Option String → RequestStatus → Bool → Bool → Outcome (Option RequestStatus)
check_transition none from is_requester is_trustee = done none
check_transition (some name) from is_requester is_trustee = do
  to ← found (wanted_among (next_statuses from) name) 409 (no_transition from name)
  check_actor to is_requester is_trustee
  done (some to)

abbrev pub is_trustee_role : String → Bool
is_trustee_role role = str_eq role "owner" || str_eq role "founder"

abbrev pub new_text : Option (Option String) → Option String → Option String
new_text none old = old
new_text (some new) old = new

-- A new status, which is never `pending`, stamps who resolved the request and when.
abbrev pub resolve :
    String → String → Option RequestStatus → DistributionRequest → DistributionRequest
resolve user now none r = r
resolve user now (some to) r = record r {
  status = to;
  resolved_by = some user;
  resolved_at = some now;
}

abbrev pub apply_request :
    String
    → String
    → RequestUpdates
    → Option RequestStatus
    → DistributionRequest
    → DistributionRequest
apply_request user now u to r = resolve user now to (record r {
  resolution_note = new_text u.resolution_note r.resolution_note;
  linked_proposal_id = new_text u.linked_proposal_id r.linked_proposal_id;
})

pub record CheckedUpdate : Type 0 where
  pub user : String
  pub existing : DistributionRequest
  pub to : Option RequestStatus

unfoldable pub check_request_patch :
    RequestServices → RequestTables → Option String → RequestUpdates → Outcome CheckedUpdate
check_request_patch services tables id u = do
  user ← require_user services.user
  id ← found (truthy id) 400 "Missing query param: id"
  existing ← found (find_request id tables.requests) 404 "Request not found"
  me ← found (membership existing.vault_id user tables.members) 403 "Not a member of this vault"
  to ←
      check_transition u.status existing.status (str_eq existing.requested_by user)
        (is_trustee_role me.role)
  no_error services.write_error 500
  done (record { user = user; existing = existing; to = to })

abbrev pub wanted_name : Option RequestStatus → String
wanted_name none = "updated"
wanted_name (some to) = status_name to

abbrev pub store_update :
    RequestServices → RequestUpdates → CheckedUpdate → RequestTables → RequestTables
store_update services u c tables = record tables {
  requests =
      map (λ r. if str_eq r.id c.existing.id then apply_request c.user services.now u c.to r else r)
        tables.requests;
  events =
      record {
        vault_id = c.existing.vault_id;
        user_id = c.user;
        event_type = "request_" ⧺ wanted_name c.to;
        metadata =
            ("request_id", some c.existing.id)
            ∷ ("resolution_note", new_text u.resolution_note none)
            ∷ [];
        block_height = none;
      }
      ∷ tables.events;
}

abbrev pub after_update :
    RequestServices
    → RequestUpdates
    → Outcome CheckedUpdate
    → RequestTables
    → RequestTables × Outcome CheckedUpdate
after_update services u (refused code message) tables = (tables, refused code message)
after_update services u (done c) tables = (store_update services u c tables, done c)

unfoldable pub patch_request :
    RequestServices
    → Option String
    → RequestUpdates
    → RequestTables
    → RequestTables × Outcome CheckedUpdate
patch_request services id u tables =
    after_update services u (check_request_patch services tables id u) tables

pub record RequestBody : Type 0 where
  pub vault_id : Option String
  pub rule_id : Option String
  pub rule_name : Option String
  pub amount_sats : ℕ
  pub recipient_name : Option String
  pub reason : Option String

unfoldable pub check_request :
    RequestServices → RequestTables → RequestBody → Outcome DistributionRequest
check_request services tables body = do
  user ← require_user services.user
  vault_id ← found (truthy body.vault_id) 400 "Missing: vault_id"
  unless (not (ltb body.amount_sats 546)) 400 "amount_sats must be >= 546"
  me ← found (membership vault_id user tables.members) 403 "Not a member of this vault"
  no_error services.write_error 500
  done (record {
    id = services.new_id;
    vault_id = vault_id;
    requested_by = user;
    rule_id = truthy body.rule_id;
    rule_name = truthy body.rule_name;
    amount_sats = body.amount_sats;
    recipient_name = truthy body.recipient_name;
    reason = truthy body.reason;
    status = pending;
    linked_proposal_id = none;
    resolved_by = none;
    resolved_at = none;
    resolution_note = none;
  })

abbrev pub insert_request :
    Outcome DistributionRequest → RequestTables → RequestTables × Outcome DistributionRequest
insert_request (refused code message) tables = (tables, refused code message)
insert_request (done r) tables = (
  record tables {
    requests = tables.requests ++ (r ∷ []);
    events =
        record {
          vault_id = r.vault_id;
          user_id = r.requested_by;
          event_type = "request_created";
          metadata =
              ("request_id", some r.id)
              ∷ ("amount_sats", some (decimal r.amount_sats))
              ∷ ("rule_name", r.rule_name)
              ∷ ("recipient_name", r.recipient_name)
              ∷ [];
          block_height = none;
        }
        ∷ tables.events;
  },
  done r,
)

unfoldable pub create_request :
    RequestServices → RequestBody → RequestTables → RequestTables × Outcome DistributionRequest
create_request services body tables = insert_request (check_request services tables body) tables

-- GET: the requests of a vault, the newest first, for an active member.
unfoldable pub list_requests :
    Option String → Option String → RequestTables → Outcome (List DistributionRequest)
list_requests user vault_id tables = do
  user ← require_user user
  vault_id ← found (truthy vault_id) 400 "Missing: vault_id"
  me ← found (membership vault_id user tables.members) 403 "Not a member of this vault"
  done (newest_first (filter (λ r. str_eq r.vault_id vault_id) tables.requests))
