-- ===== src/Server/Requests/Workflow.antt =====
-- netlify/functions/vault-requests.js: the workflow of a request, as a relation on its states.
use dynastytrust.Prelude.{
  String, Bool, true, Option, none, some, List, str_eq, eq_iff, ◌≡◌, inl, inr, refl, sym, subst,
  arith, Bool-cases,
}
use dynastytrust.Server.Http.{
  Outcome, refused, done, >>=-eq-done, >>-eq-done, done-injective, no_error, found, truthy,
  require_user,
}
use dynastytrust.Server.Governance.Handler.Checked.{found-done}
use dynastytrust.Server.Proposals.Ledger.Checks.{unless-true}
use dynastytrust.Server.Table.{find_row-id, find_row-update_rows, find_row-update_rows_other}
use dynastytrust.Server.Store.{Member, membership}
use dynastytrust.Server.Members.{IsMemberOf, membership-IsMemberOf}
use dynastytrust.Server.Requests.{
  RequestStatus, pending, approved, declined, fulfilled, cancelled, DistributionRequest,
  RequestTables, RequestServices, RequestUpdates, CheckedUpdate, patch_request, check_request_patch,
  after_update, apply_request, check_transition, check_actor, wanted_among, next_statuses,
  find_request, is_trustee_role, new_text,
}

-- The moves of a request, with who may make them: a trustee decides a pending request and pays an
-- approved one; the member who asked may withdraw a request that is pending or approved.
pub data Moves (is_requester is_trustee : Bool) : RequestStatus → RequestStatus → Type 0 where
  approve : is_trustee ≡ true → Moves is_requester is_trustee pending approved
  decline : is_trustee ≡ true → Moves is_requester is_trustee pending declined
  pay : is_trustee ≡ true → Moves is_requester is_trustee approved fulfilled
  withdraw : is_requester ≡ true → Moves is_requester is_trustee pending cancelled
  withdraw_approved : is_requester ≡ true → Moves is_requester is_trustee approved cancelled

check_move :
    (from to : RequestStatus) (is_requester is_trustee : Bool) (name : String)
    → wanted_among (next_statuses from) name ≡ some to
    → check_actor to is_requester is_trustee ≡ done tt
    → Moves is_requester is_trustee from to
check_move pending approved is_requester is_trustee name h k =
    approve (unless-true is_trustee 403 _ k)
check_move pending declined is_requester is_trustee name h k =
    decline (unless-true is_trustee 403 _ k)
check_move pending cancelled is_requester is_trustee name h k =
    withdraw (unless-true is_requester 403 _ k)
check_move pending pending is_requester is_trustee name h k = absurd (ground arith)
check_move pending fulfilled is_requester is_trustee name h k = absurd (ground arith)
check_move approved fulfilled is_requester is_trustee name h k =
    pay (unless-true is_trustee 403 _ k)
check_move approved cancelled is_requester is_trustee name h k =
    withdraw_approved (unless-true is_requester 403 _ k)
check_move approved pending is_requester is_trustee name h k = absurd (ground arith)
check_move approved approved is_requester is_trustee name h k = absurd (ground arith)
check_move approved declined is_requester is_trustee name h k = absurd (ground arith)
check_move declined to is_requester is_trustee name h k = cc
check_move fulfilled to is_requester is_trustee name h k = cc
check_move cancelled to is_requester is_trustee name h k = cc

-- A step of a request that a caller makes: none, new notes, or a move. New notes and moves are made by
-- a caller who is signed in and an active member of the request's vault, and a move is stamped with
-- that caller.
pub data RequestStep (members : List Member) (caller : Option String)
    : Option DistributionRequest → Option DistributionRequest → Type 0 where
  kept : {o : Option DistributionRequest} → RequestStep members caller o o
  noted :
      {r : DistributionRequest} (note link : Option String) (user : String) (me : Member)
      → caller ≡ some user
      → IsMemberOf r.vault_id user members me
      → RequestStep members caller
          (some r)
          (some (record r { resolution_note = note; linked_proposal_id = link }))
  moved :
      {r : DistributionRequest} (note link : Option String) (user now : String) (me : Member)
      (to : RequestStatus)
      → caller ≡ some user
      → IsMemberOf r.vault_id user members me
      → Moves (str_eq r.requested_by user) (is_trustee_role me.role) r.status to
      → RequestStep members caller (some r) (
          some (record r {
            status = to;
            resolution_note = note;
            linked_proposal_id = link;
            resolved_by = some user;
            resolved_at = some now;
          }))

-- What a checked update knows of its row.
pub data Allowed (members : List Member) (user : String) (r : DistributionRequest)
    : Option RequestStatus → Type 0 where
  no_move :
      (me : Member) → membership r.vault_id user members ≡ some me → Allowed members user r none
  move :
      {to : RequestStatus} (me : Member)
      → membership r.vault_id user members ≡ some me
      → Moves (str_eq r.requested_by user) (is_trustee_role me.role) r.status to
      → Allowed members user r (some to)

check_transition-Allowed :
    (members : List Member) (user : String) (r : DistributionRequest) (me : Member)
    (asked : Option String) (to : Option RequestStatus)
    → membership r.vault_id user members ≡ some me
    → check_transition asked r.status (str_eq r.requested_by user) (is_trustee_role me.role)
      ≡ done to
    → Allowed members user r to
check_transition-Allowed members user r me none to belongs h =
    subst (Allowed members user r) (done-injective h) (no_move me belongs)
check_transition-Allowed members user r me (some name) to belongs h =
    let (next, wanted, h1) =
      >>=-eq-done (found (wanted_among (next_statuses r.status) name) 409 _) _ h in
    let (actor, h2) =
      >>-eq-done (check_actor next (str_eq r.requested_by user) (is_trustee_role me.role)) _ h1 in
    subst (Allowed members user r) (done-injective h2) (
      move me belongs (
        check_move r.status next (str_eq r.requested_by user) (is_trustee_role me.role) name
          (found-done (wanted_among (next_statuses r.status) name) 409 _ wanted) actor))

apply_request-RequestStep :
    (members : List Member) (user now : String) (u : RequestUpdates) (r : DistributionRequest)
    (to : Option RequestStatus)
    → Allowed members user r to
    → RequestStep members (some user) (some r) (some (apply_request user now u to r))
apply_request-RequestStep members user now u r _ (no_move me belongs) =
    noted (new_text u.resolution_note r.resolution_note)
      (new_text u.linked_proposal_id r.linked_proposal_id) user me refl
      (membership-IsMemberOf r.vault_id user members me belongs)
apply_request-RequestStep members user now u r _ (move {to = to} me belongs moves) =
    moved (new_text u.resolution_note r.resolution_note)
      (new_text u.linked_proposal_id r.linked_proposal_id) user now me to refl
      (membership-IsMemberOf r.vault_id user members me belongs) moves

record CheckedRow (services : RequestServices) (tables : RequestTables) (c : CheckedUpdate)
    : Type 0 where
  pub signed_in : services.user ≡ some c.user
  pub there : find_request c.existing.id tables.requests ≡ some c.existing
  pub allowed : Allowed tables.members c.user c.existing c.to

check_request_patch-CheckedRow :
    (services : RequestServices) (tables : RequestTables) (id : Option String) (u : RequestUpdates)
    (c : CheckedUpdate)
    → check_request_patch services tables id u ≡ done c
    → CheckedRow services tables c
unfolding check_request_patch
check_request_patch-CheckedRow services tables id u c h =
    let (user, signed_in, h1) = >>=-eq-done (require_user services.user) _ h in
    let (key, named, h2) = >>=-eq-done (found (truthy id) 400 _) _ h1 in
    let (r, there, h3) = >>=-eq-done (found (find_request key tables.requests) 404 _) _ h2 in
    let (me, belongs, h4) =
      >>=-eq-done (found (membership r.vault_id user tables.members) 403 _) _ h3 in
    let (to, checked, h5) =
      >>=-eq-done
        (check_transition u.status r.status (str_eq r.requested_by user) (is_trustee_role me.role))
        _ h4 in
    let (written, h6) = >>-eq-done (no_error services.write_error 500) _ h5 in
    let row = found-done (find_request key tables.requests) 404 _ there in
    subst (CheckedRow services tables) (done-injective h6) (record {
      signed_in = found-done services.user 401 _ signed_in;
      there =
          subst (λ i. find_request i tables.requests ≡ some r)
            (sym (find_row-id (λ q. q.id) key tables.requests r row)) row;
      allowed =
          check_transition-Allowed tables.members user r me u.status to
            (found-done (membership r.vault_id user tables.members) 403 _ belongs) checked;
    })

apply_request-id :
    (user now : String) (u : RequestUpdates) (to : Option RequestStatus) (r : DistributionRequest)
    → (apply_request user now u to r).id ≡ r.id
apply_request-id user now u none r = refl
apply_request-id user now u (some to) r = refl

after_update-RequestStep :
    (services : RequestServices) (u : RequestUpdates) (tables : RequestTables)
    (o : Outcome CheckedUpdate)
    → ((c : CheckedUpdate) → o ≡ done c → CheckedRow services tables c)
    → (id : String)
    → RequestStep tables.members services.user
        (find_request id tables.requests)
        (find_request id (after_update services u o tables).0.requests)
after_update-RequestStep services u tables (refused code message) checked id = kept
after_update-RequestStep services u tables (done c) checked id =
    let change = apply_request c.user services.now u c.to in
    let same = apply_request-id c.user services.now u c.to in
    let row = checked c refl in
    elim (Bool-cases (str_eq id c.existing.id)) [
      | inl hit ↦
          rw
            (
              (eq_iff _ _).0 hit,
              row.there,
              find_row-update_rows (λ q. q.id) c.existing.id change tables.requests same c.existing
                  row.there,
            )
            (subst
              (λ caller.
                RequestStep tables.members caller (some c.existing)
                  (some (apply_request c.user services.now u c.to c.existing)))
              (sym row.signed_in)
              (apply_request-RequestStep tables.members c.user services.now u c.existing c.to
                row.allowed))
      | inr miss ↦
          rw
            (find_row-update_rows_other (λ q. q.id) c.existing.id id change tables.requests same
              (λ e. ground (arith, eq_iff id c.existing.id)))
            kept
    ]

-- A PATCH of a distribution request, accepted or refused, is at every id a step of the workflow by the
-- signed-in user who sends it: the request is left, or an active member of its vault changes only its
-- notes, or such a member moves it, and the request is stamped with that user. A move is from pending
-- to approved or declined, or from approved to fulfilled, by an active trustee of the vault, or to
-- cancelled from pending or approved by the member who made the request. Nothing moves a request that
-- is declined, fulfilled or cancelled.
pub patch_request-RequestStep :
    (services : RequestServices) (key : Option String) (u : RequestUpdates) (tables : RequestTables)
    (id : String)
    → RequestStep tables.members services.user
        (find_request id tables.requests)
        (find_request id (patch_request services key u tables).0.requests)
unfolding patch_request
patch_request-RequestStep services key u tables id =
    after_update-RequestStep services u tables (check_request_patch services tables key u)
      (check_request_patch-CheckedRow services tables key u) id
