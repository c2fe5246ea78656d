-- ===== src/Tests/Requests.antt =====
-- netlify/functions/vault-requests.js on a concrete table.
use dynastytrust.Prelude.{none, some, [], ◌∷◌, ◌≡◌, refl}
use dynastytrust.Server.Store.{Member, MemberStatus}
use dynastytrust.Server.Requests.{
  RequestTables, RequestServices, RequestUpdates, DistributionRequest, RequestStatus, find_request,
  patch_request, check_request_patch,
}
use dynastytrust.Server.Requests.Workflow.{RequestStep, patch_request-RequestStep}

abbrev asked : DistributionRequest
asked = record {
  id = "r1";
  vault_id = "v1";
  requested_by = "u2";
  rule_id = none;
  rule_name = some "School";
  amount_sats = 5000;
  recipient_name = none;
  reason = none;
  status = RequestStatus.pending;
  linked_proposal_id = none;
  resolved_by = none;
  resolved_at = none;
  resolution_note = none;
}

abbrev trustee : Member
trustee = record {
  id = "m1";
  vault_id = "v1";
  user_id = "u1";
  role = "founder";
  label = none;
  fingerprint = none;
  status = MemberStatus.active;
}

abbrev tables : RequestTables
tables = record { members = trustee ∷ []; requests = asked ∷ []; events = [] }

abbrev services : RequestServices
services = record { user = some "u1"; now = "t"; new_id = "r2"; write_error = none }

abbrev approval : RequestUpdates
approval = record { status = some "approved"; resolution_note = none; linked_proposal_id = none }

is_approved :
    find_request "r1" (patch_request services (some "r1") approval tables).0.requests
    ≡ some (record asked {
      status = RequestStatus.approved;
      resolved_by = some "u1";
      resolved_at = some "t";
    })
unfolding patch_request check_request_patch
is_approved = refl

patch_request-RequestStep_example :
    RequestStep
      (trustee ∷ [])
      (some "u1")
      (some asked)
      (find_request "r1" (patch_request services (some "r1") approval tables).0.requests)
patch_request-RequestStep_example =
    patch_request-RequestStep services (some "r1") approval tables "r1"
