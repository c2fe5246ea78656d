-- ===== src/Server/Sessions/Attribution.antt =====
-- netlify/functions/signer-sessions.js: whose a recorded signature is.
use dynastytrust.Prelude.{String, some, Any, ◌≡◌, ◌⊎◌}
use dynastytrust.Server.Store.{Database, Member, Proposal, SignerSession, find_proposal, membership}
use dynastytrust.Server.Members.{IsMemberOf}
use dynastytrust.Server.Sessions.{SessionServices, SessionInput, signer_role}

-- The session is a member's: by id, with the fingerprint and the role of that member's own row.
abbrev pub IsOf : SignerSession → Member → Type 0
IsOf s m =
    (s.member_id ≡ m.id) × (s.fingerprint ≡ m.fingerprint) × (s.signer_role ≡ signer_role m.role)

-- The session is the signed-in user's own, who is an active member of the proposal's vault.
pub record SignedBy (services : SessionServices) (db : Database) (s : SignerSession) : Type 0 where
  pub user : String
  pub proposal : Proposal
  pub member : Member
  pub signed_in : services.user ≡ some user
  pub known : find_proposal s.proposal_id db.proposals ≡ some proposal
  pub own_row : IsMemberOf proposal.vault_id user db.members member
  pub is_own : IsOf s member

record CheckedSession (services : SessionServices) (db : Database) (input : SessionInput)
    : Type 0 where
  pub signed_in : services.user ≡ some input.user
  pub known : find_proposal input.proposal.id db.proposals ≡ some input.proposal
  pub belongs : membership input.proposal.vault_id input.user db.members ≡ some input.member

-- The row stood before the request, or is the caller's own.
abbrev pub Attributed : SessionServices → Database → SignerSession → Type 0
Attributed services db s = Any (λ r. r ≡ s) db.sessions ⊎ SignedBy services db s
