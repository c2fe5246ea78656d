-- ===== src/Server/Merge.antt =====
-- netlify/functions/psbt-merge.js: the merge of co-signers' PSBTs by the compiler service, and what it
-- writes to the proposal. The signed-in user and the compiler's answer are parameters.
pub mod Measure
pub mod Quorum
use dynastytrust.Prelude.{
  ℕ, String, ◌⧺◌, decimal, Bool, true, false, ◌&&◌, not, Option, none, some, List, [], ◌∷◌, length,
  map, find, ltb, leb, str_eq, if◌then◌else◌,
}
use dynastytrust.Paths.{VaultShape, SpendingPathSummary, or_else}
use dynastytrust.Server.Http.{
  Outcome, refused, done, ◌>>=◌, ◌>>◌, unless, found, truthy, require_user,
}
use dynastytrust.Server.Shape.{find_spending_path}
use dynastytrust.Server.Store.{Database, Vault, Proposal, ProposalStatus, find_vault, membership}
use dynastytrust.Server.Proposals.{log_event}
use dynastytrust.Server.Proposals.Patch.{user_text}

pub record Merged : Type 0 where
  pub psbt_hex : String
  pub psbt_b64 : String
  pub input_count : ℕ
  pub signature_count : ℕ

-- The compiler's answer: no answer, an error with a status, or the merged PSBT.
pub data MergeReply : Type 0 where
  unreachable : String → MergeReply
  declined : ℕ → Option String → MergeReply
  merged : Merged → MergeReply

pub record MergeServices : Type 0 where
  pub user : Option String
  pub compiler : Option (List String → MergeReply)

pub record MergeBody : Type 0 where
  pub vault_id : Option String
  pub proposal_id : Option String
  pub psbts : Option (List String)

-- The columns that the handler selects of a vault: the founders' and the heirs' keys are not among
-- them.
abbrev pub selected : VaultShape → VaultShape
selected v = record v { founder_keys = none; heir_keys = none }

abbrev pub quorum_of : Option SpendingPathSummary → ℕ → ℕ
quorum_of none founder_quorum = founder_quorum
quorum_of (some p) founder_quorum = p.quorum

-- An empty path is as good as none.
abbrev pub path_of_row : Option Proposal → Option String
path_of_row none = none
path_of_row (some p) = truthy (some p.path)

-- The path of the proposal, if one of that vault is named.
abbrev pub path_of_proposal : Option String → String → List Proposal → Option String
path_of_proposal none vault_id rows = none
path_of_proposal (some id) vault_id rows =
    path_of_row (find (λ p. str_eq p.id id && str_eq p.vault_id vault_id) rows)

abbrev pub quorum_of_path : VaultShape → Option String → ℕ
quorum_of_path vault none = or_else vault.founder_quorum 0
quorum_of_path vault (some path) =
    quorum_of (find_spending_path (selected vault) path) (or_else vault.founder_quorum 0)

-- `requiredQuorum`
unfoldable pub merge_quorum : Vault → Option String → List Proposal → ℕ
merge_quorum vault proposal_id rows =
    quorum_of_path vault.shape (path_of_proposal proposal_id vault.id rows)

abbrev pub declined_text : Option String → String
declined_text none = "Merge failed"
declined_text (some message) = if str_eq message "" then "Merge failed" else message

abbrev pub reply_of : MergeReply → Outcome Merged
reply_of (unreachable message) = refused 502 ("Compiler unreachable: " ⧺ message)
reply_of (declined code message) = refused code (declined_text message)
reply_of (merged m) = done m

pub record MergeInput : Type 0 where
  pub user : String
  pub vault : Vault
  pub merged : Merged

-- The handler up to the write.
unfoldable pub check_merge : MergeServices → Database → MergeBody → Outcome MergeInput
check_merge services db body = do
  user ← require_user services.user
  vault_id ← found (truthy body.vault_id) 400 "Missing: vault_id"
  unless (leb 2 (length (or_else body.psbts []))) 400 "Provide at least 2 PSBTs in the psbts array"
  vault ← found (find_vault vault_id db.vaults) 404 "Vault not found"
  member ← found (membership vault_id user db.members) 403 "Not a member of this vault"
  compiler ←
      found services.compiler 503
        "COMPILER_URL not configured. Deploy the Fly.io compiler to enable PSBT merging."
  answer ← reply_of (compiler (or_else body.psbts []))
  done (record { user = user; vault = vault; merged = answer })

abbrev pub merged_status : ℕ → ℕ → ProposalStatus
merged_status required count =
    if leb required count then ProposalStatus.signed else ProposalStatus.pending

abbrev pub set_merged : ℕ → Merged → Proposal → Proposal
set_merged required m p = record p {
  psbt_signed_hex = some m.psbt_hex;
  status = merged_status required m.signature_count;
}

abbrev pub bool_text : Bool → String
bool_text true = "true"
bool_text false = "false"

-- The write to the proposal and its event, where a proposal is named.
abbrev pub store_merged : Option String → ℕ → MergeInput → Database → Database
store_merged none required input db = db
store_merged (some id) required input db =
    log_event
      (record {
        vault_id = input.vault.id;
        user_id = input.user;
        event_type = "psbt_merged";
        metadata =
            ("proposal_id", some id)
            ∷ ("signature_count", some (decimal input.merged.signature_count))
            ∷ ("fully_signed", some (bool_text (leb required input.merged.signature_count)))
            ∷ [];
        block_height = none;
      })
      (record db {
        proposals =
            map
              (λ p.
                if str_eq p.id id && str_eq p.vault_id input.vault.id
                then set_merged required input.merged p
                else p)
              db.proposals;
      })

pub record MergeAnswer : Type 0 where
  pub merged : Merged
  pub fully_signed : Bool

abbrev pub after_merge : MergeBody → Outcome MergeInput → Database → Database × Outcome MergeAnswer
after_merge body (refused code message) db = (db, refused code message)
after_merge body (done input) db =
    let required = merge_quorum input.vault (truthy body.proposal_id) db.proposals in
    (
      store_merged (truthy body.proposal_id) required input db,
      done (record {
        merged = input.merged;
        fully_signed = leb required input.merged.signature_count;
      }),
    )

unfoldable pub psbt_merge : MergeServices → MergeBody → Database → Database × Outcome MergeAnswer
psbt_merge services body db = after_merge body (check_merge services db body) db
