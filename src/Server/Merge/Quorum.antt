-- ===== src/Server/Merge/Quorum.antt =====
-- netlify/functions/psbt-merge.js: which quorum a merge is measured by, and what it makes of the
-- proposal.
use dynastytrust.Prelude.{
  ℕ, String, true, false, ◌&&◌, none, some, List, [], ◌∷◌, map, leb, str_eq, eq_iff, if◌then◌else◌,
  ◌≡◌, ◌≢◌, refl, arith, Bool-cases, Option-cases, length, sym, subst, ap, ◌∙◌, find, inl, inr,
}
use dynastytrust.Paths.Exact.{
  Configured, find_spending_path_iff, founders, recovery, inheritance, backup, second_inheritance,
}
use dynastytrust.Server.Shape.Twin.{find_spending_path_lem}
use dynastytrust.Server.Governance.Handler.Checked.{found-done, truthy-some}
use dynastytrust.Paths.{VaultShape, or_else, SpendingPathSummary}
use dynastytrust.Server.Http.{
  Outcome, refused, done, >>=-eq-done, >>-eq-done, done-injective, unless, found, require_user,
  truthy,
}
use dynastytrust.Server.Shape.{find_spending_path, is_leaf_list_vault}
use dynastytrust.Server.Table.{find_row-id}
use dynastytrust.Server.Store.{
  Database, Vault, Proposal, ProposalStatus, find_proposal, find_vault, membership,
}
use dynastytrust.Server.Merge.{
  MergeServices, MergeBody, MergeAnswer, MergeInput, Merged, psbt_merge, check_merge, after_merge,
  merge_quorum, path_of_proposal, path_of_row, set_merged, selected, quorum_of_path, reply_of,
}
use dynastytrust.Server.Merge.Measure.{MergeQuorum, quorum_of_path-MergeQuorum}

-- Without heirs' keys, none of the paths of the columns is the inheritance.
pub Configured-inheritance :
    (vault : VaultShape) {p : SpendingPathSummary}
    → Configured (selected vault) p
    → p.id ≢ "inheritance"
Configured-inheritance vault founders e = cc
Configured-inheritance vault (recovery blocks a b) e = cc
Configured-inheritance vault (inheritance blocks keys a b keyed c) e = cc
Configured-inheritance vault (backup quorum keys a b c) e = cc
Configured-inheritance vault (second_inheritance quorum blocks keys a b c d) e = cc

find_spending_path-inheritance :
    (vault : VaultShape)
    → is_leaf_list_vault vault ≡ false
    → find_spending_path (selected vault) "inheritance" ≡ none
unfolding is_leaf_list_vault
find_spending_path-inheritance vault h =
    let (shaped, listed, agrees) = find_spending_path_lem (selected vault) "inheritance" in
    elim (Option-cases (find_spending_path (selected vault) "inheritance")) [
      | inl e ↦ e
      | inr (p, e) ↦
          let (configured, is_named) =
            (find_spending_path_iff (selected vault) "inheritance" p (sym shaped ∙ h)).0
              (sym agrees ∙ e) in
          absurd (Configured-inheritance vault configured is_named)
    ]

-- A merge for an inheritance proposal of a vault without a leaf list is measured by the founders'
-- quorum, whatever the heirs' quorum is: the inheritance path is never found among the columns that
-- the handler selects.
pub quorum_of_path-inheritance :
    (vault : VaultShape)
    → is_leaf_list_vault vault ≡ false
    → quorum_of_path vault (some "inheritance") ≡ or_else vault.founder_quorum 0
quorum_of_path-inheritance vault h = rw (find_spending_path-inheritance vault h) refl

find-vault_id :
    (id vault_id : String) (rows : List Proposal) (p : Proposal)
    → find_proposal id rows ≡ some p
    → p.vault_id ≡ vault_id
    → find (λ q. str_eq q.id id && str_eq q.vault_id vault_id) rows ≡ some p
find-vault_id id vault_id [] p e same = cc
find-vault_id id vault_id (row ∷ rows) p e same = elim (Bool-cases (str_eq row.id id)) [
  | inl hit ↦
      (let here : row ≡ p = ground arith in
        let ours : str_eq row.vault_id vault_id ≡ true = rw here ((eq_iff _ _).1 same) in
        ground arith)
  | inr miss ↦ (let rest = find-vault_id id vault_id rows p (ground arith) same in ground arith)
]

truthy_lem : (s : String) → s ≢ "" → truthy (some s) ≡ some s
truthy_lem s some_text = ground (arith, eq_iff s "")

path_of_proposal_lem :
    (id vault_id : String) (rows : List Proposal) (p : Proposal)
    → find_proposal id rows ≡ some p
    → p.vault_id ≡ vault_id
    → p.path ≢ ""
    → path_of_proposal (some id) vault_id rows ≡ some p.path
path_of_proposal_lem id vault_id rows p e same named =
    ap path_of_row (find-vault_id id vault_id rows p e same) ∙ truthy_lem p.path named

find-set_merged :
    (id vault_id : String) (required : ℕ) (m : Merged) (rows : List Proposal) (p : Proposal)
    → find_proposal id rows ≡ some p
    → p.vault_id ≡ vault_id
    → find_proposal id (
        map
          (λ q. if str_eq q.id id && str_eq q.vault_id vault_id then set_merged required m q else q)
          rows)
      ≡ some (set_merged required m p)
find-set_merged id vault_id required m [] p e same = cc
find-set_merged id vault_id required m (row ∷ rows) p e same =
    elim (Bool-cases (str_eq row.id id)) [
      | inl hit ↦
          (let here : row ≡ p = ground arith in
            let ours : str_eq row.vault_id vault_id ≡ true = rw here ((eq_iff _ _).1 same) in
            ground arith)
      | inr miss ↦
          (let rest = find-set_merged id vault_id required m rows p (ground arith) same in
            ground arith)
    ]

after_merge-stores :
    (body : MergeBody) (db : Database) (id : String) (answer : MergeAnswer) (p : Proposal)
    (quorum : ℕ) (o : Outcome MergeInput)
    → ((input : MergeInput)
        → o ≡ done input
        → (input.vault.id ≡ p.vault_id)
          × (merge_quorum input.vault (some id) db.proposals ≡ quorum))
    → (after_merge body o db).1 ≡ done answer
    → truthy body.proposal_id ≡ some id
    → find_proposal id db.proposals ≡ some p
    → (q : Proposal) × (find_proposal id (after_merge body o db).0.proposals ≡ some q)
      × (q.status ≡ (
          if leb quorum answer.merged.signature_count
          then ProposalStatus.signed
          else ProposalStatus.pending))
      × (q.psbt_signed_hex ≡ some answer.merged.psbt_hex)
      × (q.txid ≡ p.txid)
      × (answer.fully_signed ≡ leb quorum answer.merged.signature_count)
after_merge-stores body db id answer p quorum (refused code message) ours h asked there = cc
after_merge-stores body db id answer p quorum (done input) ours h asked there =
    let required = merge_quorum input.vault (truthy body.proposal_id) db.proposals in
    let (own, measured) = ours input refl in
    let is_quorum : required ≡ quorum = rw asked measured in
    let given = done-injective h in
    (
      set_merged required input.merged p,
      rw asked (find-set_merged id input.vault.id _ input.merged db.proposals p there (sym own)),
      subst
          (λ n.
            (if leb required input.merged.signature_count
              then ProposalStatus.signed
              else ProposalStatus.pending)
            ≡ (if leb n answer.merged.signature_count
                then ProposalStatus.signed
                else ProposalStatus.pending))
          is_quorum
          (ap
            (λ a.
              if leb required a.merged.signature_count
              then ProposalStatus.signed
              else ProposalStatus.pending)
            given),
      ap (λ a. some a.merged.psbt_hex) given,
      refl,
      subst (λ n. answer.fully_signed ≡ leb n answer.merged.signature_count) is_quorum
          (sym (ap (λ a. a.fully_signed) given)
            ∙ ap (λ a. leb required a.merged.signature_count) given),
    )

check_merge-vault :
    (services : MergeServices) (db : Database) (body : MergeBody) (vault_id : String)
    {input : MergeInput}
    → body.vault_id ≡ some vault_id
    → check_merge services db body ≡ done input
    → find_vault vault_id db.vaults ≡ some input.vault
unfolding check_merge
check_merge-vault services db body vault_id {input = input} same h =
    let (user, signed_in, h1) = >>=-eq-done (require_user services.user) _ h in
    let (key, named, h2) = >>=-eq-done (found (truthy body.vault_id) 400 _) _ h1 in
    let (several, h3) = >>-eq-done (unless (leb 2 (length (or_else body.psbts []))) 400 _) _ h2 in
    let (vault, there, h4) = >>=-eq-done (found (find_vault key db.vaults) 404 _) _ h3 in
    let (member, belongs, h5) = >>=-eq-done (found (membership key user db.members) 403 _) _ h4 in
    let (compiler, set_up, h6) = >>=-eq-done (found services.compiler 503 _) _ h5 in
    let (reply, replied, h7) = >>=-eq-done (reply_of (compiler (or_else body.psbts []))) _ h6 in
    let given = truthy-some body.vault_id (found-done (truthy body.vault_id) 400 _ named) in
    let key_same : key ≡ vault_id = ground arith in
    let row = found-done (find_vault key db.vaults) 404 _ there in
    subst (λ k. find_vault k db.vaults ≡ some input.vault) key_same
      (row ∙ ap (λ i. some i.vault) (done-injective h7))

merge_quorum_lem :
    (db : Database) (id : String) (p : Proposal) (vault checked : Vault) (quorum : ℕ)
    → find_proposal id db.proposals ≡ some p
    → find_vault p.vault_id db.vaults ≡ some vault
    → p.path ≢ ""
    → MergeQuorum vault.shape p.path quorum
    → find_vault p.vault_id db.vaults ≡ some checked
    → (checked.id ≡ p.vault_id) × (merge_quorum checked (some id) db.proposals ≡ quorum)
unfolding merge_quorum
merge_quorum_lem db id p vault checked quorum there loaded named measured again =
    let same : vault ≡ checked = ground arith in
    let is_id = find_row-id (λ v. v.id) p.vault_id db.vaults checked again in
    let path = path_of_proposal_lem id checked.id db.proposals p there (sym is_id) named in
    (is_id, rw (path, ← same) (quorum_of_path-MergeQuorum vault.shape p.path quorum measured))

-- A merge that the compiler accepts, for a proposal of the vault with a path, leaves the proposal
-- signed where the merged PSBT has as many signatures as the quorum of that path in the selected
-- columns, and else pending, and the answer tells which. It does so whatever the status was: also
-- that of a proposal that was broadcast, cancelled or fulfilled. The transaction id stays on record.
pub psbt_merge-is_terminal :
    (services : MergeServices) (body : MergeBody) (db : Database) (id : String)
    (answer : MergeAnswer) (p : Proposal) (vault : Vault) (quorum : ℕ)
    → (psbt_merge services body db).1 ≡ done answer
    → truthy body.proposal_id ≡ some id
    → find_proposal id db.proposals ≡ some p
    → body.vault_id ≡ some p.vault_id
    → find_vault p.vault_id db.vaults ≡ some vault
    → p.path ≢ ""
    → MergeQuorum vault.shape p.path quorum
    → (q : Proposal) × (find_proposal id (psbt_merge services body db).0.proposals ≡ some q)
      × (q.status ≡ (
          if leb quorum answer.merged.signature_count
          then ProposalStatus.signed
          else ProposalStatus.pending))
      × (q.psbt_signed_hex ≡ some answer.merged.psbt_hex)
      × (q.txid ≡ p.txid)
      × (answer.fully_signed ≡ leb quorum answer.merged.signature_count)
unfolding psbt_merge
psbt_merge-is_terminal services body db id answer p vault quorum h asked there same loaded named
      measured =
    after_merge-stores body db id answer p quorum (check_merge services db body)
      (λ input e.
        merge_quorum_lem db id p vault input.vault quorum there loaded named measured
          (check_merge-vault services db body p.vault_id same e))
      h asked there
