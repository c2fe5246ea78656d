-- ===== src/Server/Merge/Measure.antt =====
-- netlify/functions/psbt-merge.js: the quorum that a merge is measured by, from the columns of the vault.
use dynastytrust.Prelude.{
  ℕ, String, true, false, some, List, ◌≡◌, ◌≢◌, refl, Option-cases, sym, ◌∙◌, inl, inr,
}
use dynastytrust.Paths.Exact.{Configured, find_spending_path_iff}
use dynastytrust.Server.Shape.Twin.{find_spending_path_lem}
use dynastytrust.Paths.{Leaf, VaultShape, or_else, SpendingPathSummary}
use dynastytrust.Paths.Leaves.{FirstLeaf, summary_of, find_spending_path_leaves}
use dynastytrust.Server.Shape.{find_spending_path, is_leaf_list_vault}
use dynastytrust.Server.Merge.{selected, quorum_of_path}

-- The quorum of a path in the columns that the handler selects: the configured path's, or the first
-- leaf's with that id; the founders' where the columns configure no such path.
pub data MergeQuorum (vault : VaultShape) (path : String) : ℕ → Type 0 where
  of_path :
      {p : SpendingPathSummary}
      → is_leaf_list_vault vault ≡ false
      → Configured (selected vault) p
      → p.id ≡ path
      → MergeQuorum vault path p.quorum
  of_leaf :
      (ls : List Leaf) (leaf : Leaf)
      → vault.leaves ≡ some ls
      → is_leaf_list_vault vault ≡ true
      → FirstLeaf path ls leaf
      → MergeQuorum vault path leaf.quorum
  of_founders :
      is_leaf_list_vault vault ≡ false
      → ((p : SpendingPathSummary) → Configured (selected vault) p → p.id ≢ path)
      → MergeQuorum vault path (or_else vault.founder_quorum 0)

pub quorum_of_path-MergeQuorum :
    (vault : VaultShape) (path : String) (quorum : ℕ)
    → MergeQuorum vault path quorum
    → quorum_of_path vault (some path) ≡ quorum
unfolding is_leaf_list_vault
quorum_of_path-MergeQuorum vault path _ (of_path {p = p} named configured same) =
    let (shaped, listed, agrees) = find_spending_path_lem (selected vault) path in
    let there =
      agrees
      ∙ (find_spending_path_iff (selected vault) path p (sym shaped ∙ named)).1
          (configured, same) in
    rw there refl
quorum_of_path-MergeQuorum vault path _ (of_leaf ls leaf listed_leaves leafy first) =
    let (shaped, listed, agrees) = find_spending_path_lem (selected vault) path in
    let (summary, summarizes) = summary_of leaf in
    let there =
      agrees
      ∙ (find_spending_path_leaves (selected vault) path summary ls listed_leaves
            (sym shaped ∙ leafy)).1
          (leaf, first, summarizes) in
    rw there summarizes.quorum
quorum_of_path-MergeQuorum vault path _ (of_founders named unconfigured) =
    let (shaped, listed, agrees) = find_spending_path_lem (selected vault) path in
    elim (Option-cases (find_spending_path (selected vault) path)) [
      | inl e ↦ rw e refl
      | inr (p, e) ↦
          let (configured, same) =
            (find_spending_path_iff (selected vault) path p (sym shaped ∙ named)).0
              (sym agrees ∙ e) in
          absurd (unconfigured p configured same)
    ]
