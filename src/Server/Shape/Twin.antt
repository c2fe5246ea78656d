-- ===== src/Server/Shape/Twin.antt =====
-- netlify/functions/_vault-shape.js beside apps/web/src/lib/vault-spending-paths.ts.
use dynastytrust.Prelude.{String, none, some, List, [], ◌∷◌, map, ltb, length, ◌≡◌, refl}
use dynastytrust.Paths
use dynastytrust.Paths.{
  VaultShape, Leaf, Unlock, UnlockType, SpendingPathSummary, immediate, after, older, type_of,
  blocks_of,
}
use dynastytrust.Server.Shape.{
  is_leaf_array, unlock_type_of, unlock_blocks_of, leaf_summary, is_leaf_list_vault,
  get_spending_paths, find_spending_path, column_paths,
}

column_paths-named_paths : (v : VaultShape) → column_paths v ≡ Paths.named_paths v
unfolding column_paths Paths.named_paths Paths.founders_path Paths.recovery_paths
    Paths.inheritance_paths Paths.backup_paths Paths.second_inheritance_paths
column_paths-named_paths v = refl

unlock_type_of_lem : (u : Unlock) → unlock_type_of u ≡ type_of u
unlock_type_of_lem immediate = refl
unlock_type_of_lem (after n) = refl
unlock_type_of_lem (older n) = refl

unlock_blocks_of_lem : (u : Unlock) → unlock_blocks_of u ≡ blocks_of u
unlock_blocks_of_lem immediate = refl
unlock_blocks_of_lem (after n) = refl
unlock_blocks_of_lem (older n) = refl

leaf_summary-leaf_path : (leaf : Leaf) → leaf_summary leaf ≡ Paths.leaf_path leaf
unfolding Paths.leaf_path
leaf_summary-leaf_path leaf = rw (unlock_type_of_lem leaf.unlock, unlock_blocks_of_lem leaf.unlock)

map-leaf_path : (leaves : List Leaf) → map leaf_summary leaves ≡ map Paths.leaf_path leaves
map-leaf_path [] = refl
map-leaf_path (leaf ∷ leaves) = rw (leaf_summary-leaf_path leaf, map-leaf_path leaves)

is_leaf_list_vault_lem : (v : VaultShape) → is_leaf_list_vault v ≡ Paths.is_leaf_list_vault v
unfolding is_leaf_list_vault Paths.is_leaf_list_vault
is_leaf_list_vault_lem v =
    elim v.leaves as (λ o. is_leaf_array o ≡ ltb 0 (length (Paths.or_else o []))) [
      | none ↦ refl
      | some leaves ↦ refl
    ]

get_spending_paths_lem : (v : VaultShape) → get_spending_paths v ≡ Paths.get_spending_paths v
unfolding get_spending_paths Paths.get_spending_paths
get_spending_paths_lem v = rw (
  is_leaf_list_vault_lem v,
  map-leaf_path (Paths.or_else v.leaves []),
  column_paths-named_paths v,
)

-- The server's reading of a vault row and the web client's agree on every row and every path id:
-- the same rows count as leaf-list vaults, they list the same spending paths with the same keys,
-- quorums and locks in the same order, and a path id finds the same path.
pub find_spending_path_lem :
    (v : VaultShape) (path_id : String)
    → (is_leaf_list_vault v ≡ Paths.is_leaf_list_vault v)
      × (get_spending_paths v ≡ Paths.get_spending_paths v)
      × (find_spending_path v path_id ≡ Paths.find_spending_path v path_id)
unfolding find_spending_path Paths.find_spending_path
find_spending_path_lem v path_id =
    let same = get_spending_paths_lem v in (is_leaf_list_vault_lem v, same, rw same)
