-- ===== src/Tests/Vault.antt =====
-- The rows and the block policy of a vault: apps/web/src/lib/blocks.ts and vault-spending-paths.ts on
-- concrete data.
use dynastytrust.Prelude.{none, some, List, [], ◌∷◌, ◌≡◌, ◌↔◌, refl}
use dynastytrust.Blocks.{DecayPolicy, Rung, parts, ladder_loop, bloc_decay_ladder}
use dynastytrust.Paths.{
  older, Leaf, UnlockType, SpendingPathSummary, VaultShape, path_of, is_leaf_list_vault,
  find_spending_path,
}
use dynastytrust.Paths.Exact.{Configured, find_spending_path_iff}
use dynastytrust.Paths.Leaves.{FirstLeaf, Summarizes, find_spending_path_leaves}

-- From two and a half down to one and a half, in halves.
abbrev kids : DecayPolicy
kids = record {
  scale = 1;
  kids_decay_start_quorum = parts 5;
  kids_decay_floor_quorum = parts 3;
  kids_decay_start_after = 1000;
  kids_decay_step_blocks = 144;
}

abbrev ladder : List Rung
ladder = record { q = parts 5; abs_after = 1000 } ∷ record { q = parts 3; abs_after = 1144 } ∷ []

is_ladder : bloc_decay_ladder 2 kids ≡ some ladder
unfolding bloc_decay_ladder ladder_loop
is_ladder = refl

abbrev row : VaultShape
row = record {
  leaves = none;
  founder_keys = some ("k1" ∷ "k2" ∷ []);
  founder_quorum = some 2;
  heir_keys = some ("k3" ∷ []);
  heir_quorum = some 1;
  recovery_after = some 0;
  recovery_quorum = none;
  inheritance_after = some 52560;
  backup_keys = none;
  backup_quorum = none;
  second_heir_keys = none;
  second_heir_quorum = none;
  second_inheritance_after = none;
}

abbrev heirs_path : SpendingPathSummary
heirs_path = path_of "inheritance" "Inheritance" 1 ("k3" ∷ []) UnlockType.after 52560

find_spending_path_iff_example :
    (find_spending_path row "inheritance" ≡ some heirs_path)
    ↔ (Configured row heirs_path × (heirs_path.id ≡ "inheritance"))
unfolding is_leaf_list_vault
find_spending_path_iff_example = find_spending_path_iff row "inheritance" heirs_path refl

abbrev kids_leaf : Leaf
kids_leaf = record { id = "kids"; label = ""; keys = "k4" ∷ []; quorum = 1; unlock = older 144 }

abbrev kids_path : SpendingPathSummary
kids_path = path_of "kids" "kids" 1 ("k4" ∷ []) UnlockType.older 144

abbrev leaf_row : VaultShape
leaf_row = record row { leaves = some (kids_leaf ∷ []) }

find_spending_path_leaves_example :
    (find_spending_path leaf_row "kids" ≡ some kids_path)
    ↔ ((leaf : Leaf) × FirstLeaf "kids" (kids_leaf ∷ []) leaf × Summarizes leaf kids_path)
unfolding is_leaf_list_vault
find_spending_path_leaves_example =
    find_spending_path_leaves leaf_row "kids" kids_path (kids_leaf ∷ []) refl refl
