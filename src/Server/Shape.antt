-- ===== src/Server/Shape.antt =====
-- netlify/functions/_vault-shape.js: the server's own reading of a vault row, the twin of
-- apps/web/src/lib/vault-spending-paths.ts, on whose types it works.
pub mod Twin
use dynastytrust.Prelude.{
  ℕ, Bool, false, Option, none, some, is_some, List, [], ◌∷◌, ◌++◌, ◌&&◌, String, map, length, find,
  ltb, if◌then◌else◌, str_eq,
}
use dynastytrust.Paths.{
  VaultShape, Leaf, SpendingPathSummary, UnlockType, Unlock, immediate, after, older, or_else,
}

-- `Array.isArray(leaves) && leaves.length > 0`
abbrev pub is_leaf_array : Option (List Leaf) → Bool
is_leaf_array none = false
is_leaf_array (some leaves) = ltb 0 (length leaves)

unfoldable pub is_leaf_list_vault : VaultShape → Bool
is_leaf_list_vault vault = is_leaf_array vault.leaves

abbrev pub unlock_type_of : Unlock → UnlockType
unlock_type_of immediate = UnlockType.immediate
unlock_type_of (after blocks) = UnlockType.after
unlock_type_of (older blocks) = UnlockType.older

abbrev pub unlock_blocks_of : Unlock → ℕ
unlock_blocks_of immediate = 0
unlock_blocks_of (after blocks) = blocks
unlock_blocks_of (older blocks) = blocks

abbrev pub leaf_summary : Leaf → SpendingPathSummary
leaf_summary leaf = record {
  id = leaf.id;
  label = if str_eq leaf.label "" then leaf.id else leaf.label;
  quorum = leaf.quorum;
  key_count = length leaf.keys;
  keys = leaf.keys;
  unlock_type = unlock_type_of leaf.unlock;
  unlock_blocks = unlock_blocks_of leaf.unlock;
}

-- `if (present) paths.push(path);`
abbrev pub pushed : Bool → SpendingPathSummary → List SpendingPathSummary
pushed present path = if present then path ∷ [] else []

unfoldable pub column_paths : VaultShape → List SpendingPathSummary
column_paths vault =
    let founder_keys = or_else vault.founder_keys [] in
    let founder_quorum = or_else vault.founder_quorum 0 in
    let heir_keys = or_else vault.heir_keys [] in
    let recovery_after = or_else vault.recovery_after 0 in
    let inheritance_after = or_else vault.inheritance_after 0 in
    let backup_keys = or_else vault.backup_keys [] in
    let second_heir_keys = or_else vault.second_heir_keys [] in
    record {
      id = "founders_now";
      label = "Founders now";
      quorum = founder_quorum;
      key_count = length founder_keys;
      keys = founder_keys;
      unlock_type = UnlockType.immediate;
      unlock_blocks = 0;
    }
    ∷ (pushed (ltb 0 recovery_after) (record {
      id = "recovery";
      label = "Recovery";
      quorum = or_else vault.recovery_quorum founder_quorum;
      key_count = length founder_keys;
      keys = founder_keys;
      unlock_type = UnlockType.after;
      unlock_blocks = recovery_after;
    })
        ++ (pushed (ltb 0 (length heir_keys) && ltb 0 inheritance_after) (record {
          id = "inheritance";
          label = "Inheritance";
          quorum = or_else vault.heir_quorum 0;
          key_count = length heir_keys;
          keys = heir_keys;
          unlock_type = UnlockType.after;
          unlock_blocks = inheritance_after;
        })
            ++ (pushed (ltb 0 (length backup_keys) && is_some vault.backup_quorum) (record {
              id = "backup";
              label = "Backup";
              quorum = or_else vault.backup_quorum 0;
              key_count = length backup_keys;
              keys = backup_keys;
              unlock_type = UnlockType.immediate;
              unlock_blocks = 0;
            })
                ++ pushed
                    (ltb 0 (length second_heir_keys)
                      && (is_some vault.second_heir_quorum
                          && is_some vault.second_inheritance_after))
                    (record {
                      id = "second_inheritance";
                      label = "Second inheritance";
                      quorum = or_else vault.second_heir_quorum 0;
                      key_count = length second_heir_keys;
                      keys = second_heir_keys;
                      unlock_type = UnlockType.after;
                      unlock_blocks = or_else vault.second_inheritance_after 0;
                    }))))

unfoldable pub get_spending_paths : VaultShape → List SpendingPathSummary
unfolding is_leaf_list_vault column_paths
get_spending_paths vault =
    if is_leaf_list_vault vault
    then map leaf_summary (or_else vault.leaves [])
    else column_paths vault

unfoldable pub find_spending_path : VaultShape → String → Option SpendingPathSummary
find_spending_path vault path_id = find (λ p. str_eq p.id path_id) (get_spending_paths vault)
