-- ===== src/Paths.antt =====
-- apps/web/src/lib/vault-spending-paths.ts: the spending paths of a vault row. Quorums and block
-- counts are natural numbers; a nullable column is an `Option`.
pub mod Exact
pub mod Leaves
use dynastytrust.Prelude.{
  ℕ, String, Bool, true, false, ◌&&◌, Option, none, some, is_some, List, [], ◌∷◌, ◌++◌, map, length,
  find, ltb, if◌then◌else◌, str_eq,
}

pub data Unlock : Type 0 where
  immediate : Unlock
  after older : ℕ → Unlock

pub record Leaf : Type 0 where
  pub id : String
  pub label : String
  pub keys : List String
  pub quorum : ℕ
  pub unlock : Unlock

pub data UnlockType : Type 0 where
  immediate after older : UnlockType

pub record SpendingPathSummary : Type 0 where
  pub id : String
  pub label : String
  pub quorum : ℕ
  pub key_count : ℕ
  pub keys : List String
  pub unlock_type : UnlockType
  pub unlock_blocks : ℕ

pub record VaultShape : Type 0 where
  pub leaves : Option (List Leaf)
  pub founder_keys : Option (List String)
  pub founder_quorum : Option ℕ
  pub heir_keys : Option (List String)
  pub heir_quorum : Option ℕ
  pub recovery_after : Option ℕ
  pub recovery_quorum : Option ℕ
  pub inheritance_after : Option ℕ
  pub backup_keys : Option (List String)
  pub backup_quorum : Option ℕ
  pub second_heir_keys : Option (List String)
  pub second_heir_quorum : Option ℕ
  pub second_inheritance_after : Option ℕ

-- `o ?? d`
abbrev pub or_else {ℓ} : {A : Type ℓ} → Option A → A → A
or_else none d = d
or_else (some a) d = a

unfoldable pub is_leaf_list_vault : VaultShape → Bool
is_leaf_list_vault vault = ltb 0 (length (or_else vault.leaves []))

abbrev pub type_of : Unlock → UnlockType
type_of immediate = UnlockType.immediate
type_of (after n) = UnlockType.after
type_of (older n) = UnlockType.older

abbrev pub blocks_of : Unlock → ℕ
blocks_of immediate = 0
blocks_of (after n) = n
blocks_of (older n) = n

-- A leaf's own path; an empty label falls back to the id.
unfoldable pub leaf_path : Leaf → SpendingPathSummary
leaf_path leaf = record {
  id = leaf.id;
  label = if str_eq leaf.label "" then leaf.id else leaf.label;
  quorum = leaf.quorum;
  key_count = length leaf.keys;
  keys = leaf.keys;
  unlock_type = type_of leaf.unlock;
  unlock_blocks = blocks_of leaf.unlock;
}

abbrev pub path_of : String → String → ℕ → List String → UnlockType → ℕ → SpendingPathSummary
path_of id label quorum keys type blocks = record {
  id = id;
  label = label;
  quorum = quorum;
  key_count = length keys;
  keys = keys;
  unlock_type = type;
  unlock_blocks = blocks;
}

unfoldable pub founders_path : VaultShape → SpendingPathSummary
founders_path v =
    path_of "founders_now" "Founders now" (or_else v.founder_quorum 0) (or_else v.founder_keys [])
      UnlockType.immediate 0

-- `paths.push(p)` under a test.
abbrev pub push_if : Bool → SpendingPathSummary → List SpendingPathSummary
push_if b p = if b then p ∷ [] else []

unfoldable pub recovery_paths : VaultShape → List SpendingPathSummary
recovery_paths v = push_if (ltb 0 (or_else v.recovery_after 0)) (
    path_of "recovery" "Recovery" (or_else v.recovery_quorum (or_else v.founder_quorum 0))
      (or_else v.founder_keys []) UnlockType.after (or_else v.recovery_after 0))

unfoldable pub inheritance_paths : VaultShape → List SpendingPathSummary
inheritance_paths v =
    push_if (ltb 0 (length (or_else v.heir_keys [])) && ltb 0 (or_else v.inheritance_after 0)) (
      path_of "inheritance" "Inheritance" (or_else v.heir_quorum 0) (or_else v.heir_keys [])
        UnlockType.after (or_else v.inheritance_after 0))

unfoldable pub backup_paths : VaultShape → List SpendingPathSummary
backup_paths v = push_if (ltb 0 (length (or_else v.backup_keys [])) && is_some v.backup_quorum) (
    path_of "backup" "Backup" (or_else v.backup_quorum 0) (or_else v.backup_keys [])
      UnlockType.immediate 0)

unfoldable pub second_inheritance_paths : VaultShape → List SpendingPathSummary
second_inheritance_paths v =
    push_if
      (ltb 0 (length (or_else v.second_heir_keys []))
        && (is_some v.second_heir_quorum && is_some v.second_inheritance_after))
      (path_of "second_inheritance" "Second inheritance" (or_else v.second_heir_quorum 0)
        (or_else v.second_heir_keys []) UnlockType.after (or_else v.second_inheritance_after 0))

unfoldable pub named_paths : VaultShape → List SpendingPathSummary
named_paths v =
    founders_path v
    ∷ (recovery_paths v ++ (inheritance_paths v ++ (backup_paths v ++ second_inheritance_paths v)))

unfoldable pub get_spending_paths : VaultShape → List SpendingPathSummary
unfolding is_leaf_list_vault named_paths leaf_path
get_spending_paths vault =
    if is_leaf_list_vault vault then map leaf_path (or_else vault.leaves []) else named_paths vault

unfoldable pub find_spending_path : VaultShape → String → Option SpendingPathSummary
find_spending_path vault path_id = find (λ p. str_eq p.id path_id) (get_spending_paths vault)
