-- ===== src/Paths/Leaves.antt =====
-- apps/web/src/lib/vault-spending-paths.ts: the paths of a vault built from a list of leaves.
use dynastytrust.Prelude.{
  String, true, some, List, [], ◌∷◌, map, find, length, ◌≡◌, ◌≢◌, ◌↔◌, inl, inr, refl, sym, ◌∙◌, ap,
  arith, eq_iff, str_eq, Bool-cases,
}
use dynastytrust.Paths.{
  Leaf, SpendingPathSummary, VaultShape, is_leaf_list_vault, type_of, blocks_of, leaf_path,
  get_spending_paths, find_spending_path,
}

-- The first leaf with the id.
pub data FirstLeaf (id : String) : List Leaf → Leaf → Type 0 where
  here : {l : Leaf} {ls : List Leaf} → l.id ≡ id → FirstLeaf id (l ∷ ls) l
  there : {l m : Leaf} {ls : List Leaf} → l.id ≢ id → FirstLeaf id ls m → FirstLeaf id (l ∷ ls) m

-- A path that says what the leaf says; its label is the id where the leaf's is empty.
pub record Summarizes (leaf : Leaf) (p : SpendingPathSummary) : Type 0 where
  pub id : p.id ≡ leaf.id
  pub named : leaf.label ≢ "" → p.label ≡ leaf.label
  pub unnamed : leaf.label ≡ "" → p.label ≡ leaf.id
  pub quorum : p.quorum ≡ leaf.quorum
  pub key_count : p.key_count ≡ length leaf.keys
  pub keys : p.keys ≡ leaf.keys
  pub unlock_type : p.unlock_type ≡ type_of leaf.unlock
  pub unlock_blocks : p.unlock_blocks ≡ blocks_of leaf.unlock

Summarizes-iff : (leaf : Leaf) (p : SpendingPathSummary) → (leaf_path leaf ≡ p) ↔ Summarizes leaf p
unfolding leaf_path
Summarizes-iff leaf p = ground (arith, eq_iff leaf.label "")

-- Every leaf has a summary.
pub summary_of : (leaf : Leaf) → (p : SpendingPathSummary) × Summarizes leaf p
summary_of leaf = (leaf_path leaf, (Summarizes-iff leaf (leaf_path leaf)).0 refl)

FirstLeaf-head :
    (id : String) (l : Leaf) (ls : List Leaf) (m : Leaf)
    → l.id ≡ id
    → FirstLeaf id (l ∷ ls) m
    → m ≡ l
FirstLeaf-head id l ls m same (here e) = refl
FirstLeaf-head id l ls m same (there other f) = absurd (other same)

FirstLeaf-tail :
    (id : String) (l : Leaf) (ls : List Leaf) (m : Leaf)
    → l.id ≢ id
    → FirstLeaf id (l ∷ ls) m
    → FirstLeaf id ls m
FirstLeaf-tail id l ls m other (here e) = absurd (other e)
FirstLeaf-tail id l ls m other (there n f) = f

no_leaf : (id : String) (m : Leaf) → FirstLeaf id [] m → ⊥
no_leaf id m f = elim f [ ]

find_leaf :
    (id : String) (ls : List Leaf) (p : SpendingPathSummary)
    → (find (λ q. str_eq q.id id) (map leaf_path ls) ≡ some p)
      ↔ ((leaf : Leaf) × FirstLeaf id ls leaf × Summarizes leaf p)
unfolding leaf_path
find_leaf id [] p = ((λ e. cc), λ (leaf, f, s). absurd (no_leaf id leaf f))
find_leaf id (l ∷ ls) p = elim (Bool-cases (str_eq l.id id)) [
  | inl same ↦ (
    (λ e. (l, here ((eq_iff l.id id).0 same), (Summarizes-iff l p).0 (ground arith))),
    (λ (leaf, f, s).
        let q : leaf_path leaf ≡ p = (Summarizes-iff leaf p).1 s in
        let e = FirstLeaf-head id l ls leaf ((eq_iff l.id id).0 same) f in
        rw (same, find) (ap some (ap leaf_path (sym e) ∙ q))),
  )
  | inr other ↦
      let (to, back) = find_leaf id ls p in
      let differs : l.id ≢ id = ground (arith, eq_iff l.id id) in
      (
        (λ e. let (leaf, f, s) = to (ground arith) in (leaf, there differs f, s)),
        (λ (leaf, f, s). rw (other, find) (back (leaf, FirstLeaf-tail id l ls leaf differs f, s))),
      )
]

-- For a row with leaves, whatever its named columns hold, the lookup of an id finds exactly what
-- summarizes the first leaf with that id: its keys and their number, quorum, unlock, and its label,
-- or its id where the label is empty.
pub find_spending_path_leaves :
    (v : VaultShape) (id : String) (p : SpendingPathSummary) (ls : List Leaf)
    → v.leaves ≡ some ls
    → is_leaf_list_vault v ≡ true
    → (find_spending_path v id ≡ some p)
      ↔ ((leaf : Leaf) × FirstLeaf id ls leaf × Summarizes leaf p)
unfolding find_spending_path get_spending_paths
find_spending_path_leaves v id p ls e leafy = rw (leafy, e) (find_leaf id ls p)
