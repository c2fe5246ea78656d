-- ===== src/Paths/Exact.antt =====
-- apps/web/src/lib/vault-spending-paths.ts: which paths a vault has.
use dynastytrust.Prelude.{
  ℕ, ◌<◌, String, false, some, none, List, [], ◌∷◌, ◌++◌, find, if◌then◌else◌, Option, ◌≡◌, ◌≢◌,
  ◌⊎◌, ◌↔◌, inl, inr, refl, sym, ◌∙◌, ap, arith, eq_iff, str_eq, Bool-cases,
}
use mathlib.Core.Path.{subst}
use dynastytrust.Paths.{
  path_of, SpendingPathSummary, VaultShape, UnlockType, or_else, is_leaf_list_vault, founders_path,
  recovery_paths, inheritance_paths, backup_paths, second_inheritance_paths, named_paths,
  get_spending_paths, find_spending_path,
}

-- The paths that the named columns of a row configure.
pub data Configured (v : VaultShape) : SpendingPathSummary → Type 0 where
  founders : Configured v (
      path_of "founders_now" "Founders now"
        (or_else v.founder_quorum 0)
        (or_else v.founder_keys [])
        UnlockType.immediate
        0)
  recovery :
      (blocks : ℕ)
      → v.recovery_after ≡ some blocks
      → 0 < blocks
      → Configured v (
          path_of "recovery" "Recovery"
            (or_else v.recovery_quorum (or_else v.founder_quorum 0))
            (or_else v.founder_keys [])
            UnlockType.after
            blocks)
  inheritance :
      (blocks : ℕ) (keys : List String)
      → v.inheritance_after ≡ some blocks
      → 0 < blocks
      → v.heir_keys ≡ some keys
      → keys ≢ []
      → Configured v (
          path_of "inheritance" "Inheritance"
            (or_else v.heir_quorum 0)
            keys
            UnlockType.after
            blocks)
  backup :
      (quorum : ℕ) (keys : List String)
      → v.backup_quorum ≡ some quorum
      → v.backup_keys ≡ some keys
      → keys ≢ []
      → Configured v (path_of "backup" "Backup" quorum keys UnlockType.immediate 0)
  second_inheritance :
      (quorum blocks : ℕ) (keys : List String)
      → v.second_heir_quorum ≡ some quorum
      → v.second_inheritance_after ≡ some blocks
      → v.second_heir_keys ≡ some keys
      → keys ≢ []
      → Configured v
          (path_of "second_inheritance" "Second inheritance" quorum keys UnlockType.after blocks)

-- A list with the elements of `named_paths`, as a predicate.
abbrev InList : SpendingPathSummary → List SpendingPathSummary → Type 0
InList p [] = ⊥
InList p (x ∷ xs) = (x ≡ p) ⊎ InList p xs

InList-append :
    (p : SpendingPathSummary) (xs ys : List SpendingPathSummary)
    → InList p (xs ++ ys)
    → InList p xs ⊎ InList p ys
InList-append p [] ys h = inr h
InList-append p (x ∷ xs) ys h = ground (arith, InList-append p xs ys)

find-InList :
    (id : String) (xs : List SpendingPathSummary) (p : SpendingPathSummary)
    → find (λ q. str_eq q.id id) xs ≡ some p
    → InList p xs × (p.id ≡ id)
find-InList id [] p e = cc
find-InList id (x ∷ xs) p e = elim (Bool-cases (str_eq x.id id)) [
  | inl same ↦
      let e' : x ≡ p = ground arith in (inl e', ap (λ q. q.id) (sym e') ∙ (eq_iff _ _).0 same)
  | inr other ↦ let (m, i) = find-InList id xs p (ground arith) in (inr m, i)
]

module _ (v : VaultShape) (p : SpendingPathSummary) where
  recovery-Configured :
      (o : Option ℕ) → v.recovery_after ≡ o → InList p (recovery_paths v) → Configured v p
  unfolding recovery_paths
  recovery-Configured none e m = ground arith
  recovery-Configured (some n) e m =
      let (positive, same) : (0 < n)
          × (path_of "recovery" "Recovery" (or_else v.recovery_quorum (or_else v.founder_quorum 0))
                (or_else v.founder_keys []) UnlockType.after n
              ≡ p) =
        ground arith in
      subst (Configured v) same (recovery n e positive)

  inheritance-Configured :
      (after : Option ℕ) (keys : Option (List String))
      → v.inheritance_after ≡ after
      → v.heir_keys ≡ keys
      → InList p (inheritance_paths v)
      → Configured v p
  unfolding inheritance_paths
  inheritance-Configured none keys e f m = ground arith
  inheritance-Configured (some n) none e f m = ground arith
  inheritance-Configured (some n) (some []) e f m = ground arith
  inheritance-Configured (some n) (some (k ∷ ks)) e f m =
      let (positive, same) : (0 < n)
          × (path_of "inheritance" "Inheritance" (or_else v.heir_quorum 0) (k ∷ ks) UnlockType.after
                n
              ≡ p) =
        ground arith in
      subst (Configured v) same (inheritance n (k ∷ ks) e positive f (λ none_left. cc))

  backup-Configured :
      (quorum : Option ℕ) (keys : Option (List String))
      → v.backup_quorum ≡ quorum
      → v.backup_keys ≡ keys
      → InList p (backup_paths v)
      → Configured v p
  unfolding backup_paths
  backup-Configured none keys e f m = ground arith
  backup-Configured (some n) none e f m = ground arith
  backup-Configured (some n) (some []) e f m = ground arith
  backup-Configured (some n) (some (k ∷ ks)) e f m =
      let same : path_of "backup" "Backup" n (k ∷ ks) UnlockType.immediate 0 ≡ p = ground arith in
      subst (Configured v) same (backup n (k ∷ ks) e f (λ none_left. cc))

  second-Configured :
      (quorum after : Option ℕ) (keys : Option (List String))
      → v.second_heir_quorum ≡ quorum
      → v.second_inheritance_after ≡ after
      → v.second_heir_keys ≡ keys
      → InList p (second_inheritance_paths v)
      → Configured v p
  unfolding second_inheritance_paths
  second-Configured none after keys e f g m = ground arith
  second-Configured (some q) none keys e f g m = ground arith
  second-Configured (some q) (some n) none e f g m = ground arith
  second-Configured (some q) (some n) (some []) e f g m = ground arith
  second-Configured (some q) (some n) (some (k ∷ ks)) e f g m =
      let same : path_of "second_inheritance" "Second inheritance" q (k ∷ ks) UnlockType.after n
          ≡ p =
        ground arith in
      subst (Configured v) same (second_inheritance q n (k ∷ ks) e f g (λ none_left. cc))

  named-Configured : InList p (named_paths v) → Configured v p
  unfolding named_paths founders_path
  named-Configured (inl e) = subst (Configured v) e founders
  named-Configured (inr m) = elim (InList-append p (recovery_paths v) _ m) [
    | inl a ↦ recovery-Configured v.recovery_after refl a
    | inr b ↦ elim (InList-append p (inheritance_paths v) _ b) [
      | inl a ↦ inheritance-Configured v.inheritance_after v.heir_keys refl refl a
      | inr c ↦ elim (InList-append p (backup_paths v) (second_inheritance_paths v) c) [
        | inl a ↦ backup-Configured v.backup_quorum v.backup_keys refl refl a
        | inr d ↦
            second-Configured v.second_heir_quorum v.second_inheritance_after v.second_heir_keys
              refl refl refl d
      ]
    ]
  ]

named-find :
    (v : VaultShape) {p : SpendingPathSummary}
    → Configured v p
    → find (λ q. str_eq q.id p.id) (named_paths v) ≡ some p
unfolding named_paths founders_path recovery_paths inheritance_paths backup_paths
    second_inheritance_paths
named-find v founders = ground arith
named-find v (recovery n e h) = ground arith
named-find v (inheritance n [] e h f g) = absurd (g refl)
named-find v (inheritance n (k ∷ ks) e h f g) = ground arith
named-find v (backup n [] e f g) = absurd (g refl)
named-find v (backup n (k ∷ ks) e f g) = ground arith
named-find v (second_inheritance q n [] e f g h) = absurd (h refl)
named-find v (second_inheritance q n (k ∷ ks) e f g h) = ground arith

-- For a row without leaves, the lookup of a path id finds exactly the path of that id which the
-- named columns configure: the founders' path always, a recovery path from a positive height, an
-- inheritance path from heirs and a positive height, a backup path from keys and a quorum, a second
-- inheritance path from keys, a quorum and a height.
pub find_spending_path_iff :
    (v : VaultShape) (id : String) (p : SpendingPathSummary)
    → is_leaf_list_vault v ≡ false
    → (find_spending_path v id ≡ some p) ↔ (Configured v p × (p.id ≡ id))
unfolding find_spending_path get_spending_paths
find_spending_path_iff v id p named = (
  (λ e.
      let (m, same) = find-InList id (named_paths v) p (rw (named, if◌then◌else◌) at e) in
      (named-Configured v p m, same)),
  (λ (c, same). rw (named, ← same) (named-find v c)),
)
