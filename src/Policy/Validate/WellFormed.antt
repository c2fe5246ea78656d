-- ===== src/Policy/Validate/WellFormed.antt =====
-- packages/policy-engine/src/index.ts: what it means for a policy to be well formed, stated without
-- the validator's loops, and the
-- lookups of the validator against it.
use dynastytrust.Prelude.{
  pos, String, true, false, Option, none, some, List, [], ◌∷◌, length, All, ◌≤ℤ◌, ◌≡◌, ◌≢◌, ◌⊎◌,
  ◌↔◌, inl, inr, refl, arith, eq_iff, Bool-cases, Option-cases, str_eq,
}
use mathlib.Core.Path.{subst}
use dynastytrust.Policy.Types.{
  Network, testnet, mainnet, PolicyMember, PolicyKeyRef, TimeConstraint, PolicyPath, normal,
  emergency, inheritance, threshold, key_ids, VaultPolicy,
}
use dynastytrust.Policy.Validate.{network_eq, has_member, find_member, find_key, other_network}

-- Somebody among the members has this id.
abbrev pub HasMember : String → List PolicyMember → Type 0
HasMember id [] = ⊥
HasMember id (m ∷ ms) = (m.member_id ≡ id) ⊎ HasMember id ms

-- The first member with the id.
pub data FirstMember (id : String) : List PolicyMember → PolicyMember → Type 0 where
  here : {m : PolicyMember} {ms : List PolicyMember} → m.member_id ≡ id → FirstMember id (m ∷ ms) m
  there :
      {m n : PolicyMember} {ms : List PolicyMember}
      → m.member_id ≢ id
      → FirstMember id ms n
      → FirstMember id (m ∷ ms) n

-- The last key with the id.
pub data LastKey (id : String) : List PolicyKeyRef → PolicyKeyRef → Type 0 where
  last :
      {k : PolicyKeyRef} {ks : List PolicyKeyRef}
      → k.key_id ≡ id
      → All (λ j. j.key_id ≢ id) ks
      → LastKey id (k ∷ ks) k
  later : {j k : PolicyKeyRef} {ks : List PolicyKeyRef} → LastKey id ks k → LastKey id (j ∷ ks) k

-- No id stands twice.
abbrev pub Distinct : List String → Type 0
Distinct [] = Unit {0}
Distinct (x ∷ xs) = All (λ y. y ≢ x) xs × Distinct xs

-- The id names a key, and the key an active member.
pub record Resolves (policy : VaultPolicy) (id : String) : Type 0 where
  pub key : PolicyKeyRef
  pub member : PolicyMember
  pub found : LastKey id policy.keys key
  pub holder : FirstMember key.member_id policy.members member
  pub active : member.active ≡ true

abbrev pub IsPositive : TimeConstraint → Type 0
IsPositive t = pos 1 ≤ℤ t.value

-- An inheritance path has a positive timelock; an emergency path has none or a positive one.
abbrev pub IsTimelocked : PolicyPath → Type 0
IsTimelocked (normal p) = Unit {0}
IsTimelocked (emergency p) = (t : TimeConstraint) → p.timelock ≡ some t → IsPositive t
IsTimelocked (inheritance p) = (t : TimeConstraint) × (p.timelock ≡ some t) × IsPositive t

pub record IsSound (policy : VaultPolicy) (path : PolicyPath) : Type 0 where
  pub positive : pos 1 ≤ℤ threshold path
  pub reachable : threshold path ≤ℤ pos (length (key_ids path))
  pub distinct : Distinct (key_ids path)
  pub resolved : All (Resolves policy) (key_ids path)
  pub timelocked : IsTimelocked path

abbrev pub IsOn : Network → PolicyKeyRef → Type 0
IsOn net key = (n : Network) → key.network ≡ some n → n ≡ net

pub record IsWellFormed (policy : VaultPolicy) : Type 0 where
  pub owned : All (λ k. HasMember k.member_id policy.members) policy.keys
  pub same_network : All (IsOn policy.network) policy.keys
  pub some_path : policy.paths ≢ []
  pub sound : All (IsSound policy) policy.paths

pub has_member_iff :
    (id : String) (ms : List PolicyMember) → (has_member id ms ≡ true) ↔ HasMember id ms
unfolding has_member
has_member_iff id [] = ground arith
has_member_iff id (m ∷ ms) = ground (arith, eq_iff m.member_id id, has_member_iff id ms)

network_eq_iff : (m n : Network) → (network_eq m n ≡ true) ↔ (m ≡ n)
network_eq_iff testnet testnet = ground arith
network_eq_iff testnet mainnet = ground arith
network_eq_iff mainnet testnet = ground arith
network_eq_iff mainnet mainnet = ground arith

other_network_to :
    (net : Network) (o : Option Network)
    → other_network net o ≡ false
    → (n : Network) → o ≡ some n
    → n ≡ net
other_network_to net none h n e = cc
other_network_to net (some m) h n e = ground (arith, network_eq_iff m net)

other_network_from :
    (net : Network) (o : Option Network)
    → ((n : Network) → o ≡ some n → n ≡ net)
    → other_network net o ≡ false
other_network_from net none h = refl
other_network_from net (some m) h = ground (arith, network_eq_iff m net, h m refl)

pub other_network_iff :
    (net : Network) (k : PolicyKeyRef) → (other_network net k.network ≡ false) ↔ IsOn net k
other_network_iff net k = (other_network_to net k.network, other_network_from net k.network)

pub find_member-FirstMember :
    (id : String) (ms : List PolicyMember) (m : PolicyMember)
    → find_member id ms ≡ some m
    → FirstMember id ms m
unfolding find_member
find_member-FirstMember id [] m e = cc
find_member-FirstMember id (n ∷ ms) m e = elim (Bool-cases (str_eq n.member_id id)) [
  | inl same ↦
      let e' : n ≡ m = ground arith in
      subst (FirstMember id (n ∷ ms)) e' (here ((eq_iff _ _).0 same))
  | inr other ↦
      there (λ same. ground (arith, eq_iff n.member_id id))
        (find_member-FirstMember id ms m (ground arith))
]

pub FirstMember-find_member :
    (id : String) {ms : List PolicyMember} {m : PolicyMember}
    → FirstMember id ms m
    → find_member id ms ≡ some m
unfolding find_member
FirstMember-find_member id (here {m = m} h) = ground (arith, eq_iff m.member_id id)
FirstMember-find_member id (there {m = m} h f) =
    ground (arith, eq_iff m.member_id id, FirstMember-find_member id f)

-- No key of the list has the id, as often as the lookup says so.
find_key-none :
    (id : String) (ks : List PolicyKeyRef) → find_key id ks ≡ none → All (λ j. j.key_id ≢ id) ks
unfolding find_key
find_key-none id [] e = tt
find_key-none id (k ∷ ks) e = elim (Option-cases (find_key id ks)) [
  | inl missing ↦ (λ same. ground (arith, eq_iff k.key_id id), find_key-none id ks missing)
  | inr (j, found) ↦ ground arith
]

find_key_of_All :
    (id : String) (ks : List PolicyKeyRef) → All (λ j. j.key_id ≢ id) ks → find_key id ks ≡ none
unfolding find_key
find_key_of_All id [] h = refl
find_key_of_All id (k ∷ ks) (other, h) = ground (arith, eq_iff k.key_id id, find_key_of_All id ks h)

pub find_key-LastKey :
    (id : String) (ks : List PolicyKeyRef) (k : PolicyKeyRef)
    → find_key id ks ≡ some k
    → LastKey id ks k
unfolding find_key
find_key-LastKey id [] k e = cc
find_key-LastKey id (j ∷ ks) k e = elim (Option-cases (find_key id ks)) [
  | inl missing ↦
      let same : (str_eq j.key_id id ≡ true) × (j ≡ k) = ground arith in
      subst (LastKey id (j ∷ ks)) same.1
        (last ((eq_iff _ _).0 same.0) (find_key-none id ks missing))
  | inr (i, found) ↦ later (find_key-LastKey id ks k (ground arith))
]

pub LastKey-find_key :
    (id : String) {ks : List PolicyKeyRef} {k : PolicyKeyRef}
    → LastKey id ks k
    → find_key id ks ≡ some k
unfolding find_key
LastKey-find_key id (last {k = k} {ks = ks} h others) =
    ground (arith, eq_iff k.key_id id, find_key_of_All id ks others)
LastKey-find_key id (later f) = ground (arith, LastKey-find_key id f)
