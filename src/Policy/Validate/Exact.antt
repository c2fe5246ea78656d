-- ===== src/Policy/Validate/Exact.antt =====
-- packages/policy-engine/src/index.ts: `validatePolicy` accepts exactly the well-formed policies.
use dynastytrust.Prelude.{
  pos, String, true, false, Option, none, some, List, [], ◌∷◌, All, ◌≡◌, ◌≢◌, ◌↔◌, refl, arith,
  eq_iff, ◌≤ℤ◌, Option-cases, inl, inr, length, ◌==◌,
}
use dynastytrust.Policy.Messages.{IsEmpty, append_iff, when_iff, when-not_iff}
use dynastytrust.Policy.Types.{
  TimeConstraint, PolicyKeyRef, PolicyPath, normal, emergency, inheritance, threshold, key_ids,
  VaultPolicy,
}
use dynastytrust.Policy.Validate.{
  find_member, find_key, key_errors, reference_errors, has, key_id_errors, timelock_errors,
  threshold_errors, path_errors, validate_policy, timelock_missing, timelock_invalid,
}
use dynastytrust.Policy.Validate.WellFormed.{
  HasMember, Distinct, Resolves, IsPositive, IsTimelocked, IsSound, IsOn, IsWellFormed,
  has_member_iff, find_member-FirstMember, FirstMember-find_member, find_key-LastKey,
  LastKey-find_key, other_network_iff,
}

key_errors_iff :
    (policy : VaultPolicy) (keys : List PolicyKeyRef)
    → IsEmpty (key_errors policy keys)
      ↔ (All (λ k. HasMember k.member_id policy.members) keys × All (IsOn policy.network) keys)
unfolding key_errors
key_errors_iff policy [] = ((λ h. (tt, tt)), λ h. refl)
key_errors_iff policy (k ∷ keys) = (
  (λ h.
      let (a, rest) = (append_iff _ _).0 h in
      let (b, c) = (append_iff _ _).0 rest in
      let (owned, on) = (key_errors_iff policy keys).0 c in
      (
        ((has_member_iff k.member_id policy.members).0 ((when-not_iff _ _).0 a), owned),
        ((other_network_iff policy.network k).0 ((when_iff _ _).0 b), on),
      )),
  (λ ((own, owned), (on, ons)). (append_iff _ _).1 (
    (when-not_iff _ _).1 ((has_member_iff k.member_id policy.members).1 own),
    (append_iff _ _).1 (
      (when_iff _ _).1 ((other_network_iff policy.network k).1 on),
      (key_errors_iff policy keys).1 (owned, ons),
    ),
  )),
)

reference_errors-Resolves :
    (policy : VaultPolicy) (path : PolicyPath) (id : String) (o : Option PolicyKeyRef)
    → find_key id policy.keys ≡ o
    → IsEmpty (reference_errors policy path id o)
    → Resolves policy id
unfolding reference_errors
reference_errors-Resolves policy path id none e h = cc
reference_errors-Resolves policy path id (some k) e h =
    elim (Option-cases (find_member k.member_id policy.members)) [
      | inl missing ↦ ground arith
      | inr (m, found) ↦ record {
        key = k;
        member = m;
        found = find_key-LastKey id policy.keys k e;
        holder = find_member-FirstMember k.member_id policy.members m found;
        active = ground arith;
      }
    ]

Resolves-reference_errors :
    (policy : VaultPolicy) (path : PolicyPath) (id : String)
    → Resolves policy id
    → IsEmpty (reference_errors policy path id (find_key id policy.keys))
unfolding reference_errors
Resolves-reference_errors policy path id r =
    rw (LastKey-find_key id r.found, reference_errors)
      (rw (FirstMember-find_member r.key.member_id r.holder, r.active) refl)

-- The set of ids seen so far, taken apart.
unseen_iff :
    (x : String) (seen ids : List String)
    → All (λ y. has y (x ∷ seen) ≡ false) ids
      ↔ (All (λ y. y ≢ x) ids × All (λ y. has y seen ≡ false) ids)
unfolding has
unseen_iff x seen [] = ((λ h. (tt, tt)), λ h. tt)
unseen_iff x seen (y ∷ ids) = (
  (λ (new, h).
      let (a, b) = (unseen_iff x seen ids).0 h in
      (((λ same. ground (arith, eq_iff x y)), a), (ground arith, b))),
  (λ ((other, a), (new, b)). (ground (arith, eq_iff x y), (unseen_iff x seen ids).1 (a, b))),
)

record IsFresh (policy : VaultPolicy) (seen ids : List String) : Type 0 where
  unseen : All (λ y. has y seen ≡ false) ids
  distinct : Distinct ids
  resolved : All (Resolves policy) ids

key_id_errors_to :
    (policy : VaultPolicy) (path : PolicyPath) (seen ids : List String)
    → IsEmpty (key_id_errors policy path seen ids)
    → IsFresh policy seen ids
unfolding key_id_errors
key_id_errors_to policy path seen [] h = record { unseen = tt; distinct = tt; resolved = tt }
key_id_errors_to policy path seen (x ∷ ids) h =
    let (a, rest) = (append_iff _ _).0 h in
    let (b, c) = (append_iff _ _).0 rest in
    let later = key_id_errors_to policy path (x ∷ seen) ids c in
    let (other, old) = (unseen_iff x seen ids).0 later.unseen in
    record {
      unseen = ((when_iff _ _).0 a, old);
      distinct = (other, later.distinct);
      resolved = (reference_errors-Resolves policy path x _ refl b, later.resolved);
    }

key_id_errors_from :
    (policy : VaultPolicy) (path : PolicyPath) (seen ids : List String)
    → All (λ y. has y seen ≡ false) ids
    → Distinct ids
    → All (Resolves policy) ids
    → IsEmpty (key_id_errors policy path seen ids)
unfolding key_id_errors
key_id_errors_from policy path seen [] u d r = refl
key_id_errors_from policy path seen (x ∷ ids) (new, u) (other, d) (r, rs) = (append_iff _ _).1 (
  (when_iff _ _).1 new,
  (append_iff _ _).1 (
    Resolves-reference_errors policy path x r,
    key_id_errors_from policy path (x ∷ seen) ids ((unseen_iff x seen ids).1 (other, u)) d rs,
  ),
)

has-nil : (ids : List String) → All (λ y. has y [] ≡ false) ids
unfolding has
has-nil [] = tt
has-nil (x ∷ ids) = (refl, has-nil ids)

invalid_iff :
    (o : Option TimeConstraint)
    → (timelock_invalid o ≡ false) ↔ ((t : TimeConstraint) → o ≡ some t → IsPositive t)
invalid_iff none = ground arith
invalid_iff (some t) = ((λ h u e. ground arith), λ h. ground (arith, h t refl))

missing_iff :
    (o : Option TimeConstraint)
    → (timelock_missing o ≡ false) ↔ ((t : TimeConstraint) × (o ≡ some t) × IsPositive t)
missing_iff none = ((λ h. cc), λ (t, e, p). cc)
missing_iff (some t) = ((λ h. (t, refl, ground arith)), λ (u, e, p). ground arith)

timelock_errors_iff : (path : PolicyPath) → IsEmpty (timelock_errors path) ↔ IsTimelocked path
unfolding timelock_errors
timelock_errors_iff (normal p) = ground arith
timelock_errors_iff (emergency p) = (
  (λ h. (invalid_iff p.timelock).0 ((when_iff _ _).0 h)),
  λ h. (when_iff _ _).1 ((invalid_iff p.timelock).1 h),
)
timelock_errors_iff (inheritance p) = (
  (λ h. (missing_iff p.timelock).0 ((when_iff _ _).0 h)),
  λ h. (when_iff _ _).1 ((missing_iff p.timelock).1 h),
)

threshold_errors_iff :
    (path : PolicyPath)
    → IsEmpty (threshold_errors path)
      ↔ ((pos 1 ≤ℤ threshold path) × (threshold path ≤ℤ pos (length (key_ids path))))
unfolding threshold_errors
threshold_errors_iff path = ground arith

path_errors_to :
    (policy : VaultPolicy) (paths : List PolicyPath)
    → IsEmpty (path_errors policy paths)
    → All (IsSound policy) paths
unfolding path_errors
path_errors_to policy [] h = tt
path_errors_to policy (path ∷ paths) h =
    let (a, rest) = (append_iff _ _).0 h in
    let (b, more) = (append_iff _ _).0 rest in
    let (c, d) = (append_iff _ _).0 more in
    let ids = key_id_errors_to policy path [] (key_ids path) b in
    let bounds = (threshold_errors_iff path).0 a in
    (
      record {
        positive = bounds.0;
        reachable = bounds.1;
        distinct = ids.distinct;
        resolved = ids.resolved;
        timelocked = (timelock_errors_iff path).0 c;
      },
      path_errors_to policy paths d,
    )

path_errors_from :
    (policy : VaultPolicy) (paths : List PolicyPath)
    → All (IsSound policy) paths
    → IsEmpty (path_errors policy paths)
unfolding path_errors
path_errors_from policy [] h = refl
path_errors_from policy (path ∷ paths) (s, h) = (append_iff _ _).1 (
  (threshold_errors_iff path).1 (s.positive, s.reachable),
  (append_iff _ _).1 (
    key_id_errors_from policy path [] (key_ids path) (has-nil (key_ids path)) s.distinct s.resolved,
    (append_iff _ _).1 ((timelock_errors_iff path).1 s.timelocked, path_errors_from policy paths h),
  ),
)

some_path_iff {ℓ} : {A : Type ℓ} (xs : List A) → ((length xs == 0) ≡ false) ↔ (xs ≢ [])
some_path_iff [] = ground arith
some_path_iff (x ∷ xs) = ((λ h e. cc), λ h. ground arith)

-- The validator reports no error exactly for the well-formed policies: every key belongs to a
-- member and to the policy's network; there is a path; and on each path the threshold lies between
-- 1 and the number of keys, the keys are distinct, each names a listed key of an active member,
-- and the timelock is positive where there is one (an inheritance path must have one).
pub validate_policy_iff :
    (policy : VaultPolicy) → ((validate_policy policy).ok ≡ true) ↔ IsWellFormed policy
unfolding validate_policy
validate_policy_iff policy = (
  (λ h.
      let (a, rest) = (append_iff _ _).0 h in
      let (b, c) = (append_iff _ _).0 rest in
      let keys = (key_errors_iff policy policy.keys).0 a in
      record {
        owned = keys.0;
        same_network = keys.1;
        some_path = (some_path_iff policy.paths).0 ((when_iff _ _).0 b);
        sound = path_errors_to policy policy.paths c;
      }),
  (λ w. (append_iff _ _).1 (
    (key_errors_iff policy policy.keys).1 (w.owned, w.same_network),
    (append_iff _ _).1 (
      (when_iff _ _).1 ((some_path_iff policy.paths).1 w.some_path),
      path_errors_from policy policy.paths w.sound,
    ),
  )),
)
