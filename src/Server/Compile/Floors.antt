-- ===== src/Server/Compile/Floors.antt =====
-- netlify/functions/compile-leaves.js: what holds of every leaf that is compiled and stored.
use dynastytrust.Prelude.{
  ℕ, zero, suc, ◌+◌, ◌≤◌, pos, negsuc, String, false, none, some, List, [], ◌∷◌, length, map, any,
  ◌==◌, ltb, All, str_eq, eq_iff, if◌then◌else◌, ◌≡◌, ◌⊎◌, inl, inr, refl, subst, arith, Bool-cases,
  ◌⧺◌,
}
use dynastytrust.Server.Http.{
  done, >>=-eq-done, >>-eq-done, done-injective, unless, no_error, found, truthy, require_user,
}
use dynastytrust.Server.Numeric.{
  Value, undefined, null_value, structure, boolean, text, number, nan, infinity, minus_infinity,
  whole, fraction, check_number_bounds, count_of,
}
use dynastytrust.Server.Numeric.Bounds.{check_number_bounds-integer}
use dynastytrust.Server.Governance.Handler.Checked.{found-done, no_error-done}
use dynastytrust.Server.Proposals.Ledger.Checks.{unless-true}
use dynastytrust.Server.Compile.{
  DraftLeaf, DraftVault, DraftUnlock, WireLeaf, WireUnlock, Tip, tip_at, no_tip, CompileServices,
  CompileBody, CompiledVault, compile_leaves, check_leaf, check_leaves, check_keys, check_unlock,
  wire_leaf, wire_unlock, is_after, tip_for, tip_of_reply, list_or, quorum_bounds, compiled_of,
}
use dynastytrust.Server.Locks.{
  check_timelock_floor, relative_to_absolute, is_private_extended_key,
  assert_not_private_extended_key, min_recovery_blocks,
}

-- A lock that may be compiled: a lock to a height is at least the floor above the tip, or is none.
pub data Floored (fetch_tip_height : String → Tip) (network : String) : WireUnlock → Type 0 where
  immediate : Floored fetch_tip_height network WireUnlock.immediate
  absent : Floored fetch_tip_height network WireUnlock.absent
  older : (blocks : Value) → Floored fetch_tip_height network (WireUnlock.older blocks)
  no_height : Floored fetch_tip_height network (WireUnlock.after 0)
  height :
      (tip blocks : ℕ)
      → fetch_tip_height network ≡ tip_at tip
      → tip + min_recovery_blocks ≤ blocks
      → Floored fetch_tip_height network (WireUnlock.after blocks)

pub record SoundLeaf (fetch_tip_height : String → Tip) (network : String) (leaf : WireLeaf)
    : Type 0 where
  pub floored : Floored fetch_tip_height network leaf.unlock
  pub some_quorum : 1 ≤ leaf.quorum
  pub enough_keys : leaf.quorum ≤ length leaf.keys
  pub public_keys : All (λ k. is_private_extended_key k ≡ false) leaf.keys

pub check_timelock_floor_lem :
    (blocks : Value) (field : String)
    → check_timelock_floor blocks field ≡ none
    → (count_of blocks ≡ 0) ⊎ (min_recovery_blocks ≤ count_of blocks)
check_timelock_floor_lem undefined field h = inl refl
check_timelock_floor_lem null_value field h = inl refl
check_timelock_floor_lem structure field h = inl refl
check_timelock_floor_lem (boolean b) field h = inl refl
check_timelock_floor_lem (text t) field h = inl refl
check_timelock_floor_lem (number nan) field h = inl refl
check_timelock_floor_lem (number infinity) field h = inl refl
check_timelock_floor_lem (number minus_infinity) field h = inl refl
check_timelock_floor_lem (number (fraction z)) field h = inl refl
check_timelock_floor_lem (number (whole (negsuc n))) field h = inl refl
check_timelock_floor_lem (number (whole (pos zero))) field h = inl refl
check_timelock_floor_lem (number (whole (pos (suc n)))) field h = inr (ground arith)

check_keys-All :
    (keys : List String)
    → check_keys keys ≡ done tt
    → All (λ k. is_private_extended_key k ≡ false) keys
check_keys-All [] h = tt
check_keys-All (k ∷ keys) h =
    let (now, later) = >>-eq-done (no_error (assert_not_private_extended_key k) 400) _ h in
    let passed = no_error-done (assert_not_private_extended_key k) 400 now in
    (ground arith, check_keys-All keys later)

pub tip_of_reply-done :
    (answer : Tip) (network : String) (tip : ℕ)
    → tip_of_reply answer network ≡ done tip
    → answer ≡ tip_at tip
tip_of_reply-done (no_tip message) network tip h = cc
tip_of_reply-done (tip_at at) network tip h = ground arith

module _ (fetch_tip_height : String → Tip) (network : String) (tip : ℕ) where
  relative_to_absolute-Floored :
      (blocks : Value)
      → (count_of blocks ≡ 0) ⊎ (min_recovery_blocks ≤ count_of blocks)
      → fetch_tip_height network ≡ tip_at tip
      → Floored fetch_tip_height network (WireUnlock.after (relative_to_absolute blocks tip))
  relative_to_absolute-Floored blocks floor at = elim (Bool-cases (count_of blocks == 0)) [
    | inl e ↦ rw (e, if◌then◌else◌) no_height
    | inr e ↦ rw (e, if◌then◌else◌) (height tip (tip + count_of blocks) at (ground arith))
  ]

  wire_unlock-Floored :
      (id : String) (unlock : DraftUnlock)
      → check_unlock id unlock ≡ done tt
      → (is_after unlock ≡ false) ⊎ (fetch_tip_height network ≡ tip_at tip)
      → Floored fetch_tip_height network (wire_unlock tip unlock)
  wire_unlock-Floored id DraftUnlock.immediate h at = immediate
  wire_unlock-Floored id DraftUnlock.absent h at = absent
  wire_unlock-Floored id (DraftUnlock.older blocks) h at = older blocks
  wire_unlock-Floored id (DraftUnlock.after blocks) h (inl e) = absurd (ground arith)
  wire_unlock-Floored id (DraftUnlock.after blocks) h (inr at) =
      relative_to_absolute-Floored blocks
        (check_timelock_floor_lem blocks ("Leaf '" ⧺ (id ⧺ "' unlock.blocks"))
          (no_error-done (check_timelock_floor blocks ("Leaf '" ⧺ (id ⧺ "' unlock.blocks"))) 400 h))
        at

  check_leaf-SoundLeaf :
      (leaf : DraftLeaf)
      → check_leaf leaf ≡ done tt
      → (is_after leaf.unlock ≡ false) ⊎ (fetch_tip_height network ≡ tip_at tip)
      → SoundLeaf fetch_tip_height network (wire_leaf tip leaf)
  unfolding check_leaf
  check_leaf-SoundLeaf leaf h at =
      let keys = list_or leaf.keys in
      let (id, named, h1) =
        >>=-eq-done (found (truthy leaf.id) 400 "Every leaf needs a non-empty id") _ h in
      let (keyed, h2) = >>-eq-done (unless (ltb 0 (length keys)) 400 _) _ h1 in
      let (quorum, h3) =
        >>-eq-done (no_error (check_number_bounds leaf.quorum (quorum_bounds id keys)) 400) _ h2 in
      let (public_only, h4) = >>-eq-done (check_keys keys) _ h3 in
      let (n, is_n, low, high) =
        check_number_bounds-integer ("Leaf '" ⧺ (id ⧺ "' quorum")) 1 (length keys) leaf.quorum
          (no_error-done (check_number_bounds leaf.quorum (quorum_bounds id keys)) 400 quorum) in
      record {
        floored = wire_unlock-Floored id leaf.unlock h4 at;
        some_quorum = rw is_n low;
        enough_keys = rw is_n high;
        public_keys = check_keys-All keys public_only;
      }

  check_leaves-All :
      (leaves : List DraftLeaf)
      → check_leaves leaves ≡ done tt
      → (any (λ l. is_after l.unlock) leaves ≡ false) ⊎ (fetch_tip_height network ≡ tip_at tip)
      → All (SoundLeaf fetch_tip_height network) (map (wire_leaf tip) leaves)
  check_leaves-All [] h at = tt
  check_leaves-All (leaf ∷ leaves) h at =
      let (now, later) = >>-eq-done (check_leaf leaf) _ h in
      elim at [
        | inl none_after ↦ (
          check_leaf-SoundLeaf leaf now (inl (ground arith)),
          check_leaves-All leaves later (inl (ground arith)),
        )
        | inr there ↦
            (check_leaf-SoundLeaf leaf now (inr there), check_leaves-All leaves later (inr there))
      ]

tip_for_lem :
    (services : CompileServices) (vault : DraftVault) (leaves : List DraftLeaf) (tip : ℕ)
    → tip_for services vault leaves ≡ done tip
    → (any (λ l. is_after l.unlock) leaves ≡ false)
      ⊎ (services.fetch_tip_height vault.network ≡ tip_at tip)
tip_for_lem services vault leaves tip h = elim (Bool-cases (any (λ l. is_after l.unlock) leaves)) [
  | inl e ↦ inr (
      tip_of_reply-done (services.fetch_tip_height vault.network) vault.network tip
        (rw (e, if◌then◌else◌) at h))
  | inr e ↦ inl e
]

-- What is stored of a compiled vault: it was the caller's own draft, and its leaves are sound.
pub record SoundVault (services : CompileServices) (c : CompiledVault) : Type 0 where
  pub vault : DraftVault
  pub user : String
  pub stored : services.vault_of c.vault_id ≡ some vault
  pub signed_in : services.user ≡ some user
  pub own : vault.user_id ≡ user
  pub was_draft : vault.status ≡ "draft"
  pub sound_leaves : All (SoundLeaf services.fetch_tip_height vault.network) c.leaves

-- A vault of leaves that is compiled and stored was a draft of the signed-in user; each of its leaves
-- needs at least one signature and has as many keys, none of them a private extended key, and a leaf
-- that is locked to a height is locked 26,000 blocks beyond the tip of the vault's network or more,
-- unless its height is 0, which the check lets through.
pub compile_leaves-SoundVault :
    (services : CompileServices) (body : CompileBody) (c : CompiledVault)
    → compile_leaves services body ≡ done c
    → SoundVault services c
unfolding compile_leaves
compile_leaves-SoundVault services body c h =
    let (user, signed_in, h1) = >>=-eq-done (require_user services.user) _ h in
    let (vault_id, named, h2) = >>=-eq-done (found (truthy body.vault_id) 400 _) _ h1 in
    let (compiler, set_up, h3) = >>=-eq-done (found services.compiler 503 _) _ h2 in
    let (vault, there, h4) = >>=-eq-done (found (services.vault_of vault_id) 404 _) _ h3 in
    let (own, h5) = >>-eq-done (unless (str_eq vault.user_id user) 403 _) _ h4 in
    let (draft, h6) = >>-eq-done (unless (str_eq vault.status "draft") 400 _) _ h5 in
    let (filled, h7) = >>-eq-done (unless (ltb 0 (length (list_or vault.leaves))) 400 _) _ h6 in
    let (checked, h8) = >>-eq-done (check_leaves (list_or vault.leaves)) _ h7 in
    let (consent, h9) = >>-eq-done (check_keys (list_or vault.consent_keys)) _ h8 in
    let (tip, at, h10) = >>=-eq-done (tip_for services vault (list_or vault.leaves)) _ h9 in
    let (answer, replied, h11) = >>=-eq-done (compiled_of (compiler _)) _ h10 in
    let (written, h12) = >>-eq-done (no_error services.write_error 500) _ h11 in
    subst (SoundVault services) (done-injective h12) (record {
      vault = vault;
      user = user;
      stored = found-done (services.vault_of vault_id) 404 _ there;
      signed_in = found-done services.user 401 _ signed_in;
      own = (eq_iff _ _).0 (unless-true _ 403 _ own);
      was_draft = (eq_iff _ _).0 (unless-true _ 400 _ draft);
      sound_leaves =
          check_leaves-All services.fetch_tip_height vault.network tip (list_or vault.leaves)
            checked (tip_for_lem services vault (list_or vault.leaves) tip at);
    })
