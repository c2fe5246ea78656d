-- ===== src/Server/Named/Heights.antt =====
-- netlify/functions/vaults-compile.js: when the paths of a compiled vault open.
use dynastytrust.Prelude.{
  ℕ, ◌+◌, ◌<◌, ◌≤◌, String, true, false, Option, none, some, str_eq, if◌then◌else◌, ◌≡◌, ◌≢◌, ◌⊎◌,
  inl, inr, refl, sym, ◌∙◌, subst, arith, Bool-cases,
}
use dynastytrust.Paths
use dynastytrust.Paths.{VaultShape, SpendingPathSummary, UnlockType, or_else}
use dynastytrust.Paths.Exact.{
  Configured, founders, recovery, inheritance, backup, second_inheritance, find_spending_path_iff,
}
use dynastytrust.Server.Shape.{find_spending_path}
use dynastytrust.Server.Shape.Twin.{find_spending_path_lem}
use dynastytrust.Server.Http.{
  done, >>=-eq-done, >>-eq-done, done-injective, unless, no_error, found, truthy, require_user,
}
use dynastytrust.Server.Numeric.{Value}
use dynastytrust.Server.Governance.Handler.Checked.{found-done, no_error-done, truthy-some}
use dynastytrust.Server.Compile.{Tip, tip_at, CompileReply, compiled_of}
use dynastytrust.Server.Locks.{check_timelock_floor, relative_to_absolute, min_recovery_blocks}
use dynastytrust.Server.Compile.Floors.{check_timelock_floor_lem, tip_of_reply-done}
use dynastytrust.Server.Roster.{Roster, DirectKeys, gather_roster}
use dynastytrust.Server.Named.{
  NamedVault, CompilePayload, compile_named, compile_draft, stored_shape, payload_of,
}
use dynastytrust.Server.Draft.{
  NamedDraft, NamedServices, check_floors, tip_for_named, needs_tip, is_set,
}

stored-height :
    (v : Value) (field : String) (tip blocks : ℕ)
    → check_timelock_floor v field ≡ none
    → some (relative_to_absolute v tip) ≡ some blocks
    → 0 < blocks
    → (is_set v ≡ true) × (tip + min_recovery_blocks ≤ blocks)
stored-height v field tip blocks h e positive = elim (check_timelock_floor_lem v field h) [
  | inl no_count ↦ absurd (ground arith)
  | inr floor ↦ (ground arith, ground arith)
]

-- The heights that a stored row was given.
record Floored (services : NamedServices) (vault : NamedDraft) (r : Roster) (tip : ℕ) : Type 0 where
  pub recovery_floor : check_timelock_floor vault.recovery_after "recovery_after" ≡ none
  pub inheritance_floor : check_timelock_floor vault.inheritance_after "inheritance_after" ≡ none
  pub at_tip : (needs_tip vault r ≡ false) ⊎ (services.fetch_tip_height vault.network ≡ tip_at tip)

-- A path that opens 26,000 blocks beyond the tip or later.
pub record Delayed (fetch_tip_height : String → Tip) (network : String) (p : SpendingPathSummary)
    : Type 0 where
  pub tip : ℕ
  pub is_tip : fetch_tip_height network ≡ tip_at tip
  pub far : tip + min_recovery_blocks ≤ p.unlock_blocks

reached_tip :
    (services : NamedServices) (vault : NamedDraft) (r : Roster) (tip : ℕ)
    → Floored services vault r tip
    → (is_set vault.recovery_after ≡ true) ⊎ (is_set vault.inheritance_after ≡ true)
    → services.fetch_tip_height vault.network ≡ tip_at tip
reached_tip services vault r tip f some_set = elim f.at_tip [
  | inl unneeded ↦ absurd (ground arith)
  | inr at ↦ at
]

Configured-Delayed :
    (services : NamedServices) (vault : NamedDraft) (r : Roster) (tip : ℕ) {p : SpendingPathSummary}
    → Floored services vault r tip
    → Configured (stored_shape vault r tip) p
    → p.id ≢ "second_inheritance"
    → p.unlock_type ≡ UnlockType.after
    → Delayed services.fetch_tip_height vault.network p
unfolding stored_shape
Configured-Delayed services vault r tip f founders other locked = cc
Configured-Delayed services vault r tip f (recovery blocks e positive) other locked =
    let (set, far) =
      stored-height vault.recovery_after "recovery_after" tip blocks f.recovery_floor e positive in
    record { tip = tip; is_tip = reached_tip services vault r tip f (inl set); far = far }
Configured-Delayed services vault r tip f (inheritance blocks keys e positive keyed some_key) other
      locked =
    let (set, far) =
      stored-height vault.inheritance_after "inheritance_after" tip blocks f.inheritance_floor e
        positive in
    record { tip = tip; is_tip = reached_tip services vault r tip f (inr set); far = far }
Configured-Delayed services vault r tip f (backup quorum keys a b c) other locked = cc
Configured-Delayed services vault r tip f (second_inheritance quorum blocks keys a b c d) other
      locked =
    absurd (other refl)

tip_for_named_lem :
    (services : NamedServices) (vault : NamedDraft) (r : Roster) (tip : ℕ)
    → tip_for_named services vault r ≡ done tip
    → (needs_tip vault r ≡ false) ⊎ (services.fetch_tip_height vault.network ≡ tip_at tip)
tip_for_named_lem services vault r tip h = elim (Bool-cases (needs_tip vault r)) [
  | inl e ↦ inr (
      tip_of_reply-done (services.fetch_tip_height vault.network) vault.network tip
        (rw (e, if◌then◌else◌) at h))
  | inr e ↦ inl e
]

check_floors-Floored :
    (services : NamedServices) (vault : NamedDraft) (r : Roster) (tip : ℕ)
    → check_floors vault r ≡ done tt
    → tip_for_named services vault r ≡ done tip
    → Floored services vault r tip
unfolding check_floors
check_floors-Floored services vault r tip h at =
    let (recovery_checked, h1) =
      >>-eq-done (no_error (check_timelock_floor vault.recovery_after "recovery_after") 400) _ h in
    let (inheritance_checked, h2) =
      >>-eq-done (no_error (check_timelock_floor vault.inheritance_after "inheritance_after") 400) _
        h1 in
    record {
      recovery_floor =
          no_error-done (check_timelock_floor vault.recovery_after "recovery_after") 400
            recovery_checked;
      inheritance_floor =
          no_error-done (check_timelock_floor vault.inheritance_after "inheritance_after") 400
            inheritance_checked;
      at_tip = tip_for_named_lem services vault r tip at;
    }

-- The row is one that the draft was compiled into, its timelocks floored.
record FromDraft (services : NamedServices) (vault : NamedDraft) (v : NamedVault) : Type 0 where
  pub r : Roster
  pub tip : ℕ
  pub floors : Floored services vault r tip
  pub same : v.shape ≡ stored_shape vault r tip

compile_draft-FromDraft :
    (services : NamedServices) (compiler : CompilePayload → CompileReply) (key : String)
    (vault : NamedDraft) (dk : Option DirectKeys) (v : NamedVault)
    → compile_draft services compiler key vault dk ≡ done v
    → FromDraft services vault v
unfolding compile_draft
compile_draft-FromDraft services compiler key vault dk v h =
    let (r, gathered, h1) =
      >>=-eq-done (gather_roster dk (services.members_of key) vault.plan) _ h in
    let (floors, h2) = >>-eq-done (check_floors vault r) _ h1 in
    let (tip, at, h3) = >>=-eq-done (tip_for_named services vault r) _ h2 in
    let (answer, replied, h4) =
      >>=-eq-done (compiled_of (compiler (payload_of services vault r tip))) _ h3 in
    let (written, h5) = >>-eq-done (no_error services.write_error 500) _ h4 in
    subst (FromDraft services vault) (done-injective h5) (record {
      r = r;
      tip = tip;
      floors = check_floors-Floored services vault r tip floors at;
      same = refl;
    })

-- The draft that the database has under the requested id.
pub record Requested (services : NamedServices) (vault_id : Option String) (vault : NamedDraft)
    : Type 0 where
  pub key : String
  pub asked : vault_id ≡ some key
  pub loaded : services.vault_of key ≡ some vault

compile_named-FromDraft :
    (services : NamedServices) (compiler : Option (CompilePayload → CompileReply))
    (vault_id : Option String) (dk : Option DirectKeys) (v : NamedVault)
    → compile_named services compiler vault_id dk ≡ done v
    → (vault : NamedDraft) × Requested services vault_id vault × FromDraft services vault v
unfolding compile_named
compile_named-FromDraft services compiler vault_id dk v h =
    let (user, signed_in, h1) = >>=-eq-done (require_user services.user) _ h in
    let (key, named, h2) = >>=-eq-done (found (truthy vault_id) 400 _) _ h1 in
    let (service, set_up, h3) = >>=-eq-done (found compiler 503 _) _ h2 in
    let (vault, there, h4) = >>=-eq-done (found (services.vault_of key) 404 _) _ h3 in
    let (own, h5) = >>-eq-done (unless (str_eq vault.user_id user) 403 _) _ h4 in
    let (draft, h6) = >>-eq-done (unless (str_eq vault.status "draft") 400 _) _ h5 in
    (
      vault,
      record {
        key = key;
        asked = truthy-some vault_id (found-done (truthy vault_id) 400 _ named);
        loaded = found-done (services.vault_of key) 404 _ there;
      },
      compile_draft-FromDraft services service key vault dk v h6,
    )

-- Of a vault of named fields that was compiled, every spending path but the second inheritance that
-- is locked to a height opens 26,000 blocks or more beyond the tip that was fetched for the network of
-- the draft that the database has under the requested id.
pub compile_named-Delayed :
    (services : NamedServices) (compiler : Option (CompilePayload → CompileReply))
    (vault_id : Option String) (dk : Option DirectKeys) (v : NamedVault) (id : String)
    (p : SpendingPathSummary)
    → compile_named services compiler vault_id dk ≡ done v
    → find_spending_path v.shape id ≡ some p
    → id ≢ "second_inheritance"
    → p.unlock_type ≡ UnlockType.after
    → (vault : NamedDraft) × Requested services vault_id vault
      × Delayed services.fetch_tip_height vault.network p
unfolding stored_shape Paths.is_leaf_list_vault
compile_named-Delayed services compiler vault_id dk v id p h listed other locked =
    let (vault, requested, d) = compile_named-FromDraft services compiler vault_id dk v h in
    let row = stored_shape vault d.r d.tip in
    let here : find_spending_path row id ≡ some p =
      subst (λ s. find_spending_path s id ≡ some p) d.same listed in
    let (shaped, paths, agrees) = find_spending_path_lem row id in
    let (configured, is_id) = (find_spending_path_iff row id p refl).0 (sym agrees ∙ here) in
    (
      vault,
      requested,
      Configured-Delayed services vault d.r d.tip d.floors configured (λ e. other (sym is_id ∙ e))
          locked,
    )
