-- ===== src/Server/Roster/Planned.antt =====
-- netlify/functions/vaults-compile.js: what a roster that passes is.
use dynastytrust.Prelude.{
  ℕ, String, false, Option, none, some, List, [], ◌∷◌, any, All, length, str_eq, ◌≡◌, ◌≢◌, ◌⊎◌,
}
use dynastytrust.Server.Roster.{RosterKey, DirectKeys, Plan, Roster, key_id}
use dynastytrust.Server.Roster.Provisioned.{IsProvisioned}

abbrev pub Fresh : RosterKey → List RosterKey → Type 0
Fresh k ks = All (λ j. key_id j ≢ key_id k) ks

-- No two keys have one text.
abbrev pub Distinct : List RosterKey → Type 0
Distinct [] = Unit {0}
Distinct (k ∷ ks) = Fresh k ks × Distinct ks

abbrev Unseen : List String → RosterKey → Type 0
Unseen seen k = any (λ id. str_eq id (key_id k)) seen ≡ false

-- The counts are planned: that of the founders, and that of the heirs where there are any.
pub record IsPlanned (plan : Plan) (r : Roster) : Type 0 where
  pub founder_count : ℕ
  pub founders_planned : plan.planned_founder_count ≡ some founder_count
  pub heirs_planned : (r.heirs ≡ []) ⊎ ((n : ℕ) × (plan.planned_heir_count ≡ some n))

-- A roster that a vault is compiled with: provisioned keys, no two of them of one text, as many as
-- planned; heirs are counted only where some are planned; without keys of the owner's there is a
-- plan.
pub record Compilable (dk : Option DirectKeys) (plan : Plan) (r : Roster) : Type 0 where
  pub founders_provisioned : All IsProvisioned r.founders
  pub heirs_provisioned : All IsProvisioned r.heirs
  pub distinct_founders : Distinct r.founders
  pub distinct_heirs : Distinct r.heirs
  pub has_plan : ((d : DirectKeys) × (dk ≡ some d)) ⊎ IsPlanned plan r
  pub as_planned :
      (plan.planned_founder_count ≡ none) ⊎ (plan.planned_founder_count ≡ some (length r.founders))
  pub heirs_as_planned :
      (plan.planned_heir_count ≡ none)
      ⊎ ((plan.planned_heir_count ≡ some 0) ⊎ (plan.planned_heir_count ≡ some (length r.heirs)))
