-- ===== src/Policy/Messages.antt =====
-- packages/policy-engine/src/index.ts: the lists of messages that the engine accumulates.
use dynastytrust.Prelude.{
  Bool, true, false, not, List, [], ◌∷◌, ◌++◌, ◌≡◌, ◌↔◌, arith, if◌then◌else◌,
}
use dynastytrust.Policy.Types.{ValidationMessage}

-- `errors.push(m)` under a test.
abbrev pub when : Bool → ValidationMessage → List ValidationMessage
when b m = if b then m ∷ [] else []

-- `errors.length === 0`
abbrev pub is_empty {ℓ} : {A : Type ℓ} → List A → Bool
is_empty [] = true
is_empty (x ∷ xs) = false

abbrev pub IsEmpty : List ValidationMessage → Type 0
IsEmpty xs = is_empty xs ≡ true

-- An append is empty exactly when both parts are.
pub append_iff : (xs ys : List ValidationMessage) → IsEmpty (xs ++ ys) ↔ (IsEmpty xs × IsEmpty ys)
append_iff [] ys = ground arith
append_iff (x ∷ xs) ys = ground arith

pub when_iff : (b : Bool) (m : ValidationMessage) → IsEmpty (when b m) ↔ (b ≡ false)
when_iff true m = ground arith
when_iff false m = ground arith

pub when-not_iff : (b : Bool) (m : ValidationMessage) → IsEmpty (when (not b) m) ↔ (b ≡ true)
when-not_iff true m = ground arith
when-not_iff false m = ground arith
