-- ===== src/Server/Http.antt =====
-- netlify/functions/_auth.js: the JSON answers of the handlers, as the early returns of a chain.
use dynastytrust.Prelude.{
  ℕ, String, Bool, true, false, Option, none, some, ◌≡◌, refl, ap, if◌then◌else◌, str_eq,
}

-- A handler's answer so far: `refused` is `return json(code, { error })`.
pub data Outcome {v} (V : Type v) : Type v where
  refused : ℕ → String → Outcome V
  done : V → Outcome V

infixl 5 ◌>>=◌
abbrev pub ◌>>=◌ {v w} : {V : Type v} {W : Type w} → Outcome V → (V → Outcome W) → Outcome W
refused code message >>= next = refused code message
done value >>= next = next value

infixl 5 ◌>>◌
abbrev pub ◌>>◌ {w} : {W : Type w} → Outcome (Unit {0}) → Outcome W → Outcome W
refused code message >> later = refused code message
done u >> later = later

pub >>=-eq-done {v w} :
    {V : Type v} {W : Type w} (m : Outcome V) (next : V → Outcome W) {b : W}
    → (m >>= next) ≡ done b
    → (a : V) × (m ≡ done a) × (next a ≡ done b)
>>=-eq-done (refused code message) next h = cc
>>=-eq-done (done a) next h = (a, refl, h)

pub >>-eq-done {w} :
    {W : Type w} (m : Outcome (Unit {0})) (later : Outcome W) {b : W}
    → (m >> later) ≡ done b
    → (m ≡ done tt) × (later ≡ done b)
>>-eq-done (refused code message) later h = cc
>>-eq-done (done u) later h = (refl, h)

-- `if (!passes) return json(code, { error: message });`
abbrev pub unless : Bool → ℕ → String → Outcome (Unit {0})
unless true code message = done tt
unless false code message = refused code message

-- `if (error) return json(code, { error });`
abbrev pub no_error : Option String → ℕ → Outcome (Unit {0})
no_error none code = done tt
no_error (some message) code = refused code message

-- `if (!value) return json(code, { error: message });`
abbrev pub found {v} : {V : Type v} → Option V → ℕ → String → Outcome V
found none code message = refused code message
found (some value) code message = done value

-- An absent text and the empty one are both false.
abbrev pub truthy : Option String → Option String
truthy none = none
truthy (some s) = if str_eq s "" then none else some s

-- `requireUser`: the user's id, or nothing where the token is missing or not accepted.
abbrev pub require_user : Option String → Outcome String
require_user user = found user 401 "Invalid or expired token"

abbrev value_or {ℓ} : {A : Type ℓ} → A → Outcome A → A
value_or a (done b) = b
value_or a (refused code message) = a

pub done-injective {ℓ} : {A : Type ℓ} {a b : A} → done a ≡ done b → a ≡ b
done-injective {a = a} e = ap (value_or a) e
