-- ===== src/Policy/Gate/Allow.antt =====
-- packages/policy-engine/src/index.ts: when the signing gate lets a spend through.
use dynastytrust.Prelude.{
  ℕ, suc, ◌+◌, ◌≤◌, pos, Bool, true, false, ◌&&◌, is_some, Option, none, some, List, [], ◌∷◌, All,
  ◌≤ℤ◌, ◌≡◌, ◌≢◌, ◌⊎◌, ◌↔◌, refl, arith, eq_iff,
}
use mathlib.Core.Path.{subst}
use dynastytrust.Policy.Messages.{IsEmpty, is_empty, append_iff, when_iff, when-not_iff}
use dynastytrust.Policy.Gate.{
  CeremonyStatus, pending, approved, signing, SigningCeremony, LivenessState, green, no_report, red,
  LivenessInput, SigningGateInput, is_signable, is_expired, is_refused, count_states,
  liveness_denials, binding_denials, state_denials, gate_denials, evaluate_signing_gate,
}

-- How many members are green.
abbrev pub greens : List LivenessState → ℕ
greens [] = 0
greens (green ∷ states) = suc (greens states)
greens (_ ∷ states) = greens states

-- Nobody is red, and enough members are green.
pub record IsAlive (l : LivenessInput) : Type 0 where
  pub no_red : All (λ s. s ≢ red) l.member_states
  pub enough : l.required_green ≤ℤ pos (greens l.member_states)

-- The spend is the one that the ceremony names, on the vault of both.
pub record IsBound (input : SigningGateInput) (ceremony : SigningCeremony) : Type 0 where
  pub inputs : input.psbt_binds_to_vault ≡ true
  pub ceremony_vault : ceremony.vault_id ≡ input.vault.vault_id
  pub request_vault : input.request.vault_id ≡ input.vault.vault_id
  pub psbt_hash : input.request.psbt_hash ≡ ceremony.authorized_psbt_hash
  pub destination : input.request.destination ≡ ceremony.destination
  pub amount_sats : input.request.amount_sats ≡ ceremony.amount_sats
  pub path : input.request.path ≡ ceremony.path

-- Nothing about the ceremony, the governance or the circle stands against signing now.
pub record IsOpen (input : SigningGateInput) (ceremony : SigningCeremony) (now : ℕ) : Type 0 where
  pub signable :
      (ceremony.status ≡ pending) ⊎ ((ceremony.status ≡ approved) ⊎ (ceremony.status ≡ signing))
  pub calm : ceremony.duress ≡ false
  pub fresh : (t : ℕ) → ceremony.expires_at ≡ some t → now ≤ t
  pub governed : input.governance_approved ≢ some false
  pub alive : (l : LivenessInput) → input.liveness ≡ some l → IsAlive l

pub record IsAuthorised (input : SigningGateInput) (now : ℕ) : Type 0 where
  pub ceremony : SigningCeremony
  pub present : input.ceremony ≡ some ceremony
  pub bound : IsBound input ceremony
  pub in_force : IsOpen input ceremony now

binding_iff :
    (input : SigningGateInput) (c : SigningCeremony)
    → IsEmpty (binding_denials input c) ↔ IsBound input c
unfolding binding_denials
binding_iff input c = ground (
  arith,
  eq_iff c.vault_id input.vault.vault_id,
  eq_iff input.request.vault_id input.vault.vault_id,
  eq_iff input.request.psbt_hash c.authorized_psbt_hash,
  eq_iff input.request.destination c.destination,
  eq_iff input.request.path c.path,
)

signable_iff :
    (s : CeremonyStatus)
    → (is_signable s ≡ true) ↔ ((s ≡ pending) ⊎ ((s ≡ approved) ⊎ (s ≡ signing)))
signable_iff s = ground arith

expired_iff :
    (now : ℕ) (o : Option ℕ) → (is_expired now o ≡ false) ↔ ((t : ℕ) → o ≡ some t → now ≤ t)
expired_iff now none = ((λ h t e. cc), λ h. refl)
expired_iff now (some u) = ((λ h t e. ground arith), λ h. ground (arith, h u refl))

refused_iff : (o : Option Bool) → (is_refused o ≡ false) ↔ (o ≢ some false)
refused_iff o = ground arith

-- The loop adds the greens to its first counter, and leaves its second alone exactly without reds.
count_greens : (g r : ℕ) (ss : List LivenessState) → (count_states g r ss).0 ≡ g + greens ss
unfolding count_states
count_greens g r [] = omega arith
count_greens g r (green ∷ ss) = omega (arith, count_greens (suc g) r ss)
count_greens g r (no_report ∷ ss) = count_greens g r ss
count_greens g r (red ∷ ss) = count_greens g (suc r) ss

count-le : (g r : ℕ) (ss : List LivenessState) → r ≤ (count_states g r ss).1
unfolding count_states
count-le g r [] = omega arith
count-le g r (green ∷ ss) = count-le (suc g) r ss
count-le g r (no_report ∷ ss) = count-le g r ss
count-le g r (red ∷ ss) = omega (arith, count-le g (suc r) ss)

count_reds_iff :
    (g r : ℕ) (ss : List LivenessState) → ((count_states g r ss).1 ≡ r) ↔ All (λ s. s ≢ red) ss
unfolding count_states
count_reds_iff g r [] = ((λ h. tt), λ h. refl)
count_reds_iff g r (green ∷ ss) = ground (arith, count_reds_iff (suc g) r ss)
count_reds_iff g r (no_report ∷ ss) = ground (arith, count_reds_iff g r ss)
count_reds_iff g r (red ∷ ss) =
    ((λ h. absurd (omega (arith, count-le g (suc r) ss))), λ (no_red, h). absurd (no_red refl))

liveness_iff :
    (o : Option LivenessInput)
    → IsEmpty (liveness_denials o) ↔ ((l : LivenessInput) → o ≡ some l → IsAlive l)
unfolding liveness_denials
liveness_iff none = ((λ h l e. cc), λ h. refl)
liveness_iff (some l) = (
  (λ h k e.
      let same : l ≡ k = cc in
      subst IsAlive same (record {
        no_red = (count_reds_iff 0 0 l.member_states).0 (ground arith);
        enough = ground (arith, count_greens 0 0 l.member_states);
      })),
  (λ h.
      let a = h l refl in
      ground (
        arith,
        count_greens 0 0 l.member_states,
        (count_reds_iff 0 0 l.member_states).1 a.no_red,
        a.enough,
      )),
)

state_iff :
    (input : SigningGateInput) (c : SigningCeremony) (now : ℕ)
    → IsEmpty (state_denials input c now) ↔ IsOpen input c now
unfolding state_denials
state_iff input c now = (
  (λ h.
      let (a, rest) = (append_iff _ _).0 h in
      let (b, more) = (append_iff _ _).0 rest in
      let (d, others) = (append_iff _ _).0 more in
      let (e, f) = (append_iff _ _).0 others in
      record {
        signable = (signable_iff c.status).0 ((when-not_iff _ _).0 a);
        calm = (when_iff _ _).0 b;
        fresh = (expired_iff now c.expires_at).0 ((when_iff _ _).0 d);
        governed = (refused_iff input.governance_approved).0 ((when_iff _ _).0 e);
        alive = (liveness_iff input.liveness).0 f;
      }),
  (λ o. (append_iff _ _).1 (
    (when-not_iff _ _).1 ((signable_iff c.status).1 o.signable),
    (append_iff _ _).1 (
      (when_iff _ _).1 o.calm,
      (append_iff _ _).1 (
        (when_iff _ _).1 ((expired_iff now c.expires_at).1 o.fresh),
        (append_iff _ _).1 (
          (when_iff _ _).1 ((refused_iff input.governance_approved).1 o.governed),
          (liveness_iff input.liveness).1 o.alive,
        ),
      ),
    ),
  )),
)

allow-IsAuthorised :
    (input : SigningGateInput) (now : ℕ) (o : Option SigningCeremony)
    → input.ceremony ≡ o
    → (is_some o && is_empty (gate_denials input now o)) ≡ true
    → IsAuthorised input now
unfolding gate_denials
allow-IsAuthorised input now none e h = cc
allow-IsAuthorised input now (some c) e h =
    let (a, b) = (append_iff _ _).0 h in
    record {
      ceremony = c;
      present = e;
      bound = (binding_iff input c).0 a;
      in_force = (state_iff input c now).0 b;
    }

-- The gate allows a spend exactly when a ceremony is there that the spend matches in every binding
-- (vault, digest, destination, amount, path, inputs), that is signable, without duress and not
-- expired, while governance has not refused and, where the circle is asked, nobody is red and
-- enough members are green.
pub evaluate_signing_gate_iff :
    (input : SigningGateInput) (now : ℕ)
    → ((evaluate_signing_gate input now).allow ≡ true) ↔ IsAuthorised input now
unfolding evaluate_signing_gate
evaluate_signing_gate_iff input now = (
  (λ h. allow-IsAuthorised input now input.ceremony refl h),
  (λ a.
      rw (a.present, gate_denials)
        ((append_iff _ _).1 (
          (binding_iff input a.ceremony).1 a.bound,
          (state_iff input a.ceremony now).1 a.in_force,
        ))),
)
