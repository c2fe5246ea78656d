-- ===== src/Liveness/Quorum.antt =====
-- apps/web/src/lib/liveness-gate.ts with the signing gate: what an allowed spend says of the circle.
use dynastytrust.Prelude.{
  ℕ, ℤ, suc, ◌≤◌, pos, String, true, Option, none, some, List, [], ◌∷◌, map, All, ◌≤ℤ◌, ◌≡◌, ◌≢◌,
  ◌∙◌, arith,
}
use dynastytrust.Policy.Gate.{LivenessState, green, red, SigningGateInput, evaluate_signing_gate}
use dynastytrust.Policy.Gate.Allow.{evaluate_signing_gate_iff, greens}
use dynastytrust.Liveness.{VaultLivenessConfig, Attest, member_state, assemble_liveness_gate_input}

All-map_red :
    (f : String → LivenessState) (xs : List String)
    → All (λ s. s ≢ red) (map f xs)
    → All (λ x. f x ≢ red) xs
All-map_red f [] h = tt
All-map_red f (x ∷ xs) (p, h) = (p, All-map_red f xs h)

module _ (lib : Attest) where
  open lib use {ProofOfLife, DuressFlag, liveness_state_for}

  -- How many members of the circle have sent a proof of life.
  abbrev pub heard : (String → Option ProofOfLife) → List String → ℕ
  heard proofs [] = 0
  heard proofs (x ∷ xs) = elim (proofs x) [
    | none ↦ heard proofs xs
    | some p ↦ suc (heard proofs xs)
  ]

  -- Documented of the library: without a proof of life a member is never green.
  abbrev pub SilentIsNotGreen : Type 0
  SilentIsNotGreen =
      (subject : String) (group : List String) (flags : List DuressFlag) (ttl : ℕ) (now : Option ℕ)
      → liveness_state_for subject group none flags ttl now ≢ green

  greens-le-heard :
      SilentIsNotGreen
      → (config : VaultLivenessConfig) (proofs : String → Option ProofOfLife)
        (flags : List DuressFlag) (now : Option ℕ) (xs : List String)
      → greens (map (member_state lib config proofs flags now) xs) ≤ heard proofs xs
  greens-le-heard silent config proofs flags now [] = omega arith
  greens-le-heard silent config proofs flags now (x ∷ xs) =
      let rest = greens-le-heard silent config proofs flags now xs in
      ground (arith, rest, silent x config.circle flags config.ttl_seconds now)

  -- What an allowed spend on a configured path says of the circle.
  pub record Quorum (config : VaultLivenessConfig) (proofs : String → Option ProofOfLife)
      (flags : List DuressFlag) (now : Option ℕ) (required : ℤ) : Type 0 where
    pub no_red : All (λ x. member_state lib config proofs flags now x ≢ red) config.circle
    pub enough_heard : required ≤ℤ pos (heard proofs config.circle)

  assemble-some :
      (config : VaultLivenessConfig) (path : String) (proofs : String → Option ProofOfLife)
      (flags : List DuressFlag) (now : Option ℕ) (required : ℤ)
      → config.required_green_by_path path ≡ some required
      → assemble_liveness_gate_input lib config path proofs flags now
        ≡ some (record {
          member_states = map (member_state lib config proofs flags now) config.circle;
          required_green = required;
        })
  unfolding assemble_liveness_gate_input
  assemble-some config path proofs flags now required e = rw e

  -- Where the gate is fed by the assembler, on a path with a required number of greens, and allows
  -- the spend, nobody in the circle is red, and at least the required number of the circle's
  -- members have sent a proof of life, provided that the attestation library never calls a member
  -- green who has sent none.
  pub assemble-Quorum :
      SilentIsNotGreen
      → (config : VaultLivenessConfig) (path : String) (proofs : String → Option ProofOfLife)
        (flags : List DuressFlag) (now : Option ℕ) (required : ℤ) (input : SigningGateInput)
        (time : ℕ)
      → config.required_green_by_path path ≡ some required
      → input.liveness ≡ assemble_liveness_gate_input lib config path proofs flags now
      → (evaluate_signing_gate input time).allow ≡ true
      → Quorum config proofs flags now required
  assemble-Quorum silent config path proofs flags now required input time gated fed h =
      let a = (evaluate_signing_gate_iff input time).0 h in
      let alive =
        a.in_force.alive _ (fed ∙ assemble-some config path proofs flags now required gated) in
      record {
        no_red = All-map_red (member_state lib config proofs flags now) config.circle alive.no_red;
        enough_heard =
            omega
              (arith, alive.enough, greens-le-heard silent config proofs flags now config.circle);
      }
