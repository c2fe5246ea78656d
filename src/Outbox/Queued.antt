-- ===== src/Outbox/Queued.antt =====
-- apps/web/src/lib/nostrOutbox.ts with its worker: a row that is not sent stays until it is.
use dynastytrust.Prelude.{
  ℕ, String, true, Option, none, some, List, [], ◌∷◌, if◌then◌else◌, ltb, ◌≡◌, ◌≢◌, ◌⊎◌, inl, inr,
  refl, sym, ◌∙◌, arith, eq_iff, str_eq, Bool-cases,
}
use dynastytrust.Outbox.{
  Platform, write_index, answer, Outcome, published, threw, is_pending, OutboxRow, Store,
  EnqueueInput, put_row, new_row, next_attempt_due, update_pending, mark_attempt, mark_sent,
  record_outcome, attempt_send,
}
use dynastytrust.Outbox.Steps.{
  RowStep, row_step, row_steps, Step, step, run, Delivers, DeliveredIn, Delivered, storing,
  attempting, on_row, indexing,
}

module _ (platform : Platform) where
  open platform use {event_id}

  -- A row that is not sent stands under the id.
  abbrev Queued : String → Store platform → Type 0
  Queued id s = (r : OutboxRow platform) × (s.row id ≡ some r) × (is_pending r.state ≡ true)

  put_row-Queued :
      (id key : String) (r : OutboxRow platform) (s : Store platform)
      → is_pending r.state ≡ true
      → Queued id s
      → Queued id (put_row platform key r s)
  unfolding put_row
  put_row-Queued id key r s p (q, e, h) = elim (Bool-cases (str_eq id key)) [
    | inl same ↦ (r, rw (same, if◌then◌else◌) refl, p)
    | inr other ↦ (q, rw (other, if◌then◌else◌) e, h)
  ]

  update_pending-Queued :
      (key id : String) (change : OutboxRow platform → OutboxRow platform)
      (o : Option (OutboxRow platform)) (s : Store platform)
      → ((r : OutboxRow platform) → is_pending r.state ≡ true → is_pending (change r).state ≡ true)
      → Queued id s
      → Queued id (update_pending platform key change o s)
  update_pending-Queued key id change none s still q = q
  update_pending-Queued key id change (some r) s still q = elim (Bool-cases (is_pending r.state)) [
    | inl p ↦ rw (p, if◌then◌else◌) (put_row-Queued id key (change r) s (still r p) q)
    | inr p ↦ rw (p, if◌then◌else◌) q
  ]

  mark_attempt-Queued :
      (now : ℕ) (key : String) (error : Option String) (s : Store platform) (id : String)
      → Queued id s
      → Queued id (mark_attempt platform now key error s)
  unfolding mark_attempt
  mark_attempt-Queued now key error s id q =
      update_pending-Queued key id _ (s.row key) s (λ r p. p) q

  pub put_row-other :
      (key id : String) (r : OutboxRow platform) (s : Store platform)
      → id ≢ key
      → (put_row platform key r s).row id ≡ s.row id
  unfolding put_row
  put_row-other key id r s other = ground (arith, eq_iff id key)

  pub update_pending-other :
      (key id : String) (change : OutboxRow platform → OutboxRow platform)
      (o : Option (OutboxRow platform)) (s : Store platform)
      → id ≢ key
      → (update_pending platform key change o s).row id ≡ s.row id
  update_pending-other key id change none s other = refl
  update_pending-other key id change (some r) s other = elim (Bool-cases (is_pending r.state)) [
    | inl p ↦ rw (p, if◌then◌else◌) (put_row-other key id (change r) s other)
    | inr p ↦ rw (p, if◌then◌else◌) refl
  ]

  -- An answer keeps the row in the queue, unless it is the row's and a relay has accepted.
  record_outcome-Queued :
      (now : ℕ) (key id : String) (outcome : Outcome) (s : Store platform) (r : OutboxRow platform)
      → r.id ≡ key
      → Queued id s
      → Delivers platform id (attempting now r outcome)
        ⊎ Queued id (record_outcome platform now key outcome s)
  unfolding record_outcome mark_sent
  record_outcome-Queued now key id (threw message) s r e q =
      inr (mark_attempt-Queued now key _ s id q)
  record_outcome-Queued now key id (published p) s r e q = answered p.accepted refl
    where
      answered :
          (relays : List String)
          → p.accepted ≡ relays
          → ((r.id ≡ id) × (p.accepted ≢ [])) ⊎ Queued id (answer platform now key p relays s)
      answered [] f = inr (mark_attempt-Queued now key _ s id q)
      answered (relay ∷ more) f = elim (Bool-cases (str_eq id key)) [
        | inl same ↦ inl (e ∙ sym ((eq_iff id key).0 same), λ none_left. cc)
        | inr differs ↦
            let (w, there, p) = q in
            inr (
              w,
              update_pending-other key id _ (s.row key) s (λ i. ground (arith, eq_iff id key))
                  ∙ there,
              p,
            )
      ]

  row_step-Queued :
      (a : RowStep platform) (s : Store platform) (id : String)
      → Queued id s
      → Delivers platform id a ⊎ Queued id (row_step platform a s)
  unfolding row_step attempt_send
  row_step-Queued (storing now input) s id q =
      inr (put_row-Queued id (event_id input.event) (new_row platform now input) s refl q)
  row_step-Queued (attempting now r outcome) s id q =
      elim (Bool-cases (ltb now (next_attempt_due platform r))) [
        | inl early ↦ inr (rw (early, if◌then◌else◌) q)
        | inr due ↦ rw (due, if◌then◌else◌) (record_outcome-Queued now r.id id outcome s r refl q)
      ]

  row_steps-Queued :
      (more : List (RowStep platform)) (s : Store platform) (id : String)
      → Queued id s
      → DeliveredIn platform id more ⊎ Queued id (row_steps platform more s)
  unfolding row_steps
  row_steps-Queued [] s id q = inr q
  row_steps-Queued (a ∷ more) s id q = elim (row_step-Queued a s id q) [
    | inl d ↦ inl (inl d)
    | inr q' ↦ elim (row_steps-Queued more (row_step platform a s) id q') [
      | inl d ↦ inl (inr d)
      | inr r ↦ inr r
    ]
  ]

  pub stored-Queued :
      (now : ℕ) (input : EnqueueInput platform) (s : Store platform)
      → Queued (event_id input.event) (row_step platform (storing now input) s)
  unfolding row_step put_row
  stored-Queued now input s =
      let same : str_eq (event_id input.event) (event_id input.event) ≡ true =
        (eq_iff _ _).1 refl in
      (new_row platform now input, rw (same, if◌then◌else◌) refl, refl)

  pub write_index-row :
      (key id : String) (seen : List String) (s : Store platform)
      → (write_index platform key seen s).row id ≡ s.row id
  unfolding write_index
  write_index-row key id seen s = ground arith

  indexing-Queued :
      (key : String) (between : List (RowStep platform)) (s : Store platform) (id : String)
      → Queued id s
      → DeliveredIn platform id between ⊎ Queued id (step platform (indexing key between) s)
  unfolding step
  indexing-Queued key between s id q = elim (row_steps-Queued between s id q) [
    | inl d ↦ inl d
    | inr (r, there, p) ↦
        inr (r, write_index-row key id s.index (row_steps platform between s) ∙ there, p)
  ]

  pub run-Queued :
      (more : List (Step platform)) (s : Store platform) (id : String)
      → Queued id s
      → Delivered platform id more ⊎ Queued id (run platform more s)
  unfolding run step
  run-Queued [] s id q = inr q
  run-Queued (on_row a ∷ more) s id q = elim (row_step-Queued a s id q) [
    | inl d ↦ inl (inl d)
    | inr q' ↦ elim (run-Queued more (row_step platform a s) id q') [
      | inl d ↦ inl (inr d)
      | inr r ↦ inr r
    ]
  ]
  run-Queued (indexing key between ∷ more) s id q = elim (indexing-Queued key between s id q) [
    | inl d ↦ inl (inl d)
    | inr q' ↦ elim (run-Queued more (step platform (indexing key between) s) id q') [
      | inl d ↦ inl (inr d)
      | inr r ↦ inr r
    ]
  ]
