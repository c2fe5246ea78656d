-- ===== src/Outbox/Durable.antt =====
-- apps/web/src/lib/nostrOutbox.ts with its worker: what is put into the queue is not lost, where no two
-- enqueues overlap at the index.
use dynastytrust.Prelude.{
  ℕ, String, Option, none, some, List, [], ◌∷◌, ◌++◌, if◌then◌else◌, ltb, ◌≡◌, ◌⊎◌, inl, inr, refl,
  sym, ◌∙◌, arith, eq_iff, Bool-cases,
}
use dynastytrust.Outbox.{
  Platform, PublishResult, answer, Outcome, published, threw, is_pending, OutboxRow, Store,
  EnqueueInput, put_row, new_row, next_attempt_due, pending_rows, update_pending, mark_attempt,
  mark_sent, record_outcome, attempt_send,
}
use dynastytrust.Outbox.Steps.{
  empty_store, RowStep, row_step, row_steps, Step, step, run, Delivered, storing, attempting,
  on_row, indexing,
}
use dynastytrust.Outbox.Queued.{stored-Queued, write_index-row, run-Queued}
use dynastytrust.Outbox.Listed.{
  Listed, indexing-Listed, run-Listed, Among, Among-rows_of, Among-only_pending,
}

module _ (platform : Platform) where
  open platform use {event_id}

  -- Every row stands under its own id.
  abbrev Keyed : Store platform → Type 0
  Keyed s = (id : String) (r : OutboxRow platform) → s.row id ≡ some r → r.id ≡ id

  put_row-Keyed :
      (key : String) (r : OutboxRow platform) (s : Store platform)
      → r.id ≡ key
      → Keyed s
      → Keyed (put_row platform key r s)
  unfolding put_row
  put_row-Keyed key r s e k id q h = ground (arith, eq_iff id key, k id q)

  update_pending-Keyed :
      (key : String) (change : OutboxRow platform → OutboxRow platform)
      (o : Option (OutboxRow platform)) (s : Store platform)
      → s.row key ≡ o
      → ((r : OutboxRow platform) → (change r).id ≡ r.id)
      → Keyed s
      → Keyed (update_pending platform key change o s)
  update_pending-Keyed key change none s e same k = k
  update_pending-Keyed key change (some r) s e same k = elim (Bool-cases (is_pending r.state)) [
    | inl p ↦ rw (p, if◌then◌else◌) (put_row-Keyed key (change r) s (same r ∙ k key r e) k)
    | inr p ↦ rw (p, if◌then◌else◌) k
  ]

  answer-Keyed :
      (now : ℕ) (key : String) (p : PublishResult) (relays : List String) (s : Store platform)
      → Keyed s
      → Keyed (answer platform now key p relays s)
  unfolding mark_attempt mark_sent
  answer-Keyed now key p [] s k = update_pending-Keyed key _ (s.row key) s refl (λ r. refl) k
  answer-Keyed now key p (relay ∷ relays) s k =
      update_pending-Keyed key _ (s.row key) s refl (λ r. refl) k

  record_outcome-Keyed :
      (now : ℕ) (key : String) (outcome : Outcome) (s : Store platform)
      → Keyed s
      → Keyed (record_outcome platform now key outcome s)
  unfolding record_outcome mark_attempt
  record_outcome-Keyed now key (threw message) s k =
      update_pending-Keyed key _ (s.row key) s refl (λ r. refl) k
  record_outcome-Keyed now key (published p) s k = answer-Keyed now key p p.accepted s k

  row_step-Keyed :
      (a : RowStep platform) (s : Store platform) → Keyed s → Keyed (row_step platform a s)
  unfolding row_step attempt_send
  row_step-Keyed (storing now input) s k =
      put_row-Keyed (event_id input.event) (new_row platform now input) s refl k
  row_step-Keyed (attempting now r outcome) s k =
      elim (Bool-cases (ltb now (next_attempt_due platform r))) [
        | inl early ↦ rw (early, if◌then◌else◌) k
        | inr due ↦ rw (due, if◌then◌else◌) (record_outcome-Keyed now r.id outcome s k)
      ]

  row_steps-Keyed :
      (more : List (RowStep platform)) (s : Store platform)
      → Keyed s
      → Keyed (row_steps platform more s)
  unfolding row_steps
  row_steps-Keyed [] s k = k
  row_steps-Keyed (a ∷ more) s k =
      row_steps-Keyed more (row_step platform a s) (row_step-Keyed a s k)

  step-Keyed : (a : Step platform) (s : Store platform) → Keyed s → Keyed (step platform a s)
  unfolding step
  step-Keyed (on_row a) s k = row_step-Keyed a s k
  step-Keyed (indexing key between) s k = λ id r h.
      row_steps-Keyed between s k id r
        (sym (write_index-row platform key id s.index (row_steps platform between s)) ∙ h)

  run-Keyed :
      (more : List (Step platform)) (s : Store platform) → Keyed s → Keyed (run platform more s)
  unfolding run
  run-Keyed [] s k = k
  run-Keyed (a ∷ more) s k = run-Keyed more (step platform a s) (step-Keyed a s k)

  indexed-Listed :
      (middle later : List (Step platform)) (between : List (RowStep platform)) (id : String)
      (s : Store platform)
      → Listed platform id (run platform (middle ++ indexing id between ∷ later) s)
  unfolding run
  indexed-Listed [] later between id s =
      run-Listed platform later (step platform (indexing id between) s) id
        (indexing-Listed platform id id between s (inl refl))
  indexed-Listed (a ∷ middle) later between id s =
      indexed-Listed middle later between id (step platform a s)

  -- An event that is put into the queue, by storing its row and, after any other steps, reading the
  -- index and writing it back with its id, is after any further steps among the rows that the worker
  -- reads as pending, under its id, unless an attempt for that id after the row was stored is accepted
  -- by a relay. Steps of other enqueues and attempts may come before, between and after, also between
  -- the reading and the writing of an index; only another reading or writing of the index may not, and
  -- the marks of an attempt are one step.
  pub enqueue-durable :
      (before middle later : List (Step platform)) (between : List (RowStep platform)) (now : ℕ)
      (input : EnqueueInput platform)
      → Delivered platform
          (event_id input.event)
          (middle ++ indexing (event_id input.event) between ∷ later)
        ⊎ ((r : OutboxRow platform) × (r.id ≡ event_id input.event)
            × Among platform r (
                pending_rows platform (
                  run platform (middle ++ indexing (event_id input.event) between ∷ later) (
                    row_step platform
                      (storing now input)
                      (run platform before (empty_store platform))))))
  unfolding row_step
  enqueue-durable before middle later between now input =
      let id = event_id input.event in
      let new = new_row platform now input in
      let s = row_step platform (storing now input) (run platform before (empty_store platform)) in
      let more = middle ++ indexing id between ∷ later in
      let k = run-Keyed more s (
        row_step-Keyed (storing now input) (run platform before (empty_store platform))
          (run-Keyed before (empty_store platform) (λ i q e. cc))) in
      elim (run-Queued platform more s id
        (stored-Queued platform now input (run platform before (empty_store platform)))) [
          | inl d ↦ inl d
          | inr (r, there, p) ↦ inr (
            r,
            k id r there,
            Among-only_pending platform _ r p
                (Among-rows_of platform _ _ id r there (indexed-Listed middle later between id s)),
          )
        ]
