-- ===== src/Outbox/Steps.antt =====
-- apps/web/src/lib/nostrOutbox.ts with its worker: the steps of several enqueues and attempts, in any
-- order but for the index, which one enqueue reads and writes at a time.
use dynastytrust.Prelude.{ℕ, String, none, List, [], ◌∷◌, ◌≡◌, ◌≢◌, ◌⊎◌}
use dynastytrust.Outbox.{
  Platform, write_index, Outcome, published, threw, OutboxRow, Store, EnqueueInput, put_row,
  new_row, attempt_send,
}

module _ (platform : Platform) where
  open platform use {event_id}

  abbrev pub empty_store : Store platform
  empty_store = record { index = []; row = λ key. none }

  -- What the rows undergo: an enqueue stores its row, or the worker makes an attempt, with any row that
  -- it has read before and any outcome.
  pub data RowStep : Type 0 where
    storing : ℕ → EnqueueInput platform → RowStep
    attempting : ℕ → OutboxRow platform → Outcome → RowStep

  unfoldable pub row_step : RowStep → Store platform → Store platform
  row_step (storing now input) s =
      put_row platform (event_id input.event) (new_row platform now input) s
  row_step (attempting now r outcome) s = attempt_send platform now r outcome s

  unfoldable pub row_steps : List RowStep → Store platform → Store platform
  row_steps [] s = s
  row_steps (a ∷ more) s = row_steps more (row_step a s)

  -- A step of the queue: one of a row, or an enqueue reads the index, steps of rows come between, and
  -- it writes the index that it read, with its id.
  pub data Step : Type 0 where
    on_row : RowStep → Step
    indexing : String → List RowStep → Step

  unfoldable pub step : Step → Store platform → Store platform
  step (on_row a) s = row_step a s
  step (indexing id between) s = write_index platform id s.index (row_steps between s)

  unfoldable pub run : List Step → Store platform → Store platform
  run [] s = s
  run (a ∷ more) s = run more (step a s)

  -- A relay accepted the event of the id.
  abbrev pub Delivers : String → RowStep → Type 0
  Delivers id (storing now input) = ⊥
  Delivers id (attempting now r (threw message)) = ⊥
  Delivers id (attempting now r (published p)) = (r.id ≡ id) × (p.accepted ≢ [])

  abbrev pub DeliveredIn : String → List RowStep → Type 0
  DeliveredIn id [] = ⊥
  DeliveredIn id (a ∷ more) = Delivers id a ⊎ DeliveredIn id more

  abbrev pub Delivered : String → List Step → Type 0
  Delivered id [] = ⊥
  Delivered id (on_row a ∷ more) = Delivers id a ⊎ Delivered id more
  Delivered id (indexing key between ∷ more) = DeliveredIn id between ⊎ Delivered id more
