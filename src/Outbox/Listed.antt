-- ===== src/Outbox/Listed.antt =====
-- apps/web/src/lib/nostrOutbox.ts: the index keeps its ids, and the pending rows are those it lists.
use dynastytrust.Prelude.{
  ℕ, String, true, Option, none, some, List, [], ◌∷◌, any, if◌then◌else◌, ltb, ◌≡◌, ◌⊎◌, ◌||◌,
  false, inl, inr, refl, ◌∙◌, ap, arith, eq_iff, str_eq, Bool-cases,
}
use dynastytrust.Outbox.{
  Platform, PublishResult, write_index, answer, Outcome, published, threw, is_pending, OutboxRow,
  Store, put_row, next_attempt_due, rows_of, only_pending, update_pending, mark_attempt, mark_sent,
  record_outcome, attempt_send,
}
use dynastytrust.Outbox.Keyed.{any-append}
use dynastytrust.Outbox.Steps.{
  RowStep, row_step, row_steps, Step, step, run, storing, attempting, on_row, indexing,
}

module _ (platform : Platform) where
  update_pending-index :
      (key : String) (change : OutboxRow platform → OutboxRow platform)
      (o : Option (OutboxRow platform)) (s : Store platform)
      → (update_pending platform key change o s).index ≡ s.index
  unfolding put_row
  update_pending-index key change none s = refl
  update_pending-index key change (some r) s = ground arith

  answer-index :
      (now : ℕ) (key : String) (p : PublishResult) (relays : List String) (s : Store platform)
      → (answer platform now key p relays s).index ≡ s.index
  unfolding mark_attempt mark_sent
  answer-index now key p [] s = update_pending-index key _ (s.row key) s
  answer-index now key p (relay ∷ relays) s = update_pending-index key _ (s.row key) s

  record_outcome-index :
      (now : ℕ) (key : String) (outcome : Outcome) (s : Store platform)
      → (record_outcome platform now key outcome s).index ≡ s.index
  unfolding record_outcome mark_attempt
  record_outcome-index now key (threw message) s = update_pending-index key _ (s.row key) s
  record_outcome-index now key (published p) s = answer-index now key p p.accepted s

  row_step-index :
      (a : RowStep platform) (s : Store platform) → (row_step platform a s).index ≡ s.index
  unfolding row_step put_row attempt_send
  row_step-index (storing now input) s = refl
  row_step-index (attempting now r outcome) s =
      elim (Bool-cases (ltb now (next_attempt_due platform r))) [
        | inl early ↦ rw (early, if◌then◌else◌) refl
        | inr due ↦ rw (due, if◌then◌else◌) (record_outcome-index now r.id outcome s)
      ]

  row_steps-index :
      (more : List (RowStep platform)) (s : Store platform)
      → (row_steps platform more s).index ≡ s.index
  unfolding row_steps
  row_steps-index [] s = refl
  row_steps-index (a ∷ more) s = row_steps-index more (row_step platform a s) ∙ row_step-index a s

  -- The index has the id.
  abbrev pub Listed : String → Store platform → Type 0
  Listed id s = any (λ l. str_eq l id) s.index ≡ true

  pub indexing-Listed :
      (key id : String) (between : List (RowStep platform)) (s : Store platform)
      → (id ≡ key) ⊎ Listed id s
      → Listed id (step platform (indexing key between) s)
  unfolding step write_index
  indexing-Listed key id between s h =
      let kept = row_steps-index between s in
      let long = any-append id s.index (key ∷ []) in
      elim (Bool-cases (any (λ l. str_eq l key) s.index)) [
        | inl there ↦
            let before : Listed id s = elim h [ inl e ↦ rw e there | inr l ↦ l ] in
            rw (there, if◌then◌else◌, kept) before
        | inr absent ↦
            let now : (any (λ l. str_eq l id) s.index || (str_eq key id || false)) ≡ true = elim h [
              | inl e ↦ ground (arith, eq_iff key id)
              | inr l ↦ ground arith
            ] in
            rw (absent, if◌then◌else◌) (long ∙ now)
      ]

  pub run-Listed :
      (more : List (Step platform)) (s : Store platform) (id : String)
      → Listed id s
      → Listed id (run platform more s)
  unfolding run step
  run-Listed [] s id l = l
  run-Listed (on_row a ∷ more) s id l =
      run-Listed more (row_step platform a s) id (rw (row_step-index a s) l)
  run-Listed (indexing key between ∷ more) s id l =
      run-Listed more (step platform (indexing key between) s) id
        (indexing-Listed key id between s (inr l))

  -- One of the rows.
  abbrev pub Among : OutboxRow platform → List (OutboxRow platform) → Type 0
  Among r [] = ⊥
  Among r (q ∷ qs) = (q ≡ r) ⊎ Among r qs

  Among-later :
      (r : OutboxRow platform) (o : Option (OutboxRow platform)) (later : List (OutboxRow platform))
      → Among r later
      → Among r (elim o [ none ↦ later | some q ↦ q ∷ later ])
  Among-later r none later m = m
  Among-later r (some q) later m = inr m

  pub Among-rows_of :
      (row : String → Option (OutboxRow platform)) (ids : List String) (id : String)
      (r : OutboxRow platform)
      → row id ≡ some r
      → any (λ l. str_eq l id) ids ≡ true
      → Among r (rows_of platform row ids)
  unfolding rows_of
  Among-rows_of row [] id r e h = absurd (ground arith)
  Among-rows_of row (i ∷ ids) id r e h = elim (Bool-cases (str_eq i id)) [
    | inl same ↦
        let here : row i ≡ some r = ap row ((eq_iff i id).0 same) ∙ e in
        rw (here, rows_of) (inl refl)
    | inr other ↦
        Among-later r (row i) (rows_of platform row ids)
          (Among-rows_of row ids id r e (ground arith))
  ]

  pub Among-only_pending :
      (rs : List (OutboxRow platform)) (r : OutboxRow platform)
      → is_pending r.state ≡ true
      → Among r rs
      → Among r (only_pending platform rs)
  unfolding only_pending
  Among-only_pending [] r p m = m
  Among-only_pending (q ∷ rs) r p m = ground (arith, Among-only_pending rs r p)
