-- ===== src/Outbox/Keyed.antt =====
-- apps/web/src/lib/nostrOutbox.ts: the index and the rows stay in step.
use dynastytrust.Prelude.{
  ℕ, String, true, ◌||◌, Option, none, some, List, [], ◌∷◌, ◌++◌, any, if◌then◌else◌, ltb, ◌≡◌, inl,
  inr, refl, ◌∙◌, arith, eq_iff, str_eq, Bool-cases,
}
use dynastytrust.Outbox.{
  Platform, PublishResult, answer, Outcome, published, threw, is_pending, OutboxRow, Store,
  EnqueueInput, put_row, add_to_index, next_attempt_due, enqueue, update_pending, mark_attempt,
  mark_sent, record_outcome, attempt_send,
}

pub any-append :
    (id : String) (xs ys : List String)
    → any (λ l. str_eq l id) (xs ++ ys) ≡ any (λ l. str_eq l id) xs || any (λ l. str_eq l id) ys
any-append id [] ys = refl
any-append id (x ∷ xs) ys = ground (arith, any-append id xs ys)

module _ (platform : Platform) where
  open platform use {event_id}

  -- A row stands under its own id, and its id in the index.
  pub record IsKeyed (s : Store platform) : Type 0 where
    pub keyed : (id : String) (r : OutboxRow platform) → s.row id ≡ some r → r.id ≡ id
    pub listed :
        (id : String) (r : OutboxRow platform)
        → s.row id ≡ some r
        → any (λ l. str_eq l id) s.index ≡ true

  put_row-IsKeyed :
      (id : String) (r : OutboxRow platform) (s : Store platform)
      → r.id ≡ id
      → any (λ l. str_eq l id) s.index ≡ true
      → IsKeyed s
      → IsKeyed (put_row platform id r s)
  unfolding put_row
  put_row-IsKeyed id r s e there k = record {
    keyed = λ i q h. ground (arith, eq_iff i id, k.keyed i q);
    listed = λ i q h. ground (arith, eq_iff i id, k.listed i q);
  }

  update_pending-IsKeyed :
      (id : String) (change : OutboxRow platform → OutboxRow platform)
      (o : Option (OutboxRow platform)) (s : Store platform)
      → s.row id ≡ o
      → ((r : OutboxRow platform) → (change r).id ≡ r.id)
      → IsKeyed s
      → IsKeyed (update_pending platform id change o s)
  update_pending-IsKeyed id change none s e same k = k
  update_pending-IsKeyed id change (some r) s e same k = elim (Bool-cases (is_pending r.state)) [
    | inl p ↦
        rw (p, if◌then◌else◌)
          (put_row-IsKeyed id (change r) s (same r ∙ k.keyed id r e) (k.listed id r e) k)
    | inr p ↦ rw (p, if◌then◌else◌) k
  ]

  mark_attempt-IsKeyed :
      (now : ℕ) (id : String) (error : Option String) (s : Store platform)
      → IsKeyed s
      → IsKeyed (mark_attempt platform now id error s)
  unfolding mark_attempt
  mark_attempt-IsKeyed now id error s k =
      update_pending-IsKeyed id _ (s.row id) s refl (λ r. refl) k

  mark_sent-IsKeyed :
      (id : String) (s : Store platform) → IsKeyed s → IsKeyed (mark_sent platform id s)
  unfolding mark_sent
  mark_sent-IsKeyed id s k = update_pending-IsKeyed id _ (s.row id) s refl (λ r. refl) k

  answer-IsKeyed :
      (now : ℕ) (id : String) (p : PublishResult) (relays : List String) (s : Store platform)
      → IsKeyed s
      → IsKeyed (answer platform now id p relays s)
  answer-IsKeyed now id p [] s k = mark_attempt-IsKeyed now id _ s k
  answer-IsKeyed now id p (relay ∷ relays) s k = mark_sent-IsKeyed id s k

  record_outcome-IsKeyed :
      (now : ℕ) (id : String) (outcome : Outcome) (s : Store platform)
      → IsKeyed s
      → IsKeyed (record_outcome platform now id outcome s)
  unfolding record_outcome
  record_outcome-IsKeyed now id (threw message) s k = mark_attempt-IsKeyed now id _ s k
  record_outcome-IsKeyed now id (published p) s k = answer-IsKeyed now id p p.accepted s k

  pub attempt_send-IsKeyed :
      (now : ℕ) (r : OutboxRow platform) (outcome : Outcome) (s : Store platform)
      → IsKeyed s
      → IsKeyed (attempt_send platform now r outcome s)
  unfolding attempt_send
  attempt_send-IsKeyed now r outcome s k =
      elim (Bool-cases (ltb now (next_attempt_due platform r))) [
        | inl early ↦ rw (early, if◌then◌else◌) k
        | inr due ↦ rw (due, if◌then◌else◌) (record_outcome-IsKeyed now r.id outcome s k)
      ]

  pub enqueue-IsKeyed :
      (now : ℕ) (input : EnqueueInput platform) (s : Store platform)
      → IsKeyed s
      → IsKeyed (enqueue platform now input s)
  unfolding enqueue put_row add_to_index
  enqueue-IsKeyed now input s k =
      let id = event_id input.event in
      elim (Bool-cases (any (λ l. str_eq l id) s.index)) [
        | inl there ↦
            rw (there, if◌then◌else◌)
              (record {
                keyed = λ i q h. ground (arith, eq_iff i id, k.keyed i q);
                listed = λ i q h. ground (arith, eq_iff i id, k.listed i q);
              })
        | inr fresh ↦
            rw (fresh, if◌then◌else◌)
              (record {
                keyed = λ i q h. ground (arith, eq_iff i id, k.keyed i q);
                listed = λ i q h.
                    ground (
                      arith,
                      eq_iff i id,
                      eq_iff id i,
                      k.listed i q,
                      any-append i s.index (id ∷ []),
                    );
              })
      ]
