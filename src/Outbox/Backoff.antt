-- ===== src/Outbox/Backoff.antt =====
-- apps/web/src/lib/nostrOutboxWorker.ts: when a failed attempt is made again.
use dynastytrust.Prelude.{
  ℕ, zero, suc, ◌+◌, ◌*◌, ◌^◌, ◌≤◌, ◌<◌, String, Option, some, ◌≡◌, refl, arith, eq_iff,
}
use dynastytrust.Outbox.{
  Platform, Outcome, pending, backoff_min_ms, backoff_max_ms, min, OutboxRow, Store, put_row,
  mark_attempt, next_attempt_due, attempt_send,
}

power_pos : (n : ℕ) → 1 ≤ 2 ^ n
power_pos zero = omega arith
power_pos (suc n) = omega (arith, power_pos n)

module _ (platform : Platform) where
  open platform use {iso_string, parse_date}

  -- Documented of the platform: the ISO text of a time parses to that time.
  abbrev pub ParsesBack : Type 0
  ParsesBack = (t : ℕ) → parse_date (iso_string t) ≡ some t

  mark_attempt-row :
      (now : ℕ) (id : String) (error : Option String) (s : Store platform) (r : OutboxRow platform)
      → s.row id ≡ some r
      → r.state ≡ pending
      → (mark_attempt platform now id error s).row id
        ≡ some (record r {
          attempts = r.attempts + 1;
          last_attempt = some (iso_string now);
          last_error = error;
        })
  unfolding mark_attempt put_row
  mark_attempt-row now id error s r e p = ground (arith, eq_iff id id)

  -- A failed attempt at a row that is waiting counts one attempt more and makes the next one due
  -- after 30 seconds, doubled with each attempt before, and after an hour at most; until then the
  -- worker leaves the queue as it is, whatever the outcome would be. The platform's times are
  -- supposed to parse back from their texts.
  pub mark_attempt-next_attempt_due :
      ParsesBack
      → (now : ℕ) (id : String) (error : Option String) (s : Store platform)
        (r : OutboxRow platform)
      → s.row id ≡ some r
      → r.state ≡ pending
      → (q : OutboxRow platform) × ((mark_attempt platform now id error s).row id ≡ some q)
        × (q.attempts ≡ r.attempts + 1)
        × (next_attempt_due platform q ≡ now + min (backoff_min_ms * 2 ^ r.attempts) backoff_max_ms)
        × (now + backoff_min_ms ≤ next_attempt_due platform q)
        × (next_attempt_due platform q ≤ now + backoff_max_ms)
        × ((time : ℕ) (outcome : Outcome) (t : Store platform)
            → time < next_attempt_due platform q
            → attempt_send platform time q outcome t ≡ t)
  unfolding next_attempt_due attempt_send
  mark_attempt-next_attempt_due back now id error s r e p = (
    record r {
      attempts = r.attempts + 1;
      last_attempt = some (iso_string now);
      last_error = error;
    },
    mark_attempt-row now id error s r e p,
    refl,
    ground (arith, back now),
    ground (arith, back now, power_pos r.attempts),
    ground (arith, back now),
    λ time outcome t early. ground arith,
  )
