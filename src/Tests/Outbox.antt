-- ===== src/Tests/Outbox.antt =====
-- A queue with one event: apps/web/src/lib/nostrOutbox.ts and nostrOutboxWorker.ts on concrete data.
use dynastytrust.Prelude.{
  ℕ, zero, suc, ◌+◌, ◌*◌, ◌^◌, ◌≤◌, ◌<◌, String, false, true, some, List, [], ◌∷◌, ◌≡◌, ◌≢◌, ◌⊎◌,
  refl, ap, arith,
}
use dynastytrust.Outbox.{
  Platform, PublishResult, Outcome, published, sent, backoff_min_ms, backoff_max_ms, min, OutboxRow,
  Store, EnqueueInput, put_row, new_row, add_to_index, enqueue, pending_rows, mark_attempt,
  next_attempt_due, attempt_send, scan,
}
use dynastytrust.Outbox.Keyed.{IsKeyed, enqueue-IsKeyed}
use dynastytrust.Outbox.Steps.{
  empty_store, Step, on_row, indexing, storing, attempting, row_step, run, Delivered,
}
use dynastytrust.Outbox.Listed.{Among}
use dynastytrust.Outbox.Durable.{enqueue-durable}
use dynastytrust.Outbox.Backoff.{ParsesBack, mark_attempt-next_attempt_due}
use dynastytrust.Outbox.Scan.{scan-sends}

-- Times as texts of that many characters.
abbrev unary : ℕ → String
unary zero = String.[]
unary (suc n) = String.◌∷◌ "1" (unary n)

abbrev length_of : String → ℕ
length_of String.[] = 0
length_of (String.◌∷◌ c s) = suc (length_of s)

length_of-unary : (n : ℕ) → length_of (unary n) ≡ n
length_of-unary zero = refl
length_of-unary (suc n) = ap suc (length_of-unary n)

abbrev browser : Platform
browser = record {
  TransportEvent = String;
  event_id = λ e. e;
  iso_string = unary;
  parse_date = λ text. some (length_of text);
}

browser-ParsesBack : ParsesBack browser
browser-ParsesBack t = ap some (length_of-unary t)

abbrev notice : EnqueueInput browser
notice = record { event = "e1"; relays = "wss://relay" ∷ []; label = "co-sign request" }

abbrev refusal : PublishResult
refusal = record {
  accepted = [];
  rejected = record { relay = "wss://relay"; reason = "blocked" } ∷ [];
  pending = [];
}

abbrev acceptance : PublishResult
acceptance = record { accepted = "wss://relay" ∷ []; rejected = []; pending = [] }

abbrev new_notice : OutboxRow browser
new_notice = new_row browser 2 notice

abbrev queue : Store browser
queue = enqueue browser 2 notice (empty_store browser)

-- What comes after the row is stored: its id gets into the index, and a relay refuses the event.
abbrev refused_once : List (Step browser)
refused_once = indexing "e1" [] ∷ on_row (attempting 5 new_notice (published refusal)) ∷ []

enqueue-durable_example :
    Delivered browser "e1" refused_once
    ⊎ ((r : OutboxRow browser) × (r.id ≡ "e1")
        × Among browser r (
            pending_rows browser (
              run browser refused_once
                (row_step browser (storing 2 notice) (run browser [] (empty_store browser))))))
enqueue-durable_example =
    enqueue-durable browser [] [] (on_row (attempting 5 new_notice (published refusal)) ∷ []) [] 2
      notice

queue-IsKeyed : IsKeyed browser queue
queue-IsKeyed =
    enqueue-IsKeyed browser 2 notice (empty_store browser)
      (record { keyed = λ i q e. cc; listed = λ i q e. cc })

queue-row : queue.row "e1" ≡ some new_notice
unfolding enqueue put_row add_to_index
queue-row = refl

mark_attempt-next_attempt_due_example :
    (q : OutboxRow browser) × ((mark_attempt browser 5 "e1" (some "blocked") queue).row "e1"
      ≡ some q)
    × (q.attempts ≡ 0 + 1)
    × (next_attempt_due browser q ≡ 5 + min (backoff_min_ms * 2 ^ 0) backoff_max_ms)
    × (5 + backoff_min_ms ≤ next_attempt_due browser q)
    × (next_attempt_due browser q ≤ 5 + backoff_max_ms)
    × ((time : ℕ) (outcome : Outcome) (t : Store browser)
        → time < next_attempt_due browser q
        → attempt_send browser time q outcome t ≡ t)
mark_attempt-next_attempt_due_example =
    mark_attempt-next_attempt_due browser browser-ParsesBack 5 "e1" (some "blocked") queue
      new_notice queue-row refl

queue-due : next_attempt_due browser new_notice ≤ 7
unfolding next_attempt_due
queue-due = omega arith

acceptance-some : acceptance.accepted ≢ []
acceptance-some = λ e. cc

never_stopped : (j : ℕ) → false ≡ false
never_stopped j = refl

scan-sends_example :
    (q : OutboxRow browser) × ((scan browser
          (λ id. 7)
          (λ id. published acceptance)
          (λ j. false)
          true
          queue).row
        "e1"
      ≡ some q)
    × (q.state ≡ sent)
scan-sends_example =
    scan-sends browser (λ id. 7) (λ id. published acceptance) (λ j. false) queue "e1" new_notice
      acceptance queue-IsKeyed never_stopped queue-row refl queue-due refl acceptance-some
