-- ===== src/Outbox.antt =====
-- apps/web/src/lib/nostrOutbox.ts and nostrOutboxWorker.ts: the durable queue of events to publish,
-- and the attempts to publish them. The storage is the state that the operations pass on; here
-- an operation runs to its end, and Steps lets others come between the steps of an enqueue.
pub mod Keyed
pub mod Steps
pub mod Queued
pub mod Listed
pub mod Durable
pub mod Backoff
pub mod Scan
use dynastytrust.Prelude.{
  ℕ, zero, suc, ◌+◌, ◌-◌, ◌*◌, ◌^◌, String, Bool, true, false, ◌||◌, not, length, Option, none,
  some, List, [], ◌∷◌, ◌++◌, any, take, drop, if◌then◌else◌, ltb, leb, ◌==◌, str_eq,
}

pub data OutboxState : Type 0 where
  pending sent : OutboxState

-- What the code uses of the transport library and of the platform: an event and its id, the ISO text
-- of a time in milliseconds, and `Date.parse`, `none` where it gives NaN.
pub record Platform : Type 1 where
  pub TransportEvent : Type 0
  pub event_id : TransportEvent → String
  pub iso_string : ℕ → String
  pub parse_date : String → Option ℕ

pub record Rejection : Type 0 where
  pub relay : String
  pub reason : String

pub record PublishResult : Type 0 where
  pub accepted : List String
  pub rejected : List Rejection
  pub pending : List String

-- `transport.publish` returns a result or throws; what is thrown may be no `Error`.
pub data Outcome : Type 0 where
  published : PublishResult → Outcome
  threw : Option String → Outcome

abbrev pub is_pending : OutboxState → Bool
is_pending pending = true
is_pending sent = false

abbrev pub backoff_min_ms : ℕ
backoff_min_ms = 30 * 1000

abbrev pub backoff_max_ms : ℕ
backoff_max_ms = 60 * 60 * 1000

abbrev pub max_parallel : ℕ
max_parallel = 4

abbrev pub min : ℕ → ℕ → ℕ
min a b = if leb a b then a else b

-- `publish.rejected[0]?.reason`
abbrev first_reason : List Rejection → String
first_reason [] = ""
first_reason (r ∷ rs) = r.reason

abbrev no_answer : List String → String
no_answer [] = "every relay rejected the event"
no_answer (r ∷ rs) = "no relay responded in time"

-- An empty reason falls back to one of the two texts.
pub refusal_reason : PublishResult → String
refusal_reason p =
    if str_eq (first_reason p.rejected) "" then no_answer p.pending else first_reason p.rejected

abbrev failure_text : Option String → String
failure_text (some message) = message
failure_text none = "publish failed"

module _ (platform : Platform) where
  open platform use {TransportEvent, event_id, iso_string, parse_date}

  pub record OutboxRow : Type 0 where
    pub id : String
    pub event : TransportEvent
    pub relays : List String
    pub label : String
    pub state : OutboxState
    pub attempts : ℕ
    pub last_attempt : Option String
    pub last_error : Option String
    pub created_at : String

  -- The values of the storage under the index key and under the keys of the rows.
  pub record Store : Type 0 where
    pub index : List String
    pub row : String → Option OutboxRow

  pub record EnqueueInput : Type 0 where
    pub event : TransportEvent
    pub relays : List String
    pub label : String

  -- `idb.put(ROW_KEY(id), row)`
  unfoldable pub put_row : String → OutboxRow → Store → Store
  put_row id r store = record store { row = λ key. if str_eq key id then some r else store.row key }

  abbrev pub new_row : ℕ → EnqueueInput → OutboxRow
  new_row now input = record {
    id = event_id input.event;
    event = input.event;
    relays = input.relays;
    label = input.label;
    state = pending;
    attempts = 0;
    last_attempt = none;
    last_error = none;
    created_at = iso_string now;
  }

  -- `if (!index.includes(row.id)) { index.push(row.id); … }`
  unfoldable pub add_to_index : String → Store → Store
  add_to_index id store =
      if any (λ listed. str_eq listed id) store.index
      then store
      else record store { index = store.index ++ id ∷ [] }

  -- The same with an index that was read before: what was written in the meantime is overwritten.
  unfoldable pub write_index : String → List String → Store → Store
  write_index id seen store =
      if any (λ listed. str_eq listed id) seen
      then store
      else record store { index = seen ++ id ∷ [] }

  -- Its steps without others between them.
  unfoldable pub enqueue : ℕ → EnqueueInput → Store → Store
  enqueue now input store = let r = new_row now input in add_to_index r.id (put_row r.id r store)

  -- The rows of the listed ids, one that is missing left out.
  unfoldable pub rows_of : (String → Option OutboxRow) → List String → List OutboxRow
  rows_of row [] = []
  rows_of row (id ∷ ids) =
      let later = rows_of row ids in elim (row id) [ none ↦ later | some r ↦ r ∷ later ]

  abbrev pub all_rows : Store → List OutboxRow
  all_rows store = rows_of store.row store.index

  unfoldable pub only_pending : List OutboxRow → List OutboxRow
  only_pending [] = []
  only_pending (r ∷ rs) =
      let later = only_pending rs in if is_pending r.state then r ∷ later else later

  abbrev pub pending_rows : Store → List OutboxRow
  pending_rows store = only_pending (all_rows store)

  -- An update of a row that is there and not sent.
  abbrev pub update_pending : String → (OutboxRow → OutboxRow) → Option OutboxRow → Store → Store
  update_pending id change none store = store
  update_pending id change (some r) store =
      if is_pending r.state then put_row id (change r) store else store

  unfoldable pub mark_attempt : ℕ → String → Option String → Store → Store
  mark_attempt now id error store =
      update_pending id
        (λ r. record r {
          attempts = r.attempts + 1;
          last_attempt = some (iso_string now);
          last_error = error;
        })
        (store.row id) store

  unfoldable pub mark_sent : String → Store → Store
  mark_sent id store =
      update_pending id (λ r. record r { state = sent; last_error = none }) (store.row id) store

  abbrev pub backoff : ℕ → ℕ
  backoff attempts = min (backoff_min_ms * 2 ^ (attempts - 1)) backoff_max_ms

  -- The time from `Date.parse` of the last attempt, if there is one and it is a number.
  abbrev last_time : Option String → Option ℕ
  last_time none = none
  last_time (some text) = parse_date text

  abbrev due_from : ℕ → Option ℕ → ℕ
  due_from attempts none = 0
  due_from attempts (some last) = last + backoff attempts

  unfoldable pub next_attempt_due : OutboxRow → ℕ
  next_attempt_due r = if r.attempts == 0 then 0 else due_from r.attempts (last_time r.last_attempt)

  -- What follows the answer of the relays, with those that accepted.
  abbrev pub answer : ℕ → String → PublishResult → List String → Store → Store
  answer now id p [] store = mark_attempt now id (some (refusal_reason p)) store
  answer now id p (relay ∷ relays) store = mark_sent id store

  unfoldable pub record_outcome : ℕ → String → Outcome → Store → Store
  record_outcome now id (threw message) store =
      mark_attempt now id (some (failure_text message)) store
  record_outcome now id (published p) store = answer now id p p.accepted store

  unfoldable pub attempt_send : ℕ → OutboxRow → Outcome → Store → Store
  attempt_send now r outcome store =
      if ltb now (next_attempt_due r) then store else record_outcome now r.id outcome store

  -- The attempts at some rows, with a time and an outcome for each id.
  pub attempt_each : (String → ℕ) → (String → Outcome) → List OutboxRow → Store → Store
  attempt_each now outcome [] store = store
  attempt_each now outcome (r ∷ rs) store =
      attempt_each now outcome rs (attempt_send (now r.id) r (outcome r.id) store)

  -- The loop of `scan` over the pending rows, four at a time; `stopped i` is what it reads before
  -- the rows from `i` on. The attempts of one round touch rows of different ids, and stand here one
  -- after the other.
  pub scan_loop :
      (String → ℕ) → (String → Outcome) → (ℕ → Bool) → ℕ → ℕ → List OutboxRow → Store → Store
  scan_loop now outcome stopped zero i rows store = store
  scan_loop now outcome stopped (suc fuel) i [] store = store
  scan_loop now outcome stopped (suc fuel) i (r ∷ rs) store =
      if stopped i
      then store
      else scan_loop now outcome stopped fuel (i + max_parallel) (drop max_parallel (r ∷ rs))
          (attempt_each now outcome (take max_parallel (r ∷ rs)) store)

  -- A round takes four rows, so that one round for each row is enough.
  unfoldable pub scan : (String → ℕ) → (String → Outcome) → (ℕ → Bool) → Bool → Store → Store
  unfolding scan_loop attempt_each
  scan now outcome stopped online store =
      let rows = pending_rows store in
      let scanned = scan_loop now outcome stopped (length rows) 0 rows store in
      if stopped 0 || not online then store else scanned
