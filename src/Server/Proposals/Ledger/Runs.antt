-- ===== src/Server/Proposals/Ledger/Runs.antt =====
-- netlify/functions/proposals.js: what any sequence of its requests keeps.
use dynastytrust.Prelude.{
  String, true, Option, none, some, List, [], ◌∷◌, Any, ◌≡◌, ◌≢◌, refl, subst, arith, ◌⊎◌, inl, inr,
}
use dynastytrust.Server.Store.{Database, Proposal, broadcast, cancelled, fulfilled, find_proposal}
use dynastytrust.Server.Proposals.{Fetched, is_terminal}
use dynastytrust.Server.Proposals.Ledger.{
  Paid, LedgerStep, kept, opened, annotated, revised, settled,
}
use dynastytrust.Server.Proposals.Ledger.Refine.{Served, Served-LedgerStep}

-- A sequence of requests that are served one after the other, with the answers of the explorer in
-- each, the last request's first.
pub data Run (start : Database) : List (String → Fetched) → Database → Type 0 where
  nothing : Run start [] start
  then :
      {answers : List (String → Fetched)} {mempool_fetch : String → Fetched}
      {before after : Database}
      → Run start answers before
      → Served mempool_fetch before after
      → Run start (mempool_fetch ∷ answers) after

-- What no request changes but for the memo.
abbrev pub IsFinal : Proposal → Type 0
IsFinal p = (p.status ≡ broadcast) ⊎ ((p.status ≡ cancelled) ⊎ (p.status ≡ fulfilled))

IsFinal-is_terminal : (p : Proposal) → IsFinal p → is_terminal p.status ≡ true
IsFinal-is_terminal p (inl e) = rw e refl
IsFinal-is_terminal p (inr (inl e)) = rw e refl
IsFinal-is_terminal p (inr (inr e)) = rw e refl

LedgerStep-is_terminal :
    {mempool_fetch : String → Fetched} {o o' : Option Proposal} {p : Proposal}
    → LedgerStep mempool_fetch o o'
    → o ≡ some p
    → is_terminal p.status ≡ true
    → (memo : Option String) × (o' ≡ some (record p { memo = memo }))
LedgerStep-is_terminal {p = p} kept e closed = (p.memo, e)
LedgerStep-is_terminal (opened fresh) e closed = cc
LedgerStep-is_terminal {p = p} (annotated {p = q} memo) e closed =
    let same : q ≡ p = ground arith in (memo, rw same refl)
LedgerStep-is_terminal (revised still_open other terms) e closed = absurd (ground arith)
LedgerStep-is_terminal (settled still_open final paid terms) e closed = absurd (ground arith)

-- A proposal that is broadcast, cancelled or fulfilled stays as it is, but for its memo, under any
-- sequence of POST and PATCH requests by anybody, whatever the explorer answers in each.
pub Run-is_terminal :
    {start end : Database} {answers : List (String → Fetched)} {p : Proposal} (id : String)
    → Run start answers end
    → find_proposal id start.proposals ≡ some p
    → IsFinal p
    → (memo : Option String) × (find_proposal id end.proposals ≡ some (record p { memo = memo }))
Run-is_terminal {p = p} id nothing there closed = (p.memo, there)
Run-is_terminal {p = p} id (then run served) there closed =
    let (memo, later) = Run-is_terminal id run there closed in
    LedgerStep-is_terminal (Served-LedgerStep served id) later (IsFinal-is_terminal p closed)

-- In the answers of some request the explorer showed the transaction of the row to pay.
abbrev pub PaidIn : List (String → Fetched) → Proposal → Type 0
PaidIn answers p = Any (λ mempool_fetch. Paid mempool_fetch p) answers

PaidIn-memo :
    (answers : List (String → Fetched)) (p : Proposal) (memo : Option String)
    → PaidIn answers p
    → PaidIn answers (record p { memo = memo })
PaidIn-memo [] p memo h = h
PaidIn-memo (mempool_fetch ∷ answers) p memo (inl paid) = inl (record {
  txid = paid.txid;
  base = paid.base;
  outputs = paid.outputs;
  recorded = paid.recorded;
  shown = paid.shown;
  pay = paid.pay;
})
PaidIn-memo (mempool_fetch ∷ answers) p memo (inr earlier) =
    inr (PaidIn-memo answers p memo earlier)

abbrev PaidIfBroadcast : List (String → Fetched) → Option Proposal → Type 0
PaidIfBroadcast answers none = Unit {0}
PaidIfBroadcast answers (some p) = (p.status ≢ broadcast) ⊎ PaidIn answers p

later-PaidIfBroadcast :
    (mempool_fetch : String → Fetched) (answers : List (String → Fetched)) (o : Option Proposal)
    → PaidIfBroadcast answers o
    → PaidIfBroadcast (mempool_fetch ∷ answers) o
later-PaidIfBroadcast mempool_fetch answers none h = h
later-PaidIfBroadcast mempool_fetch answers (some p) (inl other) = inl other
later-PaidIfBroadcast mempool_fetch answers (some p) (inr paid) = inr (inr paid)

LedgerStep-PaidIfBroadcast :
    {mempool_fetch : String → Fetched} (answers : List (String → Fetched)) {o o' : Option Proposal}
    → LedgerStep mempool_fetch o o'
    → PaidIfBroadcast answers o
    → PaidIfBroadcast (mempool_fetch ∷ answers) o'
LedgerStep-PaidIfBroadcast {mempool_fetch = f} answers (kept {o = o}) h =
    later-PaidIfBroadcast f answers o h
LedgerStep-PaidIfBroadcast answers (opened fresh) h = inl (λ e. ground arith)
LedgerStep-PaidIfBroadcast answers (annotated {p = p} memo) h = elim h [
  | inl other ↦ inl other
  | inr paid ↦ inr (inr (PaidIn-memo answers p memo paid))
]
LedgerStep-PaidIfBroadcast answers (revised still_open other terms) h = inl other
LedgerStep-PaidIfBroadcast answers (settled still_open final paid terms) h = inr (inl paid)

Run-PaidIfBroadcast :
    {start end : Database} {answers : List (String → Fetched)} (id : String)
    → Run start answers end
    → start.proposals ≡ []
    → PaidIfBroadcast answers (find_proposal id end.proposals)
Run-PaidIfBroadcast id nothing empty = rw empty tt
Run-PaidIfBroadcast id (then run served) empty =
    LedgerStep-PaidIfBroadcast _ (Served-LedgerStep served id) (Run-PaidIfBroadcast id run empty)

-- In a table that was filled and changed by POST and PATCH requests alone, every proposal that is
-- broadcast has on record a transaction that the explorer, in its answers to one of these requests,
-- showed to pay the proposal's own destination exactly its amount. The explorer may answer otherwise
-- in every request.
pub Run-Paid :
    {start end : Database} {answers : List (String → Fetched)} {p : Proposal} (id : String)
    → Run start answers end
    → start.proposals ≡ []
    → find_proposal id end.proposals ≡ some p
    → p.status ≡ broadcast
    → PaidIn answers p
Run-Paid {answers = answers} id run empty there final =
    let kept_paid = subst (PaidIfBroadcast answers) there (Run-PaidIfBroadcast id run empty) in
    elim kept_paid [ inl other ↦ absurd (other final) | inr paid ↦ paid ]
