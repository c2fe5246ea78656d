-- ===== src/Outbox/Scan.antt =====
-- apps/web/src/lib/nostrOutboxWorker.ts: what a scan of the queue achieves.
use dynastytrust.Prelude.{
  ℕ, zero, suc, ◌+◌, ◌≤◌, String, Bool, true, false, Option, none, some, List, [], ◌∷◌, ◌++◌,
  length, take, drop, if◌then◌else◌, ltb, subst, ◌≡◌, ◌≢◌, inl, inr, refl, sym, ap, ◌∙◌, arith,
  eq_iff, str_eq, Bool-cases, length-drop, take-append-drop,
}
use dynastytrust.Outbox.{
  OutboxState, answer, Platform, PublishResult, Outcome, published, threw, pending, sent,
  is_pending, max_parallel, OutboxRow, Store, put_row, pending_rows, update_pending, mark_attempt,
  mark_sent, record_outcome, next_attempt_due, attempt_send, attempt_each, scan_loop, scan,
}
use dynastytrust.Outbox.Keyed.{IsKeyed}
use dynastytrust.Outbox.Queued.{update_pending-other}
use dynastytrust.Outbox.Listed.{Among, Among-rows_of, Among-only_pending}

module _ (platform : Platform) where
  -- Whatever happens, a property of the row under an id that both of the markings keep.
  record IsKept (id : String) (P : Option (OutboxRow platform) → Type 0) : Type 0 where
    pub attempted :
        (now : ℕ) (error : Option String) (s : Store platform)
        → P (s.row id)
        → P ((mark_attempt platform now id error s).row id)
    pub delivered : (s : Store platform) → P (s.row id) → P ((mark_sent platform id s).row id)

  abbrev pub IsThere : Option (OutboxRow platform) → Type 0
  IsThere none = ⊥
  IsThere (some r) = Unit

  abbrev pub IsSent : Option (OutboxRow platform) → Type 0
  IsSent none = ⊥
  IsSent (some r) = r.state ≡ sent

  put_row-row :
      (id : String) (r : OutboxRow platform) (s : Store platform)
      → (put_row platform id r s).row id ≡ some r
  unfolding put_row
  put_row-row id r s = ground (arith, eq_iff id id)

  update_pending-IsThere :
      (id : String) (change : OutboxRow platform → OutboxRow platform)
      (o : Option (OutboxRow platform)) (s : Store platform)
      → s.row id ≡ o
      → IsThere o
      → IsThere ((update_pending platform id change o s).row id)
  update_pending-IsThere id change (some r) s e there = elim (Bool-cases (is_pending r.state)) [
    | inl p ↦ rw (p, if◌then◌else◌, put_row-row id (change r) s) tt
    | inr p ↦ rw (p, if◌then◌else◌, e) tt
  ]
  update_pending-IsThere id change none s e there = absurd there

  update_pending-IsSent :
      (id : String) (change : OutboxRow platform → OutboxRow platform)
      (o : Option (OutboxRow platform)) (s : Store platform)
      → s.row id ≡ o
      → IsSent o
      → IsSent ((update_pending platform id change o s).row id)
  update_pending-IsSent id change (some r) s e done = rw (done, e) done
  update_pending-IsSent id change none s e done = absurd done

  IsThere-kept : (id : String) → IsKept id IsThere
  unfolding mark_attempt mark_sent
  IsThere-kept id = record {
    attempted = λ now error s h. update_pending-IsThere id _ (s.row id) s refl h;
    delivered = λ s h. update_pending-IsThere id _ (s.row id) s refl h;
  }

  IsSent-kept : (id : String) → IsKept id IsSent
  unfolding mark_attempt mark_sent
  IsSent-kept id = record {
    attempted = λ now error s h. update_pending-IsSent id _ (s.row id) s refl h;
    delivered = λ s h. update_pending-IsSent id _ (s.row id) s refl h;
  }

  mark_attempt-other :
      (now : ℕ) (key : String) (error : Option String) (s : Store platform) (id : String)
      → id ≢ key
      → (mark_attempt platform now key error s).row id ≡ s.row id
  unfolding mark_attempt
  mark_attempt-other now key error s id other =
      update_pending-other platform key id _ (s.row key) s other

  mark_sent-other :
      (key : String) (s : Store platform) (id : String)
      → id ≢ key
      → (mark_sent platform key s).row id ≡ s.row id
  unfolding mark_sent
  mark_sent-other key s id other = update_pending-other platform key id _ (s.row key) s other

  module _ (id : String) (P : Option (OutboxRow platform) → Type 0) (kept : IsKept id P) where
    mark_attempt-kept :
        (now : ℕ) (key : String) (error : Option String) (s : Store platform)
        → P (s.row id)
        → P ((mark_attempt platform now key error s).row id)
    mark_attempt-kept now key error s h = elim (Bool-cases (str_eq id key)) [
      | inl same ↦
          subst (λ k. P ((mark_attempt platform now k error s).row id)) ((eq_iff id key).0 same)
            (kept.attempted now error s h)
      | inr other ↦
          subst P (sym (mark_attempt-other now key error s id (λ e. ground (arith, eq_iff id key))))
            h
    ]

    mark_sent-kept :
        (key : String) (s : Store platform) → P (s.row id) → P ((mark_sent platform key s).row id)
    mark_sent-kept key s h = elim (Bool-cases (str_eq id key)) [
      | inl same ↦
          subst (λ k. P ((mark_sent platform k s).row id)) ((eq_iff id key).0 same)
            (kept.delivered s h)
      | inr other ↦ subst P (sym (mark_sent-other key s id (λ e. ground (arith, eq_iff id key)))) h
    ]

    answer-kept :
        (now : ℕ) (key : String) (p : PublishResult) (relays : List String) (s : Store platform)
        → P (s.row id)
        → P ((answer platform now key p relays s).row id)
    answer-kept now key p [] s h = mark_attempt-kept now key _ s h
    answer-kept now key p (relay ∷ relays) s h = mark_sent-kept key s h

    record_outcome-kept :
        (now : ℕ) (key : String) (outcome : Outcome) (s : Store platform)
        → P (s.row id)
        → P ((record_outcome platform now key outcome s).row id)
    unfolding record_outcome
    record_outcome-kept now key (threw message) s h = mark_attempt-kept now key _ s h
    record_outcome-kept now key (published p) s h = answer-kept now key p p.accepted s h

    attempt_send-kept :
        (now : ℕ) (r : OutboxRow platform) (outcome : Outcome) (s : Store platform)
        → P (s.row id)
        → P ((attempt_send platform now r outcome s).row id)
    unfolding attempt_send
    attempt_send-kept now r outcome s h =
        elim (Bool-cases (ltb now (next_attempt_due platform r))) [
          | inl early ↦ rw (early, if◌then◌else◌) h
          | inr due ↦ rw (due, if◌then◌else◌) (record_outcome-kept now r.id outcome s h)
        ]

    attempt_each-kept :
        (now : String → ℕ) (outcome : String → Outcome) (rs : List (OutboxRow platform))
        (s : Store platform)
        → P (s.row id)
        → P ((attempt_each platform now outcome rs s).row id)
    unfolding attempt_each
    attempt_each-kept now outcome [] s h = h
    attempt_each-kept now outcome (r ∷ rs) s h =
        attempt_each-kept now outcome rs (attempt_send platform (now r.id) r (outcome r.id) s)
          (attempt_send-kept (now r.id) r (outcome r.id) s h)

  update_pending-sends :
      (id : String) (o : Option (OutboxRow platform)) (s : Store platform)
      → s.row id ≡ o
      → IsThere o
      → IsSent (
          (update_pending platform id (λ r. record r { state = sent; last_error = none }) o s).row
            id)
  update_pending-sends id none s e there = absurd there
  update_pending-sends id (some r) s e there = elim (Bool-cases (is_pending r.state)) [
    | inl p ↦
        rw (p, if◌then◌else◌, put_row-row id (record r { state = sent; last_error = none }) s) refl
    | inr p ↦ rw (p, if◌then◌else◌, e) (not_pending r.state p)
  ]
    where
      not_pending : (state : OutboxState) → is_pending state ≡ false → state ≡ sent
      not_pending pending p = ground arith
      not_pending sent p = refl

  answer-sends :
      (now : ℕ) (id : String) (p : PublishResult) (relays : List String) (s : Store platform)
      → relays ≢ []
      → IsThere (s.row id)
      → IsSent ((answer platform now id p relays s).row id)
  unfolding mark_sent
  answer-sends now id p [] s some_left there = absurd (some_left refl)
  answer-sends now id p (relay ∷ relays) s some_left there =
      update_pending-sends id (s.row id) s refl there

  -- An attempt that is due, at a row that is there, and that a relay accepts, makes the row sent.
  attempt_send-sends :
      (now : ℕ) (r : OutboxRow platform) (p : PublishResult) (s : Store platform)
      → next_attempt_due platform r ≤ now
      → p.accepted ≢ []
      → IsThere (s.row r.id)
      → IsSent ((attempt_send platform now r (published p) s).row r.id)
  unfolding attempt_send record_outcome
  attempt_send-sends now r p s due accepted there =
      let on_time : ltb now (next_attempt_due platform r) ≡ false = ground arith in
      rw (on_time, if◌then◌else◌) (answer-sends now r.id p p.accepted s accepted there)

  attempt_each-sends :
      (now : String → ℕ) (outcome : String → Outcome) (rs : List (OutboxRow platform))
      (r : OutboxRow platform) (p : PublishResult) (s : Store platform)
      → Among platform r rs
      → next_attempt_due platform r ≤ now r.id
      → outcome r.id ≡ published p
      → p.accepted ≢ []
      → IsThere (s.row r.id)
      → IsSent ((attempt_each platform now outcome rs s).row r.id)
  unfolding attempt_each
  attempt_each-sends now outcome [] r p s m due e accepted there = absurd m
  attempt_each-sends now outcome (q ∷ rs) r p s (inl same) due e accepted there =
      attempt_each-kept r.id IsSent (IsSent-kept r.id) now outcome rs _ (
        subst (λ w. IsSent ((attempt_send platform (now w.id) w (outcome w.id) s).row r.id))
          (sym same) (rw e (attempt_send-sends (now r.id) r p s due accepted there)))
  attempt_each-sends now outcome (q ∷ rs) r p s (inr m) due e accepted there =
      attempt_each-sends now outcome rs r p (attempt_send platform (now q.id) q (outcome q.id) s) m
        due e accepted
        (attempt_send-kept r.id IsThere (IsThere-kept r.id) (now q.id) q (outcome q.id) s there)

  attempt_each-append :
      (now : String → ℕ) (outcome : String → Outcome) (rs qs : List (OutboxRow platform))
      (s : Store platform)
      → attempt_each platform now outcome qs (attempt_each platform now outcome rs s)
        ≡ attempt_each platform now outcome (rs ++ qs) s
  unfolding attempt_each
  attempt_each-append now outcome [] qs s = refl
  attempt_each-append now outcome (r ∷ rs) qs s =
      attempt_each-append now outcome rs qs (attempt_send platform (now r.id) r (outcome r.id) s)

  -- A scan that nobody stops makes an attempt at every row.
  scan_loop-attempt_each :
      (now : String → ℕ) (outcome : String → Outcome) (stopped : ℕ → Bool) (fuel i : ℕ)
      (rs : List (OutboxRow platform)) (s : Store platform)
      → ((j : ℕ) → stopped j ≡ false)
      → length rs ≤ fuel
      → scan_loop platform now outcome stopped fuel i rs s ≡ attempt_each platform now outcome rs s
  unfolding scan_loop attempt_each
  scan_loop-attempt_each now outcome stopped zero i [] s on h = refl
  scan_loop-attempt_each now outcome stopped zero i (r ∷ rs) s on h = absurd (omega arith)
  scan_loop-attempt_each now outcome stopped (suc fuel) i [] s on h = refl
  scan_loop-attempt_each now outcome stopped (suc fuel) i (r ∷ rs) s on h =
      let rounds =
        scan_loop-attempt_each now outcome stopped fuel (i + max_parallel)
          (drop max_parallel (r ∷ rs))
          (attempt_each platform now outcome (take max_parallel (r ∷ rs)) s) on
          (omega (arith, length-drop 3 rs)) in
      rw (on i, if◌then◌else◌)
        (rounds
          ∙ attempt_each-append now outcome (take max_parallel (r ∷ rs))
              (drop max_parallel (r ∷ rs)) s
          ∙ ap (λ qs. attempt_each platform now outcome qs s)
              (take-append-drop max_parallel (r ∷ rs)))

  IsSent-row :
      (o : Option (OutboxRow platform))
      → IsSent o
      → (q : OutboxRow platform) × (o ≡ some q) × (q.state ≡ sent)
  IsSent-row none h = absurd h
  IsSent-row (some q) h = (q, refl, h)

  scan-attempt_each :
      (now : String → ℕ) (outcome : String → Outcome) (stopped : ℕ → Bool) (s : Store platform)
      → ((j : ℕ) → stopped j ≡ false)
      → scan platform now outcome stopped true s
        ≡ attempt_each platform now outcome (pending_rows platform s) s
  unfolding scan
  scan-attempt_each now outcome stopped s on =
      rw (on 0, if◌then◌else◌)
        (scan_loop-attempt_each now outcome stopped (length (pending_rows platform s)) 0
          (pending_rows platform s) s on (omega arith))

  -- A scan while online that nobody stops sends every row that waits, is due, and whose event a
  -- relay accepts: afterwards the row is marked as sent. The queue is one in which rows and index
  -- are in step.
  pub scan-sends :
      (now : String → ℕ) (outcome : String → Outcome) (stopped : ℕ → Bool) (s : Store platform)
      (id : String) (r : OutboxRow platform) (p : PublishResult)
      → IsKeyed platform s
      → ((j : ℕ) → stopped j ≡ false)
      → s.row id ≡ some r
      → r.state ≡ pending
      → next_attempt_due platform r ≤ now id
      → outcome id ≡ published p
      → p.accepted ≢ []
      → (q : OutboxRow platform) × ((scan platform now outcome stopped true s).row id ≡ some q)
        × (q.state ≡ sent)
  scan-sends now outcome stopped s id r p k on there waiting due e accepted =
      let same : r.id ≡ id = k.keyed id r there in
      let here : s.row r.id ≡ some r = ap s.row same ∙ there in
      let rows = pending_rows platform s in
      let among : Among platform r rows =
        Among-only_pending platform _ r (rw waiting refl)
          (Among-rows_of platform s.row s.index r.id r here (k.listed r.id r here)) in
      let done : IsSent ((attempt_each platform now outcome rows s).row r.id) =
        attempt_each-sends now outcome rows r p s among
          (subst (λ i. next_attempt_due platform r ≤ now i) (sym same) due) (ap outcome same ∙ e)
          accepted (rw here tt) in
      IsSent-row ((scan platform now outcome stopped true s).row id)
        (rw (scan-attempt_each now outcome stopped s on, ← same) done)
