-- ===== src/Payments/Queue/Answers.antt =====
-- What processQueue of payments/channel.go does with the active requests.
use pop.Common.{
  ℕ, ◌≡◌, refl, ap, ◌∙◌, ◌⊎◌, inl, inr, Bool, true, false, ◌||◌, List, [], ◌∷◌, map, Option, none,
  some, arith, Bool-cases, Option-cases,
}
use pop.Common.Int.{ℤ, pos, ◌+ℤ◌, is_zero, int_laws}
use pop.Payments.Info.{Found, tracked}
use pop.Payments.Queue.{
  FundsReq, FundsRes, Messages, sum_from, complete, process_task, settle_queue, process_queue,
}
use pop.Payments.Queue.Compact.{active_of, filter_queue-active}

-- The amounts of all requests together, and the answer for each.
abbrev pub total_of : List FundsReq → ℤ
total_of [] = pos 0
total_of (r ∷ rs) = r.amt +ℤ total_of rs

abbrev pub answers_of : FundsRes → List FundsReq → List (ℕ × FundsRes)
answers_of res rs = map (λ r. (r.promise, res)) rs

-- Does the channel wait for a message that was sent to the chain?
abbrev pub is_pending : Found → Bool
is_pending (tracked ci) = is_some ci.create_msg || is_some ci.add_funds_msg
  where
    is_some : Option ℕ → Bool
    is_some none = false
    is_some (some _) = true
is_pending _ = false

sum_from-active :
    (total : ℤ) (rs : List FundsReq)
    → sum_from total (active_of rs) ≡ total +ℤ total_of (active_of rs)
unfolding sum_from active_of
sum_from-active total [] = omega int_laws
sum_from-active total (r ∷ rs) = elim (Bool-cases r.active) [
  | inl on ↦ rw (on, sum_from-active (total +ℤ r.amt) rs) (omega int_laws)
  | inr off ↦ rw off (sum_from-active total rs)
]

complete-active :
    (res : FundsRes) (rs : List FundsReq)
    → complete res (active_of rs) ≡ answers_of res (active_of rs)
unfolding complete active_of
complete-active res [] = refl
complete-active res (r ∷ rs) = elim (Bool-cases r.active) [
  | inl on ↦ rw on (ap (λ l. (r.promise, res) ∷ l) (complete-active res rs))
  | inr off ↦ rw off (complete-active res rs)
]

zero_plus : (a : ℤ) → pos 0 +ℤ a ≡ a
zero_plus a = omega int_laws

sum-active :
    (queue : List FundsReq) → sum_from (pos 0) (active_of queue) ≡ total_of (active_of queue)
sum-active queue = sum_from-active (pos 0) queue ∙ zero_plus (total_of (active_of queue))

module _ (messages : Messages) (found : Found) (amt : ℤ) where
  pending-none : is_pending found ≡ true → process_task messages found amt ≡ none
  unfolding process_task
  pending-none h = ground arith

  ready-some :
      is_pending found ≡ false → (res : FundsRes) × (process_task messages found amt ≡ some res)
  unfolding process_task
  ready-some h = elim (Option-cases (process_task messages found amt)) [
    | inl waits ↦ ground arith
    | inr (res, done) ↦ (res, done)
  ]

-- The requests stay, or each of them is answered.
pub record Kept (found : Found) (queue left : List FundsReq) (sent : List (ℕ × FundsRes))
    : Type 0 where
  pub reason : (is_zero (total_of (active_of queue)) ≡ true) ⊎ (is_pending found ≡ true)
  pub all_left : left ≡ active_of queue
  pub none_sent : sent ≡ []

pub record Sent (messages : Messages) (found : Found) (queue left : List FundsReq)
    (sent : List (ℕ × FundsRes)) : Type 0 where
  pub res : FundsRes
  pub some_asked : is_zero (total_of (active_of queue)) ≡ false
  pub ready : is_pending found ≡ false
  pub one_task : process_task messages found (total_of (active_of queue)) ≡ some res
  pub none_left : left ≡ []
  pub all_sent : sent ≡ answers_of res (active_of queue)

module _ (messages : Messages) (found : Found) (queue : List FundsReq) where
  outcome : List FundsReq × List (ℕ × FundsRes)
  outcome = process_queue (process_task messages found) queue

  outcome-zero : is_zero (total_of (active_of queue)) ≡ true → outcome ≡ (active_of queue, [])
  unfolding outcome process_queue
  outcome-zero zero_total = rw (filter_queue-active queue, sum-active queue, zero_total) refl

  outcome-settled :
      is_zero (total_of (active_of queue)) ≡ false
      → outcome
        ≡ settle_queue (active_of queue) (process_task messages found (total_of (active_of queue)))
  unfolding outcome process_queue
  outcome-settled some_total = rw (filter_queue-active queue, sum-active queue, some_total) refl

  outcome-Kept :
      (is_zero (total_of (active_of queue)) ≡ true) ⊎ (is_pending found ≡ true)
      → outcome ≡ (active_of queue, [])
      → Kept found queue outcome.0 outcome.1
  outcome-Kept why same = record {
    reason = why;
    all_left = ap (λ p. p.0) same;
    none_sent = ap (λ p. p.1) same;
  }

  outcome-pending :
      is_zero (total_of (active_of queue)) ≡ false
      → is_pending found ≡ true
      → outcome ≡ (active_of queue, [])
  unfolding settle_queue
  outcome-pending some_total pending =
      outcome-settled some_total
      ∙ ap (settle_queue (active_of queue))
          (pending-none messages found (total_of (active_of queue)) pending)

  outcome-answered :
      (res : FundsRes)
      → is_zero (total_of (active_of queue)) ≡ false
      → process_task messages found (total_of (active_of queue)) ≡ some res
      → outcome ≡ ([], complete res (active_of queue))
  unfolding settle_queue
  outcome-answered res some_total done =
      outcome-settled some_total ∙ ap (settle_queue (active_of queue)) done

  outcome-cases :
      Kept found queue outcome.0 outcome.1 ⊎ Sent messages found queue outcome.0 outcome.1
  outcome-cases = elim (Bool-cases (is_zero (total_of (active_of queue)))) [
    | inl zero_total ↦ inl (outcome-Kept (inl zero_total) (outcome-zero zero_total))
    | inr some_total ↦ elim (Bool-cases (is_pending found)) [
      | inl pending ↦ inl (outcome-Kept (inr pending) (outcome-pending some_total pending))
      | inr ready ↦
          let (res, done) = ready-some messages found (total_of (active_of queue)) ready in
          let same = outcome-answered res some_total done in
          inr (record {
            res = res;
            some_asked = some_total;
            ready = ready;
            one_task = done;
            none_left = ap (λ p. p.0) same;
            all_sent = ap (λ p. p.1) same ∙ complete-active res queue;
          })
    ]
  ]

  -- Processing the queue either answers no request and keeps the active ones, since together they
  -- ask for nothing or the channel waits for a message on the chain, or it runs one task for the sum
  -- of the active requests and sends its result to each of them, in order and once, with none left.
  pub process_queue-cases :
      let p = process_queue (process_task messages found) queue in
      Kept found queue p.0 p.1 ⊎ Sent messages found queue p.0 p.1
  unfolding outcome
  process_queue-cases = outcome-cases
