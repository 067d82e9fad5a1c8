-- ===== src/Retrieval/Lockstep.antt =====
-- The two sides of a deal together: what retrieval/client/fsm.go pays for an interval is what
-- retrieval/validators.go asks before the next one, and both move on to the same next interval.
use native.Mathlib.Nat.{mul-div_cancel}
use pop.Common.{
  ℕ, ◌+◌, ◌*◌, ◌≤◌, ◌<◌, ◌≡◌, refl, ap, ◌∙◌, true, false, some, arith, suc, le→leb, lt→leb, le→ltb,
}
use pop.Common.Int.{ℤ, pos, ◌≤ℤ◌, ◌+ℤ◌, ◌-ℤ◌, *ℤ_pos, to_uint64, div_ℤ, leb_ℤ, is_zero, int_laws}
use pop.Common.Result.{ok}
use pop.Retrieval.Deal.{
  Params, ClientState, ProviderState, DealIdentifier, Payment, interval_lower_bound, next_interval,
}
use pop.Retrieval.Deal.Schedule.{
  Fits, schedule, interval_lower_bound-schedule, next_interval-schedule,
}
use pop.Retrieval.Client.Handlers.{calc_amount_to_send}
use pop.Retrieval.Client.Price.{Terms, calc_amount_lem, to_int64_small, times_mono}
use pop.Retrieval.Revalidator.State.{RevalidatorEnvironment, payment_owed, resume}
use pop.Retrieval.Revalidator.Pay.{Processed, process_payment, judge_payment, settled}
use pop.Retrieval.Provider.Event.{Event, payment_received}
use pop.Retrieval.Client.Event.{payment_sent}
use pop.Retrieval.Client.Action.{action, record_payment, advance}
use pop.Retrieval.Provider.Machine.{action as provider_action}

-- A client that has received its whole current interval, has paid for the unsealing and waits for
-- more blocks, and a provider with the same terms and the same interval.
pub record Level (d : ClientState) (q : ProviderState) (p u : ℕ) : Type 0 where
  pub terms : Terms d p u
  pub params : q.params ≡ d.params
  pub interval : q.current_interval ≡ d.current_interval
  pub fits : Fits d.params d.current_interval
  pub positive : 0 < d.current_interval
  pub reached : d.current_interval ≤ d.total_received
  pub unsealed : leb_ℤ d.unseal_price d.unseal_funds_paid ≡ true
  pub waiting : d.all_blocks_received ≡ false

module _ {d : ClientState} {q : ProviderState} {p u : ℕ} (l : Level d q p u) where
  -- The client sends the price of exactly the current interval.
  level-amount : calc_amount_to_send d ≡ pos (d.current_interval * p + u)
  level-amount =
      calc_amount_lem d p u l.terms
      ∙ rw (l.unsealed, l.waiting, le→ltb d.total_received d.current_interval l.reached)

  price : q.price_per_byte ≡ pos p
  price = ap (λ (t : Params). t.price_per_byte) l.params ∙ l.terms.price

  unseal : q.unseal_price ≡ pos u
  unseal = ap (λ (t : Params). t.unseal_price) l.params ∙ l.terms.unseal

  lower_bound :
      (n : ℕ)
      → interval_lower_bound d.params d.current_interval ≡ some n
      → interval_lower_bound q.params q.current_interval ≡ some n
  lower_bound n h = rw (l.params, l.interval) h

  owed_lem :
      (lower : ℕ)
      → interval_lower_bound d.params d.current_interval ≡ some lower
      → lower < d.current_interval
      → let total = pos (d.current_interval * p + u) in
        payment_owed q total ≡ some (pos (lower * p) -ℤ (total -ℤ pos u))
  unfolding payment_owed
  owed_lem lower bound below =
      let small = to_int64_small lower (omega (arith, l.reached, l.terms.small)) in
      let enough = le→ltb (d.current_interval * p + u + 0) (u + 0) (omega arith) in
      rw (payment_owed, lower_bound lower bound, price, unseal, enough, small, *ℤ_pos lower p)

  -- The provider then owes nothing more, whatever it has sent.
  level-owed : (o : ℤ) × (payment_owed q (pos (d.current_interval * p + u)) ≡ some o) × (o ≤ℤ pos 0)
  level-owed =
      let (n, bound, below, above) =
        interval_lower_bound-schedule d.params d.current_interval l.fits l.positive in
      let lower = schedule d.params n in
      let total = pos (d.current_interval * p + u) in
      let enough = times_mono lower d.current_interval p (omega arith) in
      (pos (lower * p) -ℤ (total -ℤ pos u), owed_lem lower bound below, omega int_laws)

judge-settled :
    (q : ProviderState) (payment : Payment) (received o : ℤ)
    → o ≤ℤ pos 0
    → judge_payment q payment received (some o) ≡ some (settled q payment received)
unfolding judge_payment
judge-settled q payment received o h = ground arith

-- Take a client that has received its current interval, has paid for the unsealing and waits for more
-- blocks, and a provider with the same terms and the same interval, with prices that are not negative
-- and no word that overflows. Once a voucher brings what the provider has received to the amount that
-- the client computes, the provider lets the transfer resume and reports a full payment to its deal.
pub lockstep_resumes :
    (env : RevalidatorEnvironment) (d : ClientState) (q : ProviderState) (p u : ℕ)
    (id : DealIdentifier) (payment : Payment) (received : ℤ)
    → Level d q p u
    → env.get id ≡ ok q
    → env.add_voucher_inbound payment.payment_channel payment.payment_voucher (pos 0) ≡ ok received
    → q.funds_received +ℤ received ≡ calc_amount_to_send d
    → (r : Processed) × (process_payment env id payment ≡ some r)
      × (r.error ≡ resume)
      × (r.sent ≡ some (Event.payment_received received payment.payment_channel))
unfolding process_payment settled
lockstep_resumes env d q p u id payment received l got added total =
    let (o, owed, enough) = level-owed l in
    let all_paid = total ∙ level-amount l in
    (
      settled q payment received,
      rw (got, process_payment, added, all_paid, owed) (judge-settled q payment received o enough),
      refl,
      refl,
    )

over : (i p u : ℕ) → pos (i * p + u) -ℤ pos u ≡ pos (i * p)
over i p u = omega int_laws

bytes_of :
    (i p : ℕ) → 0 < p → i < 18446744073709551616 → to_uint64 (div_ℤ (pos (i * p)) (pos p)) ≡ i
unfolding to_uint64 div_ℤ
bytes_of i p h k = rw (mul-div_cancel i h) (omega arith)

-- What a payment above the unsealing price leaves, where it reaches the current interval.
paid_up : ClientState → ℤ → ℕ → ClientState
paid_up d v i = record d {
  payment_requested = d.payment_requested -ℤ (v -ℤ d.funds_spent);
  funds_spent = v;
  unseal_funds_paid = d.unseal_price;
  bytes_paid_for = d.current_interval;
  current_interval = i;
}

record_payment-paid_up :
    (d : ClientState) (v : ℤ) (i : ℕ)
    → leb_ℤ v d.unseal_price ≡ false
    → is_zero d.price_per_byte ≡ false
    → to_uint64 (div_ℤ (v -ℤ d.unseal_price) d.price_per_byte) ≡ d.current_interval
    → next_interval d.params d.current_interval ≡ some i
    → record_payment v d ≡ some (paid_up d v i)
unfolding record_payment advance paid_up
record_payment-paid_up d v i above priced bytes next =
    rw (above, priced, bytes, le→leb d.current_interval d.current_interval (omega arith), next)

module _ {d : ClientState} {q : ProviderState} {p u : ℕ} (l : Level d q p u) (paid : 0 < p) where
  above_unseal : leb_ℤ (pos (d.current_interval * p + u)) d.unseal_price ≡ false
  above_unseal =
      let more : 0 < d.current_interval * p = grind (arith, l.positive) in
      rw l.terms.unseal (lt→leb _ _ (omega arith))

  priced : is_zero d.price_per_byte ≡ false
  priced = rw l.terms.price (ground arith)

  paid_bytes :
      to_uint64 (div_ℤ (pos (d.current_interval * p + u) -ℤ d.unseal_price) d.price_per_byte)
      ≡ d.current_interval
  paid_bytes =
      rw (l.terms.unseal, l.terms.price, over d.current_interval p u)
        (bytes_of d.current_interval p paid (omega (arith, l.reached, l.terms.small)))

-- For such a client and provider and a price above 0, the client's record of the payment that it sends
-- and the provider's record of a full payment both return, and leave the two sides with the same
-- current interval, above the one that was paid.
pub lockstep_advances :
    (d : ClientState) (q : ProviderState) (p u : ℕ) (received : ℤ) (ch : ℕ)
    → Level d q p u
    → 0 < p
    → (d' : ClientState) × (q' : ProviderState) × (action (payment_sent (calc_amount_to_send d)) d
        ≡ some d')
      × (provider_action (payment_received received ch) q ≡ some q')
      × (d'.current_interval ≡ q'.current_interval)
      × (d.current_interval < d'.current_interval)
unfolding action provider_action paid_up
lockstep_advances d q p u received ch l paid =
    let (n, next, low, high) = next_interval-schedule d.params d.current_interval l.fits in
    let i = schedule d.params (suc n) in
    let amount = level-amount l in
    let same : next_interval q.params q.current_interval ≡ some i =
      rw (l.params, l.interval) next in
    (
      paid_up d (calc_amount_to_send d) i,
      record q {
        funds_received = q.funds_received +ℤ received;
        pay_ch = some ch;
        current_interval = i;
      },
      record_payment-paid_up d (calc_amount_to_send d) i (rw amount (above_unseal l paid))
          (priced l paid) (rw amount (paid_bytes l paid)) next,
      rw same,
      refl,
      high,
    )
