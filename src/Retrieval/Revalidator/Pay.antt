-- ===== src/Retrieval/Revalidator/Pay.antt =====
-- Revalidate and processPayment of retrieval/validators.go. `none` as a result is an interval loop
-- that does not return.
use pop.Common.{ℕ, true, Option, none, some, if◌then◌else◌}
use pop.Common.Int.{ℤ, pos, ◌+ℤ◌, ltb_ℤ}
use pop.Common.Result.{ok, err}
use pop.Retrieval.Status.{Status, same}
use pop.Retrieval.Deal.{ProviderState, DealIdentifier, Response, Payment}
use pop.Retrieval.Provider.Event.{Event}
use pop.Retrieval.Revalidator.State.{
  ChannelData, Tracked, lookup, insert, RevalidatorEnvironment, Error, nil, pause, resume, failed,
  payment_owed, error_deal_response,
}

abbrev pub reloading : ℕ → ChannelData → Tracked → Error → Tracked
reloading chid c t nil = insert chid (record c { reload = true }) t
reloading chid c t resume = insert chid (record c { reload = true }) t
reloading chid c t _ = t

-- The event that a payment sends to the deal, and the answer to the client.
pub record Processed : Type 0 where
  pub sent : Option Event
  pub response : Option Response
  pub error : Error

-- The answers where something is still owed and where nothing is.
unfoldable pub still_owes : ProviderState → Payment → ℤ → ℤ → Processed
still_owes d payment received owed = record {
  sent = some (Event.partial_payment_received received payment.payment_channel);
  response = some (record { status = d.status; id = d.id; payment_owed = owed; message = "" });
  error = pause;
}

unfoldable pub settled : ProviderState → Payment → ℤ → Processed
settled d payment received = record {
  sent = some (Event.payment_received received payment.payment_channel);
  response =
      if same d.status Status.funds_needed_last_payment
      then some
          (record { status = Status.completed; id = d.id; payment_owed = pos 0; message = "" })
      else none;
  error = resume;
}

unfoldable pub judge_payment : ProviderState → Payment → ℤ → Option ℤ → Option Processed
judge_payment d payment received none = none
judge_payment d payment received (some owed) =
    if ltb_ℤ (pos 0) owed
    then some (still_owes d payment received owed)
    else some (settled d payment received)

module _ (env : RevalidatorEnvironment) where
  unfoldable pub process_payment : DealIdentifier → Payment → Option Processed
  unfolding judge_payment error_deal_response
  process_payment id payment = elim (env.get id) [
    | err e ↦
        some (record { sent = none; response = some (error_deal_response id e); error = failed e })
    | ok d ↦
        elim (env.add_voucher_inbound payment.payment_channel payment.payment_voucher (pos 0)) [
          | err e ↦ some (record {
            sent = some (Event.save_voucher_failed e);
            response = some (error_deal_response id e);
            error = failed e;
          })
          | ok received ↦
              judge_payment d payment received (payment_owed d (d.funds_received +ℤ received))
        ]
  ]

  -- A payment that resumes the transfer has the deal read again before the next check.
  unfoldable pub revalidate :
      Tracked → ℕ → Option Payment → Option (Tracked × Option Event × Option Response × Error)
  unfolding process_payment
  revalidate t chid voucher = elim (lookup chid t) [
    | none ↦ some (t, none, none, nil)
    | some c ↦ elim voucher [
      | none ↦ some (t, none, none, failed "wrong voucher type")
      | some payment ↦ elim (process_payment c.deal_id payment) [
        | none ↦ none
        | some r ↦ some (reloading chid c t r.error, r.sent, r.response, r.error)
      ]
    ]
  ]
