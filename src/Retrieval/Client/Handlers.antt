-- ===== src/Retrieval/Client/Handlers.antt =====
-- The entry functions of retrieval/client/fsm.go: what a deal does on entering a status. A handler
-- triggers at most one event; what it asks of payments and of the data transfer is its environment.
use pop.Common.{ℕ, Option, none, some, ltb, leb, ◌&&◌, not, ◌==◌, if◌then◌else◌}
use pop.Common.Int.{ℤ, pos, ◌+ℤ◌, ◌-ℤ◌, ◌*ℤ◌, to_int64, ltb_ℤ, leb_ℤ, is_zero}
use pop.Common.Result.{Result, ok, err}
use pop.Payments.Voucher.{VoucherCreateResult}
use pop.Retrieval.Status.{Status}
use pop.Retrieval.Deal.{ClientState, Proposal, Payment, PaymentInfo}
use pop.Retrieval.Client.Event.{Event}

-- The answers of payments.Manager that the handlers read. An undefined address or CID is 0.
pub record ChannelResponse : Type 0 where
  pub channel : ℕ
  pub wait_sentinel : ℕ

pub record AvailableFunds : Type 0 where
  pub confirmed_amt : ℤ
  pub pending_amt : ℤ
  pub pending_wait_sentinel : Option ℕ
  pub queued_amt : ℤ
  pub voucher_redeemed_amt : ℤ

pub record DealEnvironment : Type 0 where
  pub open_data_transfer : ℕ → Proposal → Result ℕ
  pub send_data_transfer_voucher : ℕ → Payment → Result (Unit {0})
  pub close_data_transfer : ℕ → Result (Unit {0})
  pub get_channel : ℕ → ℕ → ℤ → Result ChannelResponse
  pub wait_for_channel : ℕ → Result ℕ
  pub allocate_lane : ℕ → Result ℕ
  pub create_voucher : ℕ → ℤ → ℕ → Result VoucherCreateResult
  pub channel_available_funds : ℕ → Result AvailableFunds

-- `panics` is a nil dereference.
pub data Outcome : Type 0 where
  triggers : Event → Outcome
  idle panics : Outcome

-- The price of a number of bytes, with the unsealing.
unfoldable pub price_of : ClientState → ℕ → ℤ
price_of d bytes = to_int64 bytes *ℤ d.price_per_byte +ℤ d.unseal_price

unfoldable pub calc_amount_to_send : ClientState → ℤ
calc_amount_to_send d =
    if leb_ℤ d.unseal_price d.unseal_funds_paid && not d.all_blocks_received
    then if ltb d.total_received d.current_interval then pos 0 else price_of d d.current_interval
    else price_of d d.total_received

module _ (env : DealEnvironment) (d : ClientState) where
  unfoldable pub propose_deal : Outcome
  propose_deal = elim (env.open_data_transfer d.sender d.proposal) [
    | ok channel ↦ triggers (Event.deal_proposed channel)
    | err e ↦ triggers (Event.write_deal_proposal_errored e)
  ]

  unfoldable pub setup_payment_channel_start : Outcome
  setup_payment_channel_start =
      if is_zero d.total_funds
      then triggers Event.payment_channel_skip
      else elim (env.get_channel d.client_wallet d.miner_wallet d.total_funds) [
        | err e ↦ triggers (Event.payment_channel_errored e)
        | ok res ↦
            if res.channel == 0
            then triggers (Event.payment_channel_create_initiated res.wait_sentinel)
            else if res.wait_sentinel == 0
            then triggers (Event.payment_channel_ready res.channel)
            else triggers (Event.payment_channel_adding_funds res.wait_sentinel res.channel)
      ]

  unfoldable pub wait_payment_channel_ready : Outcome
  wait_payment_channel_ready = elim d.wait_msg_cid [
    | none ↦ panics
    | some mcid ↦ elim (env.wait_for_channel mcid) [
      | err e ↦ triggers (Event.payment_channel_errored e)
      | ok paych ↦ triggers (Event.payment_channel_ready paych)
    ]
  ]

  unfoldable pub allocate_lane : Outcome
  allocate_lane = elim d.payment_info [
    | none ↦ panics
    | some info ↦ elim (env.allocate_lane info.pay_ch) [
      | err e ↦ triggers (Event.allocate_lane_errored e)
      | ok lane ↦ triggers (Event.lane_allocated lane)
    ]
  ]

  unfoldable pub ongoing : Outcome
  ongoing =
      if ltb_ℤ (pos 0) d.payment_requested
      then if d.last_payment_requested
        then triggers (Event.last_payment_requested (pos 0))
        else triggers (Event.payment_requested (pos 0))
      else idle

  unfoldable pub process_payment_requested : Outcome
  process_payment_requested =
      if ltb_ℤ d.unseal_funds_paid d.unseal_price
      then triggers Event.send_funds
      else if leb d.total_received d.bytes_paid_for
      then idle
      else if d.all_blocks_received
      then triggers Event.send_funds
      else if leb d.current_interval d.total_received
      then triggers Event.send_funds
      else idle

  unfoldable pub send_voucher : PaymentInfo → ℤ → VoucherCreateResult → Outcome
  send_voucher info total res =
      if ltb_ℤ (pos 0) res.shortfall
      then triggers (Event.voucher_shortfall res.shortfall)
      else elim (env.send_data_transfer_voucher d.channel_id payment) [
        | err e ↦ triggers (Event.write_deal_payment_errored e)
        | ok _ ↦ triggers (Event.payment_sent total)
      ]
    where
      payment : Payment
      payment = record { id = d.id; payment_channel = info.pay_ch; payment_voucher = res.voucher }

  unfoldable pub send_funds : Outcome
  unfolding send_voucher
  send_funds =
      if leb_ℤ (calc_amount_to_send d) d.funds_spent
      then triggers Event.payment_not_sent
      else elim d.payment_info [
        | none ↦ panics
        | some info ↦ elim (env.create_voucher info.pay_ch (calc_amount_to_send d) info.lane) [
          | err e ↦ triggers (Event.create_voucher_failed e)
          | ok res ↦ send_voucher info (calc_amount_to_send d) res
        ]
      ]

  unfoldable pub missing_funds : AvailableFunds → ℤ
  missing_funds funds = calc_amount_to_send d -ℤ (funds.confirmed_amt -ℤ funds.voucher_redeemed_amt)

  unfoldable pub judge_funds : ℕ → AvailableFunds → Outcome
  unfolding missing_funds
  judge_funds ch funds =
      let shortfall = missing_funds funds in
      let in_flight = funds.pending_amt +ℤ funds.queued_amt in
      if leb_ℤ shortfall (pos 0)
      then triggers (Event.payment_channel_ready ch)
      else elim funds.pending_wait_sentinel [
        | none ↦ triggers (Event.funds_expended (shortfall -ℤ in_flight))
        | some sentinel ↦
            if ltb_ℤ in_flight shortfall
            then triggers (Event.funds_expended (shortfall -ℤ in_flight))
            else triggers (Event.payment_channel_adding_funds sentinel ch)
      ]

  unfoldable pub check_funds : Outcome
  unfolding judge_funds
  check_funds = elim d.payment_info [
    | none ↦ panics
    | some info ↦ elim d.wait_msg_cid [
      | some mcid ↦ triggers (Event.payment_channel_adding_funds mcid info.pay_ch)
      | none ↦ elim (env.channel_available_funds info.pay_ch) [
        | err e ↦ triggers (Event.payment_channel_errored e)
        | ok funds ↦ judge_funds info.pay_ch funds
      ]
    ]
  ]

  unfoldable pub cancel_deal : Outcome
  cancel_deal = elim (env.close_data_transfer d.channel_id) [
    | err e ↦ triggers (Event.data_transfer_error e)
    | ok _ ↦ triggers Event.cancel_complete
  ]

  unfoldable pub check_complete : Outcome
  check_complete =
      if d.all_blocks_received
      then triggers Event.complete_verified
      else if is_zero d.price_per_byte
      then triggers Event.wait_for_last_blocks
      else triggers Event.early_termination

  -- `StateEntryFuncs`.
  unfoldable pub entry : Status → Outcome
  unfolding propose_deal setup_payment_channel_start wait_payment_channel_ready allocate_lane
      ongoing process_payment_requested send_funds check_funds cancel_deal check_complete
  entry Status.new = propose_deal
  entry Status.accepted = setup_payment_channel_start
  entry Status.payment_channel_creating = wait_payment_channel_ready
  entry Status.payment_channel_adding_initial_funds = wait_payment_channel_ready
  entry Status.payment_channel_allocating_lane = allocate_lane
  entry Status.ongoing = ongoing
  entry Status.funds_needed = process_payment_requested
  entry Status.funds_needed_last_payment = process_payment_requested
  entry Status.send_funds = send_funds
  entry Status.send_funds_last_payment = send_funds
  entry Status.check_funds = check_funds
  entry Status.payment_channel_adding_funds = wait_payment_channel_ready
  entry Status.failing = cancel_deal
  entry Status.cancelling = cancel_deal
  entry Status.check_complete = check_complete
  entry _ = idle
