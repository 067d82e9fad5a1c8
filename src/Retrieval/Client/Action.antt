-- ===== src/Retrieval/Client/Action.antt =====
-- The actions of `FSMEvents` in retrieval/client/fsm.go. `none` stands for a panic on a nil pointer
-- and for a loop of `NextInterval` that does not return.
use pop.Common.{ℕ, true, Option, none, some, leb, ◌&&◌, not, if◌then◌else◌}
use pop.Common.Int.{ℤ, ◌+ℤ◌, ◌-ℤ◌, div_ℤ, to_uint64, leb_ℤ, is_zero}
use pop.Common.Text.{String, ◌+++◌, show_ℤ}
use pop.Retrieval.Status.{Status, name, same}
use pop.Retrieval.Deal.{ClientState, PaymentInfo, next_interval}
use pop.Retrieval.Client.Event.{Event}

abbrev says : ClientState → String → Option ClientState
says d m = some (record d { message = m })

abbrev pub advance_to : ClientState → Option ℕ → Option ClientState
advance_to d none = none
advance_to d (some i) = some (record d { current_interval = i })

-- `BytesPaidFor >= CurrentInterval` moves on to the next interval.
unfoldable pub advance : ClientState → Option ClientState
advance d =
    if leb d.current_interval d.bytes_paid_for
    then advance_to d (next_interval d.params d.current_interval)
    else some d

-- The accounting of `EventPaymentSent`.
unfoldable pub record_payment : ℤ → ClientState → Option ClientState
unfolding advance
record_payment amount d =
    let paid = record d {
      payment_requested = d.payment_requested -ℤ (amount -ℤ d.funds_spent);
      funds_spent = amount;
    } in
    let unsealed = record paid { unseal_funds_paid = d.unseal_price } in
    if leb_ℤ amount d.unseal_price
    then some (record paid { unseal_funds_paid = amount })
    else if is_zero d.price_per_byte
    then some unsealed
    else advance (record unsealed {
      bytes_paid_for = to_uint64 (div_ℤ (amount -ℤ d.unseal_price) d.price_per_byte);
    })

-- The payment channel is noted once.
abbrev with_channel : ℕ → ClientState → ClientState
with_channel ch d = elim d.payment_info [
  | none ↦ record d { payment_info = some (record { pay_ch = ch; lane = 0 }) }
  | some _ ↦ d
]

set_lane : ℕ → ClientState → Option PaymentInfo → Option ClientState
set_lane lane d none = none
set_lane lane d (some info) = some (record d { payment_info = some (record info { lane = lane }) })

abbrev request : ℤ → ClientState → ClientState
request owed d = record d { payment_requested = d.payment_requested +ℤ owed }

cancelled_by_provider : ClientState → ClientState
cancelled_by_provider d =
    if not (same d.status Status.failing) && not (same d.status Status.cancelling)
    then record d { message = "Provider cancelled retrieval" }
    else d

unfoldable pub action : Event → ClientState → Option ClientState
unfolding record_payment set_lane cancelled_by_provider
action (Event.write_deal_proposal_errored e) d = says d ("proposing deal: " +++ e)
action (Event.deal_proposed channel) d = some (record d { channel_id = channel; message = "" })
action (Event.deal_rejected m) d = says d ("deal rejected: " +++ m)
action (Event.deal_not_found m) d = says d ("deal not found: " +++ m)
action (Event.unknown_response_received (some s)) d =
    says d ("Unexpected deal response status: " +++ name s)
action (Event.payment_channel_errored e) d = says d ("error from payment channel: " +++ e)
action (Event.payment_channel_create_initiated m) d = some (record d { wait_msg_cid = some m })
action (Event.payment_channel_adding_funds m ch) d =
    some (with_channel ch (record d { wait_msg_cid = some m }))
action (Event.payment_channel_ready ch) d =
    some (record (with_channel ch d) { wait_msg_cid = none; message = "" })
action (Event.allocate_lane_errored e) d = says d ("allocating payment lane: " +++ e)
action (Event.lane_allocated lane) d = set_lane lane d d.payment_info
action (Event.provider_errored m) d = says d m
action (Event.data_transfer_error e) d = says d ("error generated by data transfer: " +++ e)
action (Event.last_payment_requested owed) d =
    some (record (request owed d) { last_payment_requested = true })
action (Event.payment_requested owed) d = some (request owed d)
action (Event.unseal_payment_requested owed) d = some (request owed d)
action Event.all_blocks_received d = some (record d { all_blocks_received = true })
action (Event.blocks_received total) d = some (record d { total_received = total })
action (Event.funds_expended shortfall) d = some (record d {
  message =
      "not enough current or pending funds in payment channel, shortfall of " +++ show_ℤ shortfall;
  voucher_shortfall = shortfall;
})
action (Event.bad_payment_requested m) d = says d m
action (Event.create_voucher_failed e) d = says d ("creating payment voucher: " +++ e)
action (Event.write_deal_payment_errored e) d = says d ("writing deal payment: " +++ e)
action (Event.payment_sent amount) d = record_payment amount d
action Event.early_termination d = says d "Provider sent complete status without sending all data"
action Event.provider_cancelled d = some (cancelled_by_provider d)
action Event.cancel d = says d "Client cancelled retrieval"
action _ d = some d
