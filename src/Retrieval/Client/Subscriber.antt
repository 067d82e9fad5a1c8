-- ===== src/Retrieval/Client/Subscriber.antt =====
-- retrieval/client/dtsubscriber.go: the events that a data transfer sends to the deal's machine.
use pop.Common.{ℕ, Bool, Option, none, some, ◌==◌, if◌then◌else◌}
use pop.Common.Text.{String, ◌+++◌}
use pop.Retrieval.Status.{Status}
use pop.Retrieval.Deal.{Response}
use pop.Retrieval.Client.Event.{Event}

unfoldable pub event_from_deal_status : Response → Event
event_from_deal_status r = elim r.status [
  | Status.rejected ↦ Event.deal_rejected r.message
  | Status.errored ↦ Event.provider_errored r.message
  | Status.deal_not_found ↦ Event.deal_not_found r.message
  | Status.accepted ↦ Event.deal_accepted
  | Status.funds_needed_unseal ↦ Event.unseal_payment_requested r.payment_owed
  | Status.funds_needed_last_payment ↦ Event.last_payment_requested r.payment_owed
  | Status.completed ↦ Event.complete
  | Status.funds_needed ↦ Event.payment_requested r.payment_owed
  | Status.ongoing ↦ Event.payment_requested r.payment_owed
  | _ ↦ Event.unknown_response_received none
]

-- The codes of the data transfer library that the code tells apart.
pub data Code : Type 0 where
  data_received_progress finish_transfer cancel new_voucher_result disconnected errored : Code
  other : Code

-- What is read of a transfer: its last voucher result is a deal's response or something else, and
-- its message is that of a rejection or not.
pub record ChannelState : Type 0 where
  pub received : ℕ
  pub last_voucher_result : Option Response
  pub is_rejected : Bool
  pub recipient : ℕ
  pub deal_id : Option ℕ

-- `none` is `noEvent`.
unfoldable pub event_from_data_transfer : Code → String → ChannelState → Option Event
unfolding event_from_deal_status
event_from_data_transfer Code.data_received_progress m s = some (Event.blocks_received s.received)
event_from_data_transfer Code.finish_transfer m s = some Event.all_blocks_received
event_from_data_transfer Code.cancel m s = some Event.provider_cancelled
event_from_data_transfer Code.new_voucher_result m s = elim s.last_voucher_result [
  | none ↦ none
  | some r ↦ some (event_from_deal_status r)
]
event_from_data_transfer Code.disconnected m s =
    some (Event.data_transfer_error "deal data transfer stalled (peer hungup)")
event_from_data_transfer Code.errored m s =
    if s.is_rejected
    then some (Event.deal_rejected "rejected for unknown reasons")
    else some (Event.data_transfer_error ("deal data transfer failed: " +++ m))
event_from_data_transfer Code.other m s = none

-- The deal and the event to send it, unless the transfer is no deal or is not received here.
unfoldable pub data_transfer_subscriber : ℕ → Code → String → ChannelState → Option (ℕ × Event)
unfolding event_from_data_transfer
data_transfer_subscriber host code m s = elim s.deal_id [
  | none ↦ none
  | some id ↦
      if s.recipient == host
      then elim (event_from_data_transfer code m s) [ none ↦ none | some e ↦ some (id, e) ]
      else none
]
