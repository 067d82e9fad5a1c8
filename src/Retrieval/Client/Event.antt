-- ===== src/Retrieval/Client/Event.antt =====
-- The events of retrieval/client/events.go with the arguments that the actions of
-- retrieval/client/fsm.go take. An error argument is its text.
use pop.Common.{ℕ, Bool, true, false, Option, none}
use pop.Common.Int.{ℤ}
use pop.Common.Text.{String}
use pop.Retrieval.Status.{Status}

-- `unknown_response_received none` is the event sent without its argument.
pub data Event : Type 0 where
  opened deal_accepted payment_channel_skip payment_channel_add_funds_errored : Event
  write_deal_proposal_errored : String → Event
  deal_proposed : ℕ → Event
  deal_rejected : String → Event
  deal_not_found : String → Event
  provider_cancelled : Event
  unknown_response_received : Option Status → Event
  payment_channel_errored : String → Event
  allocate_lane_errored : String → Event
  payment_channel_create_initiated : ℕ → Event
  payment_channel_ready : ℕ → Event
  payment_channel_adding_funds : ℕ → ℕ → Event
  last_payment_requested : ℤ → Event
  all_blocks_received : Event
  payment_requested : ℤ → Event
  payment_not_sent : Event
  unseal_payment_requested : ℤ → Event
  blocks_received : ℕ → Event
  send_funds : Event
  funds_expended : ℤ → Event
  bad_payment_requested : String → Event
  create_voucher_failed : String → Event
  write_deal_payment_errored : String → Event
  payment_sent : ℤ → Event
  complete : Event
  data_transfer_error : String → Event
  cancel_complete early_termination complete_verified : Event
  lane_allocated : ℕ → Event
  voucher_shortfall : ℤ → Event
  recheck_funds cancel wait_for_last_blocks : Event
  provider_errored : String → Event

-- Every event but one is always built with its arguments.
unfoldable pub well_typed : Event → Bool
well_typed (unknown_response_received none) = false
well_typed _ = true
