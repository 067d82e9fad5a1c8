-- ===== src/Retrieval/Provider/Event.antt =====
-- The events of retrieval/provider/events.go, with the arguments that the actions of
-- retrieval/provider/fsm.go take.
use pop.Common.{ℕ}
use pop.Common.Int.{ℤ}
use pop.Common.Text.{String}

pub data Event : Type 0 where
  opened deal_not_found deal_rejected deal_accepted : Event
  block_sent : ℕ → Event
  blocks_completed : Event
  payment_requested : ℕ → Event
  save_voucher_failed : String → Event
  partial_payment_received : ℤ → ℕ → Event
  payment_received : ℤ → ℕ → Event
  complete unseal_error unseal_complete : Event
  data_transfer_error : String → Event
  cancel_complete cleanup_complete : Event
  multi_store_error : String → Event
  client_cancelled : Event
