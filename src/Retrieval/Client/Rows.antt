-- ===== src/Retrieval/Client/Rows.antt =====
-- The rows of `FSMEvents` in retrieval/client/fsm.go, event by event, and its final statuses.
use pop.Common.{Bool, List, [], ◌∷◌}
use pop.Retrieval.Status.{Status}
use pop.Retrieval.Fsm.{Row, to, no_change, just_record, from, from_any, among}
use pop.Retrieval.Client.Event.{Event}

abbrev pub payment_channel_creation_states : List Status
payment_channel_creation_states =
    Status.wait_for_acceptance ∷ Status.accepted ∷ Status.payment_channel_creating
    ∷ Status.payment_channel_allocating_lane ∷ Status.payment_channel_adding_initial_funds ∷ []

abbrev both_sends : List Status
both_sends = Status.send_funds ∷ Status.send_funds_last_payment ∷ []

abbrev one : Status → List Status
one s = s ∷ []

unfoldable pub rows : Event → List Row
rows Event.opened = from (one Status.new) no_change ∷ []
rows (Event.write_deal_proposal_errored _) = from_any (to Status.errored) ∷ []
rows (Event.deal_proposed _) = from (one Status.new) (to Status.wait_for_acceptance) ∷ []
rows (Event.deal_rejected _) = from (one Status.wait_for_acceptance) (to Status.rejected) ∷ []
rows (Event.deal_not_found _) =
    from (one Status.wait_for_acceptance) (to Status.deal_not_found) ∷ []
rows Event.deal_accepted =
    from (one Status.wait_for_acceptance) (to Status.accepted)
    ∷ from (one Status.client_waiting_for_last_blocks) no_change
    ∷ []
rows (Event.unknown_response_received _) = from_any (to Status.failing) ∷ []
rows Event.payment_channel_skip = from (one Status.accepted) (to Status.ongoing) ∷ []
rows (Event.payment_channel_errored _) =
    from
      (Status.accepted ∷ Status.payment_channel_creating ∷ Status.payment_channel_adding_funds ∷ [])
      (to Status.failing)
    ∷ []
rows (Event.payment_channel_create_initiated _) =
    from (one Status.accepted) (to Status.payment_channel_creating) ∷ []
rows (Event.payment_channel_adding_funds _ _) =
    from (one Status.accepted) (to Status.payment_channel_adding_initial_funds)
    ∷ from (one Status.check_funds) (to Status.payment_channel_adding_funds)
    ∷ []
rows (Event.payment_channel_ready _) =
    from
      (Status.payment_channel_creating ∷ Status.payment_channel_adding_initial_funds
        ∷ Status.accepted ∷ [])
      (to Status.payment_channel_allocating_lane)
    ∷ from (one Status.payment_channel_adding_funds) (to Status.ongoing)
    ∷ from (one Status.check_funds) (to Status.ongoing)
    ∷ []
rows (Event.allocate_lane_errored _) =
    from (one Status.payment_channel_allocating_lane) (to Status.failing) ∷ []
rows (Event.lane_allocated _) =
    from (one Status.payment_channel_allocating_lane) (to Status.ongoing) ∷ []
rows (Event.provider_errored _) = from_any (to Status.errored) ∷ []
rows (Event.data_transfer_error _) = from_any (to Status.errored) ∷ []
rows (Event.last_payment_requested _) =
    from (Status.ongoing ∷ Status.funds_needed_last_payment ∷ Status.funds_needed ∷ [])
      (to Status.funds_needed_last_payment)
    ∷ from (one Status.send_funds) (to Status.ongoing)
    ∷ from (one Status.check_complete) no_change
    ∷ from (one Status.blocks_complete) (to Status.send_funds_last_payment)
    ∷ from payment_channel_creation_states just_record
    ∷ []
rows (Event.payment_requested _) =
    from
      (Status.ongoing ∷ Status.blocks_complete ∷ Status.funds_needed_last_payment
        ∷ Status.funds_needed ∷ [])
      (to Status.funds_needed)
    ∷ from (one Status.send_funds) (to Status.ongoing)
    ∷ from (one Status.check_complete) no_change
    ∷ from payment_channel_creation_states just_record
    ∷ []
rows (Event.unseal_payment_requested _) =
    from (one Status.wait_for_acceptance) (to Status.accepted) ∷ []
rows Event.all_blocks_received =
    from (Status.ongoing ∷ Status.blocks_complete ∷ []) (to Status.blocks_complete)
    ∷ from payment_channel_creation_states just_record
    ∷ from both_sends (to Status.ongoing)
    ∷ from (one Status.funds_needed) no_change
    ∷ from (one Status.funds_needed_last_payment) (to Status.send_funds_last_payment)
    ∷ from (Status.client_waiting_for_last_blocks ∷ Status.check_complete ∷ [])
        (to Status.completed)
    ∷ []
rows (Event.blocks_received _) =
    from
      (Status.ongoing ∷ Status.funds_needed ∷ Status.funds_needed_last_payment
        ∷ Status.check_complete ∷ Status.client_waiting_for_last_blocks ∷ [])
      no_change
    ∷ from both_sends (to Status.ongoing)
    ∷ from payment_channel_creation_states just_record
    ∷ []
rows Event.send_funds =
    from both_sends (to Status.ongoing)
    ∷ from (one Status.funds_needed) (to Status.send_funds)
    ∷ from (one Status.funds_needed_last_payment) (to Status.send_funds_last_payment)
    ∷ []
rows (Event.funds_expended _) = from (one Status.check_funds) (to Status.insufficient_funds) ∷ []
rows (Event.bad_payment_requested _) = from both_sends (to Status.failing) ∷ []
rows (Event.create_voucher_failed _) = from both_sends (to Status.failing) ∷ []
rows (Event.voucher_shortfall _) = from both_sends (to Status.check_funds) ∷ []
rows (Event.write_deal_payment_errored _) = from_any (to Status.errored) ∷ []
rows Event.payment_not_sent =
    from (one Status.ongoing) just_record
    ∷ from (one Status.send_funds) (to Status.ongoing)
    ∷ from (one Status.send_funds_last_payment) (to Status.finalizing)
    ∷ []
rows (Event.payment_sent _) =
    from (one Status.ongoing) just_record
    ∷ from (one Status.blocks_complete) (to Status.check_complete)
    ∷ from (one Status.check_complete) no_change
    ∷ from (Status.funds_needed ∷ Status.funds_needed_last_payment ∷ Status.send_funds ∷ [])
        (to Status.ongoing)
    ∷ from (one Status.send_funds_last_payment) (to Status.finalizing)
    ∷ []
rows Event.complete =
    from
      (Status.send_funds ∷ Status.send_funds_last_payment ∷ Status.funds_needed
        ∷ Status.funds_needed_last_payment ∷ Status.blocks_complete ∷ Status.wait_for_acceptance
        ∷ Status.accepted ∷ Status.ongoing ∷ [])
      (to Status.check_complete)
    ∷ from (one Status.finalizing) (to Status.completed)
    ∷ []
rows Event.complete_verified = from (one Status.check_complete) (to Status.completed) ∷ []
rows Event.early_termination = from (one Status.check_complete) (to Status.errored) ∷ []
rows Event.wait_for_last_blocks =
    from (one Status.check_complete) (to Status.client_waiting_for_last_blocks)
    ∷ from (one Status.completed) just_record
    ∷ []
rows Event.cancel_complete =
    from (one Status.failing) (to Status.errored)
    ∷ from (one Status.cancelling) (to Status.cancelled)
    ∷ []
rows Event.provider_cancelled =
    from (one Status.failing) just_record
    ∷ from (one Status.cancelling) just_record
    ∷ from_any (to Status.cancelling)
    ∷ []
rows Event.cancel = from_any (to Status.cancelling) ∷ []
rows Event.recheck_funds = from (one Status.insufficient_funds) (to Status.check_funds) ∷ []
rows Event.payment_channel_add_funds_errored = []

abbrev finality_states : List Status
finality_states =
    Status.errored ∷ Status.completed ∷ Status.cancelled ∷ Status.rejected ∷ Status.deal_not_found
    ∷ []

unfoldable pub is_final : Status → Bool
unfolding among
is_final s = among s finality_states
