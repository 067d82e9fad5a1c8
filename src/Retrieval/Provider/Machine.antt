-- ===== src/Retrieval/Provider/Machine.antt =====
-- `FSMEvents` of retrieval/provider/fsm.go: rows, actions and final statuses, and runs under them.
use pop.Common.{ℕ, ◌≡◌, Bool, true, List, [], ◌∷◌, Option, none, some, not, if◌then◌else◌}
use pop.Common.Int.{ℤ, pos, ◌+ℤ◌}
use pop.Common.Text.{String}
use pop.Retrieval.Status.{Status, same}
use pop.Retrieval.Deal.{ProviderState, next_interval}
use pop.Retrieval.Fsm.{
  Chart, FsmLibrary, Row, to, no_change, just_record, from, from_any, among, moved,
}
use pop.Retrieval.Provider.Event.{Event}

abbrev one : Status → List Status
one s = s ∷ []

abbrev both_needs : List Status
both_needs = Status.funds_needed ∷ Status.funds_needed_last_payment ∷ []

unfoldable pub rows : Event → List Row
rows Event.opened = from (one Status.new) no_change ∷ []
rows Event.deal_accepted = from (one Status.new) (to Status.ongoing) ∷ []
rows (Event.block_sent _) = from (one Status.ongoing) no_change ∷ []
rows Event.blocks_completed = from (one Status.ongoing) (to Status.blocks_complete) ∷ []
rows (Event.payment_requested _) =
    from (one Status.ongoing) (to Status.funds_needed)
    ∷ from (one Status.funds_needed) just_record
    ∷ from (one Status.blocks_complete) (to Status.funds_needed_last_payment)
    ∷ []
rows (Event.save_voucher_failed _) = from both_needs (to Status.failing) ∷ []
rows (Event.partial_payment_received _ _) = from both_needs no_change ∷ []
rows (Event.payment_received _ _) =
    from (one Status.funds_needed) (to Status.ongoing)
    ∷ from (one Status.funds_needed_last_payment) (to Status.finalizing)
    ∷ from (Status.blocks_complete ∷ Status.ongoing ∷ Status.finalizing ∷ []) just_record
    ∷ []
rows Event.complete =
    from (Status.blocks_complete ∷ Status.finalizing ∷ []) (to Status.completing) ∷ []
rows Event.cleanup_complete = from (one Status.completing) (to Status.completed) ∷ []
rows Event.cancel_complete =
    from (one Status.cancelling) (to Status.cancelled)
    ∷ from (one Status.failing) (to Status.errored)
    ∷ []
rows (Event.data_transfer_error _) = from_any (to Status.errored) ∷ []
rows (Event.multi_store_error _) = from_any (to Status.errored) ∷ []
rows Event.client_cancelled =
    from (one Status.failing) just_record
    ∷ from (one Status.cancelling) just_record
    ∷ from_any (to Status.cancelling)
    ∷ []
rows Event.deal_not_found = []
rows Event.deal_rejected = []
rows Event.unseal_error = []
rows Event.unseal_complete = []

unfoldable pub record_error : ProviderState → String → Option ProviderState
record_error d e = some (record d { message = e })

abbrev credit : ProviderState → ℤ → ℕ → ProviderState
credit d amount ch = record d { funds_received = d.funds_received +ℤ amount; pay_ch = some ch }

abbrev next_for : ProviderState → Option ℕ → Option ProviderState
next_for d none = none
next_for d (some i) = some (record d { current_interval = i })

cancelled_by_client : ProviderState → ProviderState
cancelled_by_client d =
    if not (same d.status Status.failing)
    then record d { message = "Client cancelled retrieval" }
    else d

-- `none` is a loop of `NextInterval` that does not return.
unfoldable pub action : Event → ProviderState → Option ProviderState
unfolding record_error cancelled_by_client
action (Event.block_sent total) d = some (record d { total_sent = total })
action (Event.payment_requested total) d = some (record d { total_sent = total })
action (Event.save_voucher_failed e) d = record_error d e
action (Event.partial_payment_received amount ch) d = some (credit d amount ch)
action (Event.payment_received amount ch) d =
    next_for (credit d amount ch) (next_interval d.params d.current_interval)
action (Event.data_transfer_error e) d = record_error d e
action (Event.multi_store_error e) d = record_error d e
action Event.client_cancelled d = some (cancelled_by_client d)
action _ d = some d

abbrev finality_states : List Status
finality_states = Status.errored ∷ Status.completed ∷ Status.cancelled ∷ []

unfoldable pub is_final : Status → Bool
unfolding among
is_final s = among s finality_states

abbrev pub chart : Chart Event ProviderState
chart = record {
  rows = rows;
  action = action;
  well_typed = λ _. true;
  status = λ d. d.status;
  set_status = λ d s. record d { status = s };
  is_final = is_final;
}

-- The amount that an event says was received.
abbrev pub received : Event → ℤ
received (Event.partial_payment_received a _) = a
received (Event.payment_received a _) = a
received _ = pos 0

-- The deal `d` becomes `d'` by accepted events that report `total` in all.
pub data Run (lib : FsmLibrary) (d : ProviderState) : ℤ → ProviderState → Type 0 where
  start : Run lib d (pos 0) d
  more :
      {total : ℤ} {d' d'' : ProviderState} {entered : Bool} (e : Event)
      → Run lib d total d'
      → lib.send Event ProviderState chart e d' ≡ moved d'' entered
      → Run lib d (total +ℤ received e) d''
