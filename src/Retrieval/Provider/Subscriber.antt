-- ===== src/Retrieval/Provider/Subscriber.antt =====
-- retrieval/provider/dtsubscriber.go: the events that a data transfer sends to the deal's machine.
use pop.Common.{ℕ, Bool, List, [], ◌∷◌, ◌++◌, Option, none, some, ◌==◌, if◌then◌else◌}
use pop.Common.Text.{String, ◌+++◌}
use pop.Retrieval.Deal.{DealIdentifier}
use pop.Retrieval.Provider.Event.{Event}

-- The codes of the data transfer library that the code tells apart.
pub data Code : Type 0 where
  accept disconnected errored cancel other : Code

-- What is read of a transfer; `deal_id` is that of the proposal its voucher holds.
pub record ChannelState : Type 0 where
  pub sender : ℕ
  pub recipient : ℕ
  pub is_completed : Bool
  pub deal_id : Option ℕ

-- `none` is `noProviderEvent`.
unfoldable pub event_from_data_transfer : Code → String → Option Event
event_from_data_transfer Code.accept m = some Event.deal_accepted
event_from_data_transfer Code.disconnected m =
    some (Event.data_transfer_error "deal data transfer stalled (peer hungup)")
event_from_data_transfer Code.errored m =
    some (Event.data_transfer_error ("deal data transfer failed: " +++ m))
event_from_data_transfer Code.cancel m = some Event.client_cancelled
event_from_data_transfer Code.other m = none

-- The events sent, in order: a completed transfer completes the deal first.
unfoldable pub data_transfer_subscriber :
    ℕ → Code → String → ChannelState → List (DealIdentifier × Event)
unfolding event_from_data_transfer
data_transfer_subscriber host code m s = elim s.deal_id [
  | none ↦ []
  | some id ↦
      let deal : DealIdentifier = record { peer = s.recipient; deal_id = id } in
      if s.sender == host
      then (if s.is_completed then (deal, Event.complete) ∷ [] else [])
        ++ elim (event_from_data_transfer code m) [ none ↦ [] | some e ↦ (deal, e) ∷ [] ]
      else []
]
