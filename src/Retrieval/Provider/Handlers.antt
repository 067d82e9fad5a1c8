-- ===== src/Retrieval/Provider/Handlers.antt =====
-- The entry functions of retrieval/provider/fsm.go.
use pop.Common.{ℕ}
use pop.Common.Result.{Result, ok, err}
use pop.Common.Text.{String}
use pop.Retrieval.Status.{Status}
use pop.Retrieval.Deal.{ProviderState}
use pop.Retrieval.Provider.Event.{Event}

-- Closing a transfer may find it terminated, which is no error.
pub data Closed : Type 0 where
  closed terminated : Closed
  failed : String → Closed

pub record DealEnvironment : Type 0 where
  pub track_transfer : ProviderState → Result (Unit {0})
  pub untrack_transfer : ProviderState → Result (Unit {0})
  pub delete_store : ℕ → Result (Unit {0})
  pub resume_data_transfer : ℕ → Result (Unit {0})
  pub close_data_transfer : ℕ → Closed

pub data Outcome : Type 0 where
  triggers : Event → Outcome
  idle : Outcome

module _ (env : DealEnvironment) (d : ProviderState) where
  unfoldable pub track_transfer : Outcome
  track_transfer = elim (env.track_transfer d) [
    | err e ↦ triggers (Event.data_transfer_error e)
    | ok _ ↦ idle
  ]

  unfoldable pub cancel_deal : Outcome
  cancel_deal = elim (env.untrack_transfer d) [
    | err e ↦ triggers (Event.data_transfer_error e)
    | ok _ ↦ elim (env.delete_store d.store_id) [
      | err e ↦ triggers (Event.multi_store_error e)
      | ok _ ↦ elim (env.close_data_transfer d.channel_id) [
        | failed e ↦ triggers (Event.data_transfer_error e)
        | closed ↦ triggers Event.cancel_complete
        | terminated ↦ triggers Event.cancel_complete
      ]
    ]
  ]

  unfoldable pub cleanup_deal : Outcome
  cleanup_deal = elim (env.untrack_transfer d) [
    | err e ↦ triggers (Event.data_transfer_error e)
    | ok _ ↦ triggers Event.cleanup_complete
  ]

  -- `StateEntryFuncs`.
  unfoldable pub entry : Status → Outcome
  unfolding cancel_deal cleanup_deal
  entry Status.failing = cancel_deal
  entry Status.cancelling = cancel_deal
  entry Status.completing = cleanup_deal
  entry _ = idle
