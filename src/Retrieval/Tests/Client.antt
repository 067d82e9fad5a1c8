-- ===== src/Retrieval/Tests/Client.antt =====
-- The theorems on the client at a deal that pays for what it has received.
use pop.Common.{◌≡◌, ◌≢◌, refl, true, none, some}
use pop.Common.Int.{pos, ◌+ℤ◌}
use pop.Common.Result.{ok, err}
use pop.Retrieval.Status.{Status}
use pop.Retrieval.Deal.{ClientState}
use pop.Retrieval.Fsm.{plain, moved, refused, panicked, destination}
use pop.Retrieval.Client.Event.{Event, well_typed}
use pop.Retrieval.Client.Rows.{rows, is_final}
use pop.Retrieval.Client.Action.{action}
use pop.Retrieval.Client.Machine.{chart, Run, start, more}
use pop.Retrieval.Client.Handlers.{DealEnvironment, triggers, panics, entry, check_funds}
use pop.Retrieval.Client.Ledger.{Run-account}
use pop.Retrieval.Client.Lane.{Run-entry_safe}
use pop.Retrieval.Client.Closure.{entry-refused_iff}
use pop.Retrieval.Tests.{client}

-- Payments and transfers that work, but for the funds of a channel, which cannot be read.
abbrev environment : DealEnvironment
environment = record {
  open_data_transfer = λ _ _. ok 9;
  send_data_transfer_voucher = λ _ _. ok tt;
  close_data_transfer = λ _. ok tt;
  get_channel = λ _ _ _. ok (record { channel = 0; wait_sentinel = 3 });
  wait_for_channel = λ _. ok 31;
  allocate_lane = λ _. ok 0;
  create_voucher = λ _ _ _. ok (record { voucher = none; shortfall = pos 0 });
  channel_available_funds = λ _. err "no actor";
}

abbrev unsent : ClientState
unsent = record client { status = Status.new; payment_info = none }

abbrev proposed : ClientState
proposed = record unsent { status = Status.wait_for_acceptance }

abbrev accepted : ClientState
accepted = record proposed { status = Status.accepted }

abbrev creating : ClientState
creating = record accepted { status = Status.payment_channel_creating; wait_msg_cid = some 3 }

proposes : plain.send Event ClientState chart (Event.deal_proposed 9) unsent ≡ moved proposed true
unfolding plain is_final well_typed destination rows action
proposes = refl

accepts : plain.send Event ClientState chart Event.deal_accepted proposed ≡ moved accepted true
unfolding plain is_final well_typed destination rows action
accepts = refl

creates :
    plain.send Event ClientState chart (Event.payment_channel_create_initiated 3) accepted
    ≡ moved creating true
unfolding plain is_final well_typed destination rows action
creates = refl

run : Run plain unsent (pos 0 +ℤ pos 0 +ℤ pos 0 +ℤ pos 0) creating
run =
    more (Event.payment_channel_create_initiated 3)
      (more Event.deal_accepted (more (Event.deal_proposed 9) start proposes) accepts) creates

Run-entry_safe_example :
    (entry environment creating Status.payment_channel_creating ≢ panics)
    × (plain.send Event ClientState chart (Event.lane_allocated 4) creating ≢ panicked)
Run-entry_safe_example = Run-entry_safe plain environment unsent 4 run refl refl

Run-account_example :
    creating.payment_requested +ℤ creating.funds_spent
    ≡ unsent.payment_requested +ℤ unsent.funds_spent +ℤ (pos 0 +ℤ pos 0 +ℤ pos 0 +ℤ pos 0)
Run-account_example = Run-account plain unsent run

abbrev checking : ClientState
checking = record client { status = Status.check_funds }

unreadable :
    entry environment checking Status.check_funds
    ≡ triggers (Event.payment_channel_errored "no actor")
unfolding entry check_funds
unreadable = refl

entry-refused_iff_example :
    plain.send Event ClientState chart (Event.payment_channel_errored "no actor") checking ≡ refused
entry-refused_iff_example =
    (entry-refused_iff plain environment checking (Event.payment_channel_errored "no actor")
        unreadable).1
      refl
