-- ===== src/Payments/Tests/Life.antt =====
-- The theorems on the life of a channel, from an empty store on: a task for 500 creates the channel
-- of the addresses 21 and 22.
use pop.Common.{
  ℕ, ◌≡◌, ◌≢◌, ◌≤◌, refl, Bool, true, false, List, [], ◌∷◌, none, some, arith, length, inl,
}
use pop.Common.Int.{pos}
use pop.Common.Assoc.{find}
use pop.Common.Result.{ok, wrap}
use pop.Payments.Info.{ChannelInfo}
use pop.Payments.Store.{Store, MsgInfo, unmarshall}
use pop.Payments.Lifecycle.{
  create_wait, Receipt, Sys, complete_wait, process_task, deliver, returned, get_wait_ready,
}
use pop.Payments.Lifecycle.Phase.{Phase, absent, creating, Shows, Stored}
use pop.Payments.Lifecycle.Only.{Sound}
use pop.Payments.Lifecycle.Delivered.{GivesAddress}
use pop.Payments.Lifecycle.Runs.{Event, task, answer, Steps, run, run-Steps}
use pop.Payments.Lifecycle.Stuck.{task-after_receipt}
use pop.Payments.Lifecycle.Recorded.{create_outcome}
use pop.Payments.Lifecycle.Answered.{create-get_wait_ready}
use pop.Payments.Tests.{channel}
use pop.Payments.Tests.Disk.{disk, working, api}

abbrev start : Sys
start = record { store = record { channels = []; messages = [] }; waiting = [] }

abbrev receipt : Receipt
receipt = record { exit_code = 0; robust_address = ok 31 }

receipt-GivesAddress : GivesAddress (ok receipt)
receipt-GivesAddress = λ r a h e z. absurd (ground (arith, h, e, z))

abbrev events : List Event
events = task api (pos 500) ∷ task api (pos 20) ∷ answer 0 (ok receipt) ∷ []

run-Steps_example :
    (q : Phase) × Steps absent events q
    × Shows disk working 21 22 (run disk 21 22 events start) q
    × (length (run disk 21 22 events start).waiting ≤ 1)
run-Steps_example =
    run-Steps disk working 21 22 events start absent (tt, (tt, (receipt-GivesAddress, tt)))
      ((tt, tt), refl, refl)

abbrev sent_info : ChannelInfo
sent_info = record channel {
  channel_id = 1;
  channel = none;
  vouchers = [];
  next_lane = 0;
  amount = pos 0;
  pending_amount = pos 500;
  create_msg = some 52;
}

abbrev info : MsgInfo
info = record { channel_id = 1; msg_cid = 52; received = false; error = "" }

abbrev st : Store
st = record { channels = (1, sent_info) ∷ []; messages = (52, info) ∷ [] }

pub nonzero_1 : ◌≢◌ {A = ℕ} 1 0
nonzero_1 = λ e. absurd (omega (arith, e))

held_at : Sound disk working 21 22 st
unfolding find
held_at = (((refl, nonzero_1), tt), (refl, tt))

shown_creating : (live : Bool) → Stored disk working 21 22 st (creating 1 52 (pos 500) live)
unfolding unmarshall
shown_creating live = (sent_info, refl, (refl, refl, refl, refl, refl, refl))

abbrev lost : Sys
lost = record { store = st; waiting = [] }

abbrev pending : Sys
pending = record { store = st; waiting = create_wait 1 52 ∷ [] }

task-after_receipt_example :
    (process_task disk api (deliver disk pending 0 (ok receipt)) 21 22 (pos 20)).1 ≢ none
task-after_receipt_example =
    task-after_receipt disk working 21 22 api pending (creating 1 52 (pos 500) true) (pos 20)
      receipt 31 receipt-GivesAddress refl (inl refl) (held_at, shown_creating true, refl)

info_of : find 52 st.messages ≡ some info
unfolding find
info_of = refl

create-get_wait_ready_example :
    get_wait_ready disk (λ e. e) (complete_wait disk st (create_wait 1 52) (ok receipt)) 52
    ≡ returned (wrap (λ e. e) (create_outcome (ok receipt)))
unfolding create_outcome
create-get_wait_ready_example =
    create-get_wait_ready disk working 21 22 (λ e. e) st 1 52 (pos 500) (ok receipt) info
      receipt-GivesAddress (held_at, shown_creating true) info_of refl refl refl tt
