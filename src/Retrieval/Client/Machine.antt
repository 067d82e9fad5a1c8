-- ===== src/Retrieval/Client/Machine.antt =====
-- The chart of the client, and runs of a deal under it.
use pop.Common.{◌≡◌, Bool}
use pop.Common.Int.{ℤ, pos, ◌+ℤ◌}
use pop.Retrieval.Deal.{ClientState}
use pop.Retrieval.Fsm.{Chart, FsmLibrary, moved}
use pop.Retrieval.Client.Event.{Event, well_typed}
use pop.Retrieval.Client.Rows.{rows, is_final}
use pop.Retrieval.Client.Action.{action}

-- `FSMEvents` with `FinalityStates`.
abbrev pub chart : Chart Event ClientState
chart = record {
  rows = rows;
  action = action;
  well_typed = well_typed;
  status = λ d. d.status;
  set_status = λ d s. record d { status = s };
  is_final = is_final;
}

-- The amount that an event asks the client to pay.
abbrev pub owed : Event → ℤ
owed (Event.last_payment_requested a) = a
owed (Event.payment_requested a) = a
owed (Event.unseal_payment_requested a) = a
owed _ = pos 0

-- The deal `d` becomes `d'` by accepted events that ask for `total` in all.
pub data Run (lib : FsmLibrary) (d : ClientState) : ℤ → ClientState → Type 0 where
  start : Run lib d (pos 0) d
  more :
      {total : ℤ} {d' d'' : ClientState} {entered : Bool} (e : Event)
      → Run lib d total d'
      → lib.send Event ClientState chart e d' ≡ moved d'' entered
      → Run lib d (total +ℤ owed e) d''
