-- ===== src/Retrieval/Client/Closure.antt =====
-- The entry functions of retrieval/client/fsm.go against its chart: which triggered events the
-- status accepts, and how a cancelled deal ends.
use pop.Common.{
  ◌≡◌, ◌≢◌, refl, sym, ◌∙◌, ◌↔◌, inl, inr, Bool, true, false, ◌||◌, ◌&&◌, not, Bool-cases, none,
  some, arith,
}
use pop.Common.Result.{Result, ok, err}
use pop.Common.Text.{◌+++◌}
use pop.Retrieval.Status.{Status}
use pop.Retrieval.Deal.{ClientState}
use pop.Retrieval.Fsm.{
  FsmLibrary, to, moved, refused, send-reply, reply, routed, acted, arrive, destination,
}
use pop.Retrieval.Client.Event.{Event, well_typed}
use pop.Retrieval.Client.Rows.{rows, is_final}
use pop.Retrieval.Client.Action.{action}
use pop.Retrieval.Client.Machine.{chart}
use pop.Retrieval.Client.Handlers.{DealEnvironment, Outcome, triggers, idle, panics, entry}

-- The event is accepted in the status, or it is the one that the chart forgets there.
abbrev taken : Status → Event → Bool
taken s e = elim (destination (rows e) s) [ some _ ↦ true | none ↦ false ]

-- The two statuses in which an error of the payment channel has no row.
abbrev forgotten : Status → Event → Bool
forgotten Status.check_funds (Event.payment_channel_errored _) = true
forgotten Status.payment_channel_adding_initial_funds (Event.payment_channel_errored _) = true
forgotten _ _ = false

-- A handler stands only at a status that is not final, and gives its event all arguments.
abbrev fits : Status → Outcome → Bool
fits s (triggers e) = not (is_final s) && well_typed e && (taken s e || forgotten s e)
fits s idle = true
fits s panics = true

entry-fits : (s : Status) (env : DealEnvironment) (d : ClientState) → fits s (entry env d s) ≡ true
unfolding entry destination rows is_final well_typed
entry-fits Status.new env d = ground arith
entry-fits _ env d = ground arith

forgotten-row : (s : Status) (e : Event) → forgotten s e ≡ true → destination (rows e) s ≡ none
unfolding destination rows
forgotten-row Status.check_funds (Event.payment_channel_errored m) h = refl
forgotten-row Status.check_funds _ h = cc
forgotten-row Status.payment_channel_adding_initial_funds (Event.payment_channel_errored m) h = refl
forgotten-row Status.payment_channel_adding_initial_funds _ h = cc
forgotten-row _ e h = cc

taken-not_refused :
    (lib : FsmLibrary) (d : ClientState) (e : Event)
    → not (is_final d.status) && well_typed e && taken d.status e ≡ true
    → lib.send Event ClientState chart e d ≢ refused
unfolding reply routed acted arrive
taken-not_refused lib d e h r =
    let reply_refused = sym (send-reply chart lib e d) ∙ r in ground arith

-- An event that an entry function triggers is refused by the chart exactly when it is an error of
-- the payment channel, met while funds are checked or while initial funds are added; every other
-- triggered event is accepted in the status of the entry function.
pub entry-refused_iff :
    (lib : FsmLibrary) (env : DealEnvironment) (d : ClientState) (e : Event)
    → entry env d d.status ≡ triggers e
    → (lib.send Event ClientState chart e d ≡ refused) ↔ (forgotten d.status e ≡ true)
entry-refused_iff lib env d e h =
    let fit : fits d.status (triggers e) ≡ true = rw h at (entry-fits d.status env d) in
    (
      λ r. elim (Bool-cases (forgotten d.status e)) [
        | inl yes' ↦ yes'
        | inr no' ↦ absurd (taken-not_refused lib d e (ground arith) r)
      ],
      λ f. lib.send_invalid Event ClientState chart e d (forgotten-row d.status e f),
    )

-- The deal after the cancellation, and after the event that closing the transfer triggers.
abbrev cancelling : ClientState → ClientState
cancelling d = record d { message = "Client cancelled retrieval"; status = Status.cancelling }

abbrev closing_event : Result (Unit {0}) → Event
closing_event (ok _) = Event.cancel_complete
closing_event (err m) = Event.data_transfer_error m

abbrev ended : ClientState → Result (Unit {0}) → ClientState
ended d (ok _) = record (cancelling d) { status = Status.cancelled }
ended d (err m) = record (cancelling d) {
  message = "error generated by data transfer: " +++ m;
  status = Status.errored;
}

closing-moves :
    (lib : FsmLibrary) (d : ClientState) (r : Result (Unit {0}))
    → lib.send Event ClientState chart (closing_event r) (cancelling d) ≡ moved (ended d r) true
unfolding rows destination well_typed action is_final arrive
closing-moves lib d (ok u) =
    lib.send_moves Event ClientState chart Event.cancel_complete (cancelling d)
      (to Status.cancelled) (cancelling d) refl refl refl refl
closing-moves lib d (err m) =
    lib.send_moves Event ClientState chart (Event.data_transfer_error m) (cancelling d)
      (to Status.errored) _ refl refl refl refl

entry-cancelling :
    (env : DealEnvironment) (d : ClientState)
    → entry env (cancelling d) Status.cancelling
      ≡ triggers (closing_event (env.close_data_transfer d.channel_id))
unfolding entry
entry-cancelling env d = ground arith

-- A client that cancels a deal which is not final ends it: the deal moves to cancelling, its entry
-- function closes the transfer, and the event that this triggers leads to cancelled where the
-- transfer was closed and to errored, with the error's text, where that failed.
cancel_ends :
    (lib : FsmLibrary) (env : DealEnvironment) (d : ClientState)
    → is_final d.status ≡ false
    → let closed = env.close_data_transfer d.channel_id in
      (lib.send Event ClientState chart Event.cancel d ≡ moved (cancelling d) true)
      × (entry env (cancelling d) Status.cancelling ≡ triggers (closing_event closed))
      × (lib.send Event ClientState chart (closing_event closed) (cancelling d)
          ≡ moved (ended d closed) true)
unfolding rows destination well_typed action arrive
cancel_ends lib env d h = (
  lib.send_moves Event ClientState chart Event.cancel d (to Status.cancelling)
      (record d { message = "Client cancelled retrieval" }) h refl refl refl,
  entry-cancelling env d,
  closing-moves lib d (env.close_data_transfer d.channel_id),
)
