-- ===== src/Retrieval/Client/Lane.antt =====
-- The pointers PaymentInfo and WaitMsgCID in retrieval/client/fsm.go: never nil where the entry
-- functions that wait for a payment channel or allocate a lane read them.
use pop.Common.{ℕ, ◌≡◌, ◌≢◌, refl, Bool, true, none, some, arith}
use pop.Common.Int.{ℤ}
use pop.Retrieval.Status.{Status, every, every_sound}
use pop.Retrieval.Deal.{ClientState}
use pop.Retrieval.Fsm.{
  FsmLibrary, Dest, to, no_change, just_record, moved, panicked, send-moved, send-panicked, arrive,
  destination,
}
use pop.Retrieval.Client.Event.{Event}
use pop.Retrieval.Client.Rows.{rows}
use pop.Retrieval.Client.Action.{action, advance, record_payment}
use pop.Retrieval.Client.Machine.{chart, Run, start, more}
use pop.Retrieval.Client.Handlers.{DealEnvironment, panics, entry}
use pop.Retrieval.Client.Needs.{
  is_some, armed, harmless, allocates, is_waiting, after, harmless-armed, plain-Keeps,
  plain-harmless, waits-armed, allocates-armed, lane_only, plain_wait, created-every, added-every,
  ready-every, ready-info, created-wait, added-wait,
}

-- The action of an event and its row keep what the statuses need.
acts-armed :
    (e : Event) (d d' : ClientState) (dst : Dest)
    → action e d ≡ some d'
    → destination (rows e) d.status ≡ some dst
    → armed d.status d ≡ true
    → armed (after d.status dst) d' ≡ true
acts-armed (Event.payment_channel_ready ch) d d' dst h r a =
    allocates-armed d.status dst d'
      (rw r at (
        every_sound (λ s. allocates (destination (rows (Event.payment_channel_ready ch)) s))
          d.status (ready-every ch)))
      (ready-info ch d d' h)
acts-armed (Event.payment_channel_create_initiated m) d d' dst h r a =
    waits-armed d.status dst d'
      (rw r at (
        every_sound (λ s. plain_wait (Event.payment_channel_create_initiated m) s) d.status
          (created-every m)))
      (created-wait m d d' h)
acts-armed (Event.payment_channel_adding_funds m ch) d d' dst h r a =
    waits-armed d.status dst d'
      (rw r at (
        every_sound (λ s. plain_wait (Event.payment_channel_adding_funds m ch) s) d.status
          (added-every m ch)))
      (added-wait m ch d d' h)
acts-armed e d d' dst h r a =
    harmless-armed d.status dst d d'
      (rw r at
        (every_sound (λ s. harmless (destination (rows e) s)) d.status (plain-harmless e refl)))
      (plain-Keeps e d d' refl h) a

arrive-armed :
    (s : Status) (d d' : ClientState) (dst : Dest) {entered : Bool}
    → arrive chart d dst ≡ moved d' entered
    → d.status ≡ s
    → armed (after s dst) d ≡ true
    → armed d'.status d' ≡ true
unfolding arrive
arrive-armed s d d' (to t) h e a = ground arith
arrive-armed s d d' no_change h e a = ground arith
arrive-armed s d d' just_record h e a = ground arith

advance-status : (d d' : ClientState) → advance d ≡ some d' → d'.status ≡ d.status
unfolding advance
advance-status d d' h = ground arith

record_payment-status :
    (v : ℤ) (d d' : ClientState) → record_payment v d ≡ some d' → d'.status ≡ d.status
unfolding record_payment
record_payment-status v d d' h = ground arith

-- No action sets the status.
action-status : (e : Event) (d d' : ClientState) → action e d ≡ some d' → d'.status ≡ d.status
unfolding action
action-status (Event.unknown_response_received none) d d' h = ground arith
action-status (Event.unknown_response_received (some s)) d d' h = ground arith
action-status (Event.payment_sent v) d d' h = record_payment-status v d d' h
action-status _ d d' h = ground arith

Run-armed :
    (lib : FsmLibrary) (d : ClientState) {total : ℤ} {d' : ClientState}
    → Run lib d total d'
    → d.status ≡ Status.new
    → armed d'.status d' ≡ true
Run-armed lib d start h = rw h refl
Run-armed lib d (more {d' = d1} {d'' = d2} {entered = n} e r h) s =
    let m = send-moved chart lib e d1 d2 h in
    arrive-armed d1.status m.acts d2 m.leads m.arrives (action-status e d1 m.acts m.acted_lem)
      (acts-armed e d1 m.acts m.leads m.acted_lem m.leads_lem (Run-armed lib d r s))

armed-entry :
    (s : Status) (env : DealEnvironment) (d : ClientState)
    → is_waiting s ≡ true
    → armed s d ≡ true
    → entry env d s ≢ panics
unfolding entry
armed-entry Status.payment_channel_allocating_lane env d w a = ground arith
armed-entry Status.payment_channel_creating env d w a = ground arith
armed-entry Status.payment_channel_adding_funds env d w a = ground arith
armed-entry Status.payment_channel_adding_initial_funds env d w a = ground arith
armed-entry _ env d w a = cc

lane_row :
    (lane : ℕ) → every (λ s. lane_only s (destination (rows (Event.lane_allocated lane)) s)) ≡ true
unfolding every destination rows
lane_row lane = refl

lane-info :
    (s : Status) (d : ClientState) (dst : Dest)
    → lane_only s (some dst) ≡ true
    → armed s d ≡ true
    → is_some d.payment_info ≡ true
lane-info Status.payment_channel_allocating_lane d dst h a = a
lane-info _ d dst h a = cc

armed-lane :
    (lib : FsmLibrary) (lane : ℕ) (d : ClientState)
    → armed d.status d ≡ true
    → lib.send Event ClientState chart (Event.lane_allocated lane) d ≢ panicked
unfolding action
armed-lane lib lane d a p =
    let (dst, row, nil) = send-panicked chart lib (Event.lane_allocated lane) d p in
    let info =
      lane-info d.status d dst
        (rw row at (
          every_sound (λ s. lane_only s (destination (rows (Event.lane_allocated lane)) s)) d.status
            (lane_row lane)))
        a in
    ground arith

-- Whatever events a new deal receives, its entry function in a status that waits for a payment
-- channel or allocates a lane does not dereference nil, and neither does the event of an allocated
-- lane: the message to wait for or the payment channel has been noted before.
pub Run-entry_safe :
    (lib : FsmLibrary) (env : DealEnvironment) (d : ClientState) (lane : ℕ) {total : ℤ}
    {d' : ClientState}
    → Run lib d total d'
    → d.status ≡ Status.new
    → is_waiting d'.status ≡ true
    → (entry env d' d'.status ≢ panics)
      × (lib.send Event ClientState chart (Event.lane_allocated lane) d' ≢ panicked)
Run-entry_safe lib env d lane {d' = d'} r h w =
    let a = Run-armed lib d r h in (armed-entry d'.status env d' w a, armed-lane lib lane d' a)
