-- ===== src/Retrieval/Provider/Ledger.antt =====
-- What the provider has received, and which statuses its deals pass through, over every run of the
-- machine of retrieval/provider/fsm.go.
use pop.Common.{◌≡◌, refl, sym, ap, ◌∙◌, Bool, true, false, not, Option, some, arith}
use pop.Common.Int.{ℤ, ◌+ℤ◌, +ℤ_zero, +ℤ_assoc}
use pop.Retrieval.Status.{Status, every, every_sound}
use pop.Retrieval.Deal.{ProviderState}
use pop.Retrieval.Fsm.{
  FsmLibrary, Dest, to, no_change, just_record, moved, send-moved, arrive, destination,
}
use pop.Retrieval.Provider.Event.{Event}
use pop.Retrieval.Provider.Machine.{rows, action, chart, received, Run, start, more}

action-funds :
    (e : Event) (d d' : ProviderState)
    → action e d ≡ some d'
    → d'.funds_received ≡ d.funds_received +ℤ received e
unfolding action
action-funds (Event.payment_received a ch) d d' h = ground arith
action-funds _ d d' h = ground (arith, +ℤ_zero d.funds_received)

arrive-funds :
    (d d' : ProviderState) (dst : Dest) {entered : Bool}
    → arrive chart d dst ≡ moved d' entered
    → d'.funds_received ≡ d.funds_received
unfolding arrive
arrive-funds d d' (to s) h = ground arith
arrive-funds d d' no_change h = ground arith
arrive-funds d d' just_record h = ground arith

-- Over any run of accepted events the funds received are those at its start and exactly the sum of
-- the payments, partial and full, that the accepted events report.
Run-funds :
    (lib : FsmLibrary) (d : ProviderState) {total : ℤ} {d' : ProviderState}
    → Run lib d total d'
    → d'.funds_received ≡ d.funds_received +ℤ total
Run-funds lib d start = sym (+ℤ_zero d.funds_received)
Run-funds lib d (more {total = t} {d' = d1} {d'' = d2} e r h) =
    let m = send-moved chart lib e d1 d2 h in
    arrive-funds m.acts d2 m.leads m.arrives
    ∙ action-funds e d1 m.acts m.acted_lem
    ∙ ap (λ a. a +ℤ received e) (Run-funds lib d r)
    ∙ +ℤ_assoc d.funds_received t (received e)

-- The statuses that are the client's alone.
abbrev pub foreign : Status → Bool
foreign Status.new = false
foreign Status.ongoing = false
foreign Status.blocks_complete = false
foreign Status.funds_needed = false
foreign Status.funds_needed_last_payment = false
foreign Status.failing = false
foreign Status.finalizing = false
foreign Status.completing = false
foreign Status.completed = false
foreign Status.cancelling = false
foreign Status.cancelled = false
foreign Status.errored = false
foreign _ = true

abbrev own_dest : Option Dest → Bool
own_dest (some (to s)) = not (foreign s)
own_dest _ = true

rows-own : (e : Event) → every (λ s. own_dest (destination (rows e) s)) ≡ true
unfolding every destination rows
rows-own Event.opened = refl
rows-own _ = refl

action-status : (e : Event) (d d' : ProviderState) → action e d ≡ some d' → d'.status ≡ d.status
unfolding action
action-status (Event.payment_received a ch) d d' h = ground arith
action-status _ d d' h = ground arith

arrive-own :
    (d d' : ProviderState) (dst : Dest) {entered : Bool}
    → arrive chart d dst ≡ moved d' entered
    → own_dest (some dst) ≡ true
    → foreign d.status ≡ false
    → foreign d'.status ≡ false
unfolding arrive
arrive-own d d' (to s) h o f = ground arith
arrive-own d d' no_change h o f = ground arith
arrive-own d d' just_record h o f = ground arith

-- A provider's deal that starts new only ever has one of twelve statuses: it never waits for
-- acceptance or for a payment channel, and is never rejected or unsealed, whatever it receives.
Run-own_status :
    (lib : FsmLibrary) (d : ProviderState) {total : ℤ} {d' : ProviderState}
    → Run lib d total d'
    → d.status ≡ Status.new
    → foreign d'.status ≡ false
Run-own_status lib d start h = rw h refl
Run-own_status lib d (more {d' = d1} {d'' = d2} e r h) s =
    let m = send-moved chart lib e d1 d2 h in
    arrive-own m.acts d2 m.leads m.arrives
      (rw m.leads_lem at
        (every_sound (λ t. own_dest (destination (rows e) t)) d1.status (rows-own e)))
      (rw (action-status e d1 m.acts m.acted_lem) (Run-own_status lib d r s))
