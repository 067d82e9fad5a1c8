-- ===== src/Retrieval/Provider/Closure.antt =====
-- The entry functions of retrieval/provider/fsm.go against its chart, and how a deal that its
-- client cancels ends.
use pop.Common.{◌≡◌, ◌≢◌, sym, ◌∙◌, Bool, true, false, not, ◌&&◌, none, some, arith}
use pop.Retrieval.Status.{Status}
use pop.Retrieval.Deal.{ProviderState}
use pop.Retrieval.Fsm.{FsmLibrary, refused, send-reply, reply, routed, acted, arrive, destination}
use pop.Retrieval.Provider.Event.{Event}
use pop.Retrieval.Provider.Machine.{rows, chart, is_final}
use pop.Retrieval.Provider.Handlers.{DealEnvironment, Outcome, triggers, idle, entry}

-- The event has a row for the status, and that is not a final one.
abbrev taken : Status → Event → Bool
taken s e = not (is_final s) && elim (destination (rows e) s) [ some _ ↦ true | none ↦ false ]

abbrev fits : Status → Outcome → Bool
fits s (triggers e) = taken s e
fits s idle = true

entry-fits :
    (s : Status) (env : DealEnvironment) (d : ProviderState) → fits s (entry env d s) ≡ true
unfolding entry destination rows is_final
entry-fits Status.new env d = ground arith
entry-fits _ env d = ground arith

-- Whatever its environment answers, an entry function of the provider triggers only events that its
-- status accepts.
entry-accepted :
    (lib : FsmLibrary) (env : DealEnvironment) (d : ProviderState) (e : Event)
    → entry env d d.status ≡ triggers e
    → lib.send Event ProviderState chart e d ≢ refused
unfolding reply routed acted arrive
entry-accepted lib env d e h r =
    let fit : taken d.status e ≡ true = rw h at (entry-fits d.status env d) in
    let reply_refused = sym (send-reply chart lib e d) ∙ r in ground arith
