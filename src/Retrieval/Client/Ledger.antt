-- ===== src/Retrieval/Client/Ledger.antt =====
-- What the client owes and has paid, over every run of the machine of retrieval/client/fsm.go.
use pop.Common.{◌≡◌, sym, ap, ◌∙◌, Bool, none, some, arith}
use pop.Common.Int.{ℤ, pos, ◌+ℤ◌, ◌-ℤ◌, int_laws, +ℤ_zero, +ℤ_assoc}
use pop.Retrieval.Deal.{ClientState}
use pop.Retrieval.Fsm.{FsmLibrary, moved, Dest, to, no_change, just_record, send-moved, arrive}
use pop.Retrieval.Client.Event.{Event}
use pop.Retrieval.Client.Action.{action, record_payment}
use pop.Retrieval.Client.Machine.{chart, owed, Run, start, more}

abbrev account : ClientState → ℤ
account d = d.payment_requested +ℤ d.funds_spent

rebalance : (r v s : ℤ) → r -ℤ (v -ℤ s) +ℤ v ≡ r +ℤ s +ℤ pos 0
rebalance r v s = omega int_laws

extend : (r s o : ℤ) → r +ℤ o +ℤ s ≡ r +ℤ s +ℤ o
extend r s o = omega int_laws

record_payment-account :
    (v : ℤ) (d d' : ClientState) → record_payment v d ≡ some d' → account d' ≡ account d +ℤ pos 0
unfolding record_payment
record_payment-account v d d' h = ground (arith, rebalance d.payment_requested v d.funds_spent)

-- An action moves what it takes off the requests to what is spent, and adds what its event asks.
action-account :
    (e : Event) (d d' : ClientState) → action e d ≡ some d' → account d' ≡ account d +ℤ owed e
unfolding action
action-account (Event.payment_sent v) d d' h = record_payment-account v d d' h
action-account (Event.last_payment_requested o) d d' h =
    ground (arith, extend d.payment_requested d.funds_spent o)
action-account (Event.payment_requested o) d d' h =
    ground (arith, extend d.payment_requested d.funds_spent o)
action-account (Event.unseal_payment_requested o) d d' h =
    ground (arith, extend d.payment_requested d.funds_spent o)
action-account (Event.unknown_response_received none) d d' h = ground (arith, +ℤ_zero (account d))
action-account _ d d' h = ground (arith, +ℤ_zero (account d))

arrive-account :
    (d d' : ClientState) (dst : Dest) (entered : Bool)
    → arrive chart d dst ≡ moved d' entered
    → account d' ≡ account d
unfolding arrive
arrive-account d d' (to s) entered h = ground arith
arrive-account d d' no_change entered h = ground arith
arrive-account d d' just_record entered h = ground arith

send-account :
    (lib : FsmLibrary) (e : Event) (d d' : ClientState) (entered : Bool)
    → lib.send Event ClientState chart e d ≡ moved d' entered
    → account d' ≡ account d +ℤ owed e
send-account lib e d d' entered h =
    let m = send-moved chart lib e d d' h in
    arrive-account m.acts d' m.leads entered m.arrives ∙ action-account e d m.acts m.acted_lem

-- Over any run of accepted events of a client's deal, what is requested plus what is spent grows by
-- exactly the sum of the amounts that the payment requests among them ask for.
pub Run-account :
    (lib : FsmLibrary) (d : ClientState) {total : ℤ} {d' : ClientState}
    → Run lib d total d'
    → d'.payment_requested +ℤ d'.funds_spent ≡ d.payment_requested +ℤ d.funds_spent +ℤ total
Run-account lib d start = sym (+ℤ_zero (account d))
Run-account lib d (more {total = t} {d' = d1} {d'' = d2} {entered = n} e r h) =
    send-account lib e d1 d2 n h
    ∙ ap (λ a. a +ℤ owed e) (Run-account lib d r)
    ∙ +ℤ_assoc (account d) t (owed e)
