-- ===== src/Exchange/Worker/Cheapest.antt =====
-- Which offer sessionWorker.Start (exchange/tx.go) executes first with SelectCheapest, and which
-- offers SelectFirstLowerThan executes.
use mathlib.Core.Path.{subst}
use pop.Common.{
  ◌≡◌, ◌≢◌, refl, sym, ap, arith, true, false, not, ◌&&◌, List, [], ◌∷◌, ◌++◌, Bool-cases, inl, inr,
  All,
}
use pop.Common.Int.{ℤ, pos, ltb_ℤ, ◌≤ℤ◌}
use pop.Retrieval.Deal.{Offer}
use pop.Exchange.Worker.{
  SessionWorker, State, Event, offer_back, offer_front, timer, result, closing, goes, unset,
  executing, is_nil, is_above, reached, insert_offer, sort_offers, exec, exec_next, push_back,
  on_timer, on_result, take_result, exec_result, step,
}
use pop.Exchange.Worker.Kept.{OnGo}

-- No offer of the list costs less.
abbrev pub Least : Offer → List Offer → Type 0
Least o q = All (λ (p : Offer). o.min_price_per_byte ≤ℤ p.min_price_per_byte) q

abbrev Sorted : List Offer → Type 0
Sorted [] = Unit
Sorted (o ∷ q) = Least o q × Sorted q

Least-trans :
    (a b : Offer) (q : List Offer)
    → a.min_price_per_byte ≤ℤ b.min_price_per_byte
    → Least b q
    → Least a q
Least-trans a b [] h l = tt
Least-trans a b (c ∷ q) h l = (omega (arith, h, l.0), Least-trans a b q h l.1)

insert_offer-Least :
    (a o : Offer) (q : List Offer)
    → a.min_price_per_byte ≤ℤ o.min_price_per_byte
    → Least a q
    → Least a (insert_offer o q)
unfolding insert_offer
insert_offer-Least a o [] h l = (h, tt)
insert_offer-Least a o (p ∷ q) h l =
    elim (Bool-cases (ltb_ℤ p.min_price_per_byte o.min_price_per_byte)) [
      | inl e ↦ rw e (l.0, insert_offer-Least a o q h l.1)
      | inr e ↦ rw e (h, l)
    ]

le_of_ltb : (a b : ℤ) → ltb_ℤ a b ≡ true → a ≤ℤ b
le_of_ltb a b h = ground arith

le_of_not : (a b : ℤ) → ltb_ℤ a b ≡ false → b ≤ℤ a
le_of_not a b h = ground arith

insert_offer-Sorted : (o : Offer) (q : List Offer) → Sorted q → Sorted (insert_offer o q)
unfolding insert_offer
insert_offer-Sorted o [] s = (tt, tt)
insert_offer-Sorted o (p ∷ q) (l, s) =
    elim (Bool-cases (ltb_ℤ p.min_price_per_byte o.min_price_per_byte)) [
      | inl e ↦ rw e (
        insert_offer-Least p o q (le_of_ltb p.min_price_per_byte o.min_price_per_byte e) l,
        insert_offer-Sorted o q s,
      )
      | inr e ↦
          let h = le_of_not p.min_price_per_byte o.min_price_per_byte e in
          rw e ((h, Least-trans o p q h l), (l, s))
    ]

sort_offers-Sorted : (q : List Offer) → Sorted (sort_offers q)
unfolding sort_offers
sort_offers-Sorted [] = tt
sort_offers-Sorted (o ∷ q) = insert_offer-Sorted o (sort_offers q) (sort_offers-Sorted q)

-- The execution that starts is of an offer that costs no more than those in the queue.
abbrev pub StartsLeast : State → Type 0
StartsLeast s = (o : Offer) → s.exec_done ≡ executing o → Least o s.q

executing_inj : (a b : Offer) → executing a ≡ executing b → a ≡ b
executing_inj a b h = cc

exec_next-StartsLeast : (q : List Offer) (s : State) → Sorted q → OnGo StartsLeast (exec_next q s)
unfolding exec_next exec
exec_next-StartsLeast [] s h = tt
exec_next-StartsLeast (o ∷ q) s (l, _) = λ o' e. subst (λ x. Least x q) (executing_inj o o' e) l

idle-StartsLeast : (s : State) → s.exec_done ≡ unset → StartsLeast s
idle-StartsLeast s h o e = cc

-- A worker with a threshold, as SelectCheapest makes it, waits for offers before it executes one.
abbrev pub Waits : SessionWorker → Type 0
Waits w = (ltb_ℤ w.num_threshold (pos 0) && ltb_ℤ w.time_threshold (pos 0)) ≡ false

push_back-StartsLeast :
    (w : SessionWorker) (o : Offer) (s : State)
    → Waits w
    → s.exec_done ≡ unset
    → OnGo StartsLeast (push_back w o s)
unfolding push_back
push_back-StartsLeast w o s waits h =
    let q = s.q ++ (o ∷ []) in
    let idle : is_nil s.exec_done ≡ true = ap is_nil h in
    elim (Bool-cases (is_above w o)) [
      | inl a ↦ rw a (idle-StartsLeast s h)
      | inr a ↦ elim (Bool-cases (reached w q)) [
        | inl r ↦
            rw (a, waits, idle, r) (exec_next-StartsLeast (sort_offers q) s (sort_offers-Sorted q))
        | inr r ↦ rw (a, waits, idle, r) (idle-StartsLeast (record s { q = q }) h)
      ]
    ]

on_timer-StartsLeast : (s : State) → s.exec_done ≡ unset → OnGo StartsLeast (on_timer s)
unfolding on_timer
on_timer-StartsLeast s h =
    let idle : is_nil s.exec_done ≡ true = ap is_nil h in
    elim (Bool-cases (not s.delay)) [
      | inl e ↦ rw e (idle-StartsLeast s h)
      | inr e ↦
          rw (e, idle)
            (exec_next-StartsLeast (sort_offers s.q) (record s { delay = false })
              (sort_offers-Sorted s.q))
    ]

step-StartsLeast :
    (w : SessionWorker) (e : Event) (s : State)
    → Waits w
    → s.exec_done ≡ unset
    → ((o : Offer) → e ≢ offer_front o)
    → OnGo StartsLeast (step w e s)
unfolding step on_result take_result
step-StartsLeast w (offer_back o) s waits h f = push_back-StartsLeast w o s waits h
step-StartsLeast w (offer_front o) s waits h f = absurd (f o refl)
step-StartsLeast w timer s waits h f = on_timer-StartsLeast s h
step-StartsLeast w (result answer) s waits h f =
    subst (OnGo StartsLeast) (sym (ap (λ d. take_result (exec_result answer) d s.q s) h))
      (idle-StartsLeast s h)
step-StartsLeast w closing s waits h f = tt

-- With a threshold, the first offer that is executed costs no more than any offer that is left in the
-- queue, whether it is the number of offers or the timer that starts it. An offer that is pushed to
-- the front is excepted.
pub starts-Least :
    (w : SessionWorker) (e : Event) (s s' : State) (o : Offer)
    → Waits w
    → s.exec_done ≡ unset
    → ((p : Offer) → e ≢ offer_front p)
    → step w e s ≡ goes s'
    → s'.exec_done ≡ executing o
    → Least o s'.q
starts-Least w e s s' o waits h f g x =
    let least : StartsLeast s' = subst (OnGo StartsLeast) g (step-StartsLeast w e s waits h f) in
    least o x
