-- ===== src/Exchange/Worker/Kept.antt =====
-- No offer gets lost in the loop of sessionWorker.Start (exchange/tx.go).
use mathlib.Core.Path.{subst}
use mathlib.Core.List.{Perm, append_assoc, append-nil, perm_append_comm}
use mathlib.Core.List.Perm
use pop.Common.{
  ◌≡◌, refl, Bool, true, false, not, ◌&&◌, List, [], ◌∷◌, ◌++◌, if◌then◌else◌, Bool-cases, inl, inr,
}
use pop.Common.Int.{pos, ltb_ℤ}
use pop.Retrieval.Deal.{Offer}
use pop.Exchange.Worker.{
  SessionWorker, State, Event, offer_back, offer_front, timer, result, closing, Turn, goes, closed,
  panics, ExecDone, unset, executing, received, is_nil, is_above, reached, insert_offer,
  sort_offers, exec, exec_next, push_back, push_front, on_timer, on_result, take_result,
  exec_result, failed, step, run, start, TxResult,
}

-- The offers that these events bring, without those that the price ceiling excludes.
abbrev pub taken_in : SessionWorker → List Event → List Offer
taken_in w [] = []
taken_in w (offer_back o ∷ es) = if is_above w o then taken_in w es else o ∷ taken_in w es
taken_in w (offer_front o ∷ es) = o ∷ taken_in w es
taken_in w (timer ∷ es) = taken_in w es
taken_in w (result _ ∷ es) = taken_in w es
taken_in w (closing ∷ es) = taken_in w es

abbrev pub held : State → List Offer
held s = s.executed ++ s.q

abbrev pub OnGo : (State → Type 0) → Turn → Type 0
OnGo P (goes s) = P s
OnGo P (closed q) = Unit
OnGo P panics = Unit

insert_offer-perm : (o : Offer) (q : List Offer) → Perm (insert_offer o q) (o ∷ q)
unfolding insert_offer
insert_offer-perm o [] = Perm.refl (o ∷ [])
insert_offer-perm o (p ∷ q) = elim (Bool-cases (ltb_ℤ p.min_price_per_byte o.min_price_per_byte)) [
  | inl e ↦ rw e (Perm.trans (Perm.cons p (insert_offer-perm o q)) (Perm.swap o p q))
  | inr e ↦ rw e (Perm.refl (o ∷ p ∷ q))
]

sort_offers-perm : (q : List Offer) → Perm (sort_offers q) q
unfolding sort_offers
sort_offers-perm [] = Perm.refl []
sort_offers-perm (o ∷ q) =
    Perm.trans (insert_offer-perm o (sort_offers q)) (Perm.cons o (sort_offers-perm q))

exec-perm : (o : Offer) (x q : List Offer) → Perm ((x ++ (o ∷ [])) ++ q) ((x ++ q) ++ (o ∷ []))
exec-perm o x q = rw (append_assoc, append_assoc) (Perm.append_left x (perm_append_comm (o ∷ []) q))

front-perm : (o : Offer) (x q : List Offer) → Perm (x ++ (o ∷ q)) ((x ++ q) ++ (o ∷ []))
front-perm o x q = rw append_assoc (Perm.append_left x (perm_append_comm (o ∷ []) q))

-- The queue that exec_next is given is shared out.
exec_next-held :
    (q : List Offer) (s : State) (all : List Offer)
    → Perm (s.executed ++ q) all
    → OnGo (λ s'. Perm (held s') all) (exec_next q s)
unfolding exec_next exec
exec_next-held [] s all p = tt
exec_next-held (o ∷ q) s all p = rw append_assoc p

append-perm : (o : Offer) (s : State) → Perm (s.executed ++ (s.q ++ (o ∷ []))) (held s ++ (o ∷ []))
append-perm o s = rw append_assoc (Perm.refl (s.executed ++ (s.q ++ (o ∷ []))))

sorted-perm :
    (x q : List Offer) (all : List Offer) → Perm (x ++ q) all → Perm (x ++ sort_offers q) all
sorted-perm x q all p = Perm.trans (Perm.append_left x (sort_offers-perm q)) p

none-perm : (xs : List Offer) → Perm xs (xs ++ [])
none-perm xs = rw append-nil (Perm.refl xs)

push_back-Kept :
    (w : SessionWorker) (o : Offer) (s : State) (b : Bool)
    → is_above w o ≡ b
    → OnGo (λ s'. Perm (held s') (held s ++ (if b then [] else o ∷ []))) (push_back w o s)
unfolding push_back exec
push_back-Kept w o s true h = rw h (none-perm (held s))
push_back-Kept w o s false h =
    let at_once =
      (ltb_ℤ w.num_threshold (pos 0) && ltb_ℤ w.time_threshold (pos 0)) && is_nil s.exec_done in
    elim (Bool-cases at_once) [
      | inl e ↦ rw (h, e) (exec-perm o s.executed s.q)
      | inr e ↦ elim (Bool-cases (is_nil s.exec_done)) [
        | inr busy ↦ rw (h, e, busy) (append-perm o s)
        | inl idle ↦ elim (Bool-cases (reached w (s.q ++ (o ∷ [])))) [
          | inr more ↦ rw (h, e, idle, more) (append-perm o s)
          | inl full ↦
              rw (h, e, idle, full)
                (exec_next-held (sort_offers (s.q ++ (o ∷ []))) s (held s ++ (o ∷ []))
                  (sorted-perm s.executed (s.q ++ (o ∷ [])) (held s ++ (o ∷ [])) (append-perm o s)))
        ]
      ]
    ]

push_front-Kept :
    (o : Offer) (s : State) → OnGo (λ s'. Perm (held s') (held s ++ (o ∷ []))) (push_front o s)
unfolding push_front exec
push_front-Kept o s = elim (Bool-cases (is_nil s.exec_done)) [
  | inl e ↦ rw e (exec-perm o s.executed s.q)
  | inr e ↦ rw e (front-perm o s.executed s.q)
]

on_timer-Kept : (s : State) → OnGo (λ s'. Perm (held s') (held s)) (on_timer s)
unfolding on_timer
on_timer-Kept s = elim (Bool-cases (not s.delay)) [
  | inl e ↦ rw e (Perm.refl (held s))
  | inr e ↦ elim (Bool-cases (is_nil s.exec_done)) [
    | inr busy ↦ rw (e, busy) (Perm.refl (held s))
    | inl idle ↦
        rw (e, idle)
          (exec_next-held (sort_offers s.q) (record s { delay = false }) (held s)
            (sorted-perm s.executed s.q (held s) (Perm.refl (held s))))
  ]
]

take_result-Kept :
    (res : TxResult) (d : ExecDone) (q : List Offer) (s : State)
    → s.q ≡ q
    → OnGo (λ s'. Perm (held s') (held s)) (take_result res d q s)
unfolding take_result
take_result-Kept res unset q s e = Perm.refl (held s)
take_result-Kept res received q s e = Perm.refl (held s)
take_result-Kept res (executing _) [] s e = Perm.refl (held s)
take_result-Kept res (executing _) (o ∷ q) s e = elim (Bool-cases (failed res)) [
  | inr f ↦ rw f (Perm.refl (held s))
  | inl f ↦ rw f (
      exec_next-held (o ∷ q) (record s { exec_done = received }) (held s)
        (rw (← e) (Perm.refl (held s))))
]

step-Kept :
    (w : SessionWorker) (e : Event) (s : State)
    → OnGo (λ s'. Perm (held s') (held s ++ taken_in w (e ∷ []))) (step w e s)
unfolding step
step-Kept w (offer_back o) s = push_back-Kept w o s (is_above w o) refl
step-Kept w (offer_front o) s = push_front-Kept o s
step-Kept w timer s = rw append-nil (on_timer-Kept s)
step-Kept w (result answer) s =
    unfold on_result in rw append-nil (take_result-Kept (exec_result answer) s.exec_done s.q s refl)
step-Kept w closing s = tt

taken_in-cons :
    (w : SessionWorker) (e : Event) (es : List Event)
    → taken_in w (e ∷ es) ≡ taken_in w (e ∷ []) ++ taken_in w es
taken_in-cons w (offer_back o) es = elim (Bool-cases (is_above w o)) [ inl h ↦ rw h | inr h ↦ rw h ]
taken_in-cons w (offer_front o) es = refl
taken_in-cons w timer es = refl
taken_in-cons w (result _) es = refl
taken_in-cons w closing es = refl

run-held :
    (w : SessionWorker) (es : List Event) (s : State)
    → OnGo (λ s'. Perm (held s') (held s ++ taken_in w es)) (run w es s)
unfolding run
run-held w [] s = none-perm (held s)
run-held w (e ∷ es) s = after (run-held w es) (step w e s) (step-Kept w e s)
  where
    combine :
        (s' : State) (t : Turn)
        → Perm (held s') (held s ++ taken_in w (e ∷ []))
        → OnGo (λ s''. Perm (held s'') (held s' ++ taken_in w es)) t
        → OnGo (λ s''. Perm (held s'') (held s ++ taken_in w (e ∷ es))) t
    combine s' (goes u) p h =
        rw (taken_in-cons w e es, ← append_assoc (held s) (taken_in w (e ∷ [])) (taken_in w es))
          (Perm.trans h (Perm.append_right (taken_in w es) p))
    combine s' (closed q) p h = tt
    combine s' panics p h = tt

    after :
        ((s' : State) → OnGo (λ s''. Perm (held s'') (held s' ++ taken_in w es)) (run w es s'))
        → (t : Turn) → OnGo (λ s'. Perm (held s') (held s ++ taken_in w (e ∷ []))) t
        → OnGo
            (λ s'. Perm (held s') (held s ++ taken_in w (e ∷ es)))
            (elim t [ goes s' ↦ run w es s' | closed q ↦ closed q | panics ↦ panics ])
    after later (goes s') p = combine s' (run w es s') p (later s')
    after later (closed q) p = tt
    after later panics p = tt

-- Whatever the events, while the worker is not closed, the offers that it has called exec for or keeps in
-- its queue are those that it received, each as often: it ignores only the offers from the network
-- above its price ceiling.
pub run-Perm :
    (w : SessionWorker) (es : List Event) (s : State)
    → run w es (start w) ≡ goes s
    → Perm (s.executed ++ s.q) (taken_in w es)
unfolding start
run-Perm w es s h = subst (OnGo (λ s'. Perm (held s') (taken_in w es))) h (run-held w es (start w))
