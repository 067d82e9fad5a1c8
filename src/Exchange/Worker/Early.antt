-- ===== src/Exchange/Worker/Early.antt =====
-- When the loop of sessionWorker.Start (exchange/tx.go) panics: on a timer that fires too early.
use mathlib.Core.Path.{subst}
use pop.Common.{
  ◌≡◌, ◌≢◌, ◌↔◌, refl, ap, ◌∙◌, arith, true, false, not, ◌&&◌, List, [], ◌∷◌, ◌++◌, Bool-cases, inl,
  inr,
}
use pop.Common.Int.{pos, ltb_ℤ}
use pop.Retrieval.Deal.{Offer}
use pop.Exchange.Worker.{
  TxResult, SessionWorker, State, Event, offer_back, offer_front, timer, result, closing, Turn,
  goes, closed, panics, ExecDone, unset, executing, received, is_nil, is_above, reached,
  insert_offer, sort_offers, exec, exec_next, push_back, push_front, on_timer, on_result,
  take_result, exec_result, failed, step,
}

abbrev IfPanics : Type 0 → Turn → Type 0
IfPanics P panics = P
IfPanics P (goes _) = Unit
IfPanics P (closed _) = Unit

exec_next-panics :
    (P : Type 0) (q : List Offer) (s : State) → (q ≡ [] → P) → IfPanics P (exec_next q s)
unfolding exec_next
exec_next-panics P [] s h = h refl
exec_next-panics P (o ∷ q) s h = tt

insert_offer-ne : (o : Offer) (q : List Offer) → insert_offer o q ≢ []
unfolding insert_offer
insert_offer-ne o [] h = cc
insert_offer-ne o (p ∷ q) h = ground arith

sort_offers-nil : (q : List Offer) → sort_offers q ≡ [] → q ≡ []
unfolding sort_offers
sort_offers-nil [] h = refl
sort_offers-nil (o ∷ q) h = absurd (insert_offer-ne o (sort_offers q) h)

append-ne : (q : List Offer) (o : Offer) → (q ++ (o ∷ [])) ≢ []
append-ne [] o h = cc
append-ne (p ∷ q) o h = cc

push_back-panics :
    (P : Type 0) (w : SessionWorker) (o : Offer) (s : State) → IfPanics P (push_back w o s)
unfolding push_back exec
push_back-panics P w o s =
    let fast =
      (ltb_ℤ w.num_threshold (pos 0) && ltb_ℤ w.time_threshold (pos 0)) && is_nil s.exec_done in
    let q = s.q ++ (o ∷ []) in
    elim (Bool-cases (is_above w o)) [
      | inl a ↦ rw a tt
      | inr a ↦ elim (Bool-cases fast) [
        | inl f ↦ rw (a, f) tt
        | inr f ↦ elim (Bool-cases (is_nil s.exec_done)) [
          | inr busy ↦ rw (a, f, busy) tt
          | inl idle ↦ elim (Bool-cases (reached w q)) [
            | inr r ↦ rw (a, f, idle, r) tt
            | inl r ↦
                rw (a, f, idle, r)
                  (exec_next-panics P (sort_offers q) s
                    (λ e. absurd (append-ne s.q o (sort_offers-nil q e))))
          ]
        ]
      ]
    ]

take_result-panics :
    (P : Type 0) (res : TxResult) (d : ExecDone) (q : List Offer) (s : State)
    → IfPanics P (take_result res d q s)
unfolding take_result exec_next
take_result-panics P res unset q s = tt
take_result-panics P res received q s = tt
take_result-panics P res (executing _) [] s = tt
take_result-panics P res (executing _) (o ∷ q) s = elim (Bool-cases (failed res)) [
  | inl f ↦ rw f tt
  | inr f ↦ rw f tt
]

unset_of : (d : ExecDone) → is_nil d ≡ true → d ≡ unset
unset_of unset h = refl
unset_of (executing o) h = cc
unset_of received h = cc

-- The state in which the timer has no offer to execute.
abbrev pub NothingYet : State → Type 0
NothingYet s = (s.delay ≡ true) × (s.exec_done ≡ unset) × (s.q ≡ [])

on_timer-panics : (s : State) → IfPanics (NothingYet s) (on_timer s)
unfolding on_timer
on_timer-panics s = elim (Bool-cases s.delay) [
  | inr e ↦ rw (ap not e) tt
  | inl e ↦ elim (Bool-cases (is_nil s.exec_done)) [
    | inr busy ↦ rw (ap not e, busy) tt
    | inl idle ↦
        rw (ap not e, idle)
          (exec_next-panics (NothingYet s) (sort_offers s.q) (record s { delay = false })
            (λ q. (e, unset_of s.exec_done idle, sort_offers-nil s.q q)))
  ]
]

step-panics :
    (w : SessionWorker) (e : Event) (s : State) → IfPanics ((e ≡ timer) × NothingYet s) (step w e s)
unfolding step push_front on_result
step-panics w (offer_back o) s = push_back-panics _ w o s
step-panics w (offer_front o) s = elim (Bool-cases (is_nil s.exec_done)) [
  | inl h ↦ rw h tt
  | inr h ↦ rw h tt
]
step-panics w timer s = both (on_timer s) (on_timer-panics s)
  where
    both : (t : Turn) → IfPanics (NothingYet s) t → IfPanics ((timer ≡ timer) × NothingYet s) t
    both panics h = (refl, h)
    both (goes _) h = tt
    both (closed _) h = tt
step-panics w (result answer) s = take_result-panics _ (exec_result answer) s.exec_done s.q s
step-panics w closing s = tt

timer-panics : (w : SessionWorker) (s : State) → NothingYet s → step w timer s ≡ panics
unfolding step on_timer exec_next sort_offers
timer-panics w s (d, x, q) =
    let idle : is_nil s.exec_done ≡ true = ap is_nil x in
    rw (ap not d, idle) (ap (λ l. exec_next (sort_offers l) (record s { delay = false })) q)

-- The worker panics exactly when its timer fires before it has executed an offer and its queue is
-- empty.
pub step-panics_iff :
    (w : SessionWorker) (e : Event) (s : State)
    → (step w e s ≡ panics) ↔ ((e ≡ timer) × NothingYet s)
step-panics_iff w e s = (
  λ h. subst (IfPanics ((e ≡ timer) × NothingYet s)) h (step-panics w e s),
  λ h. ap (λ x. step w x s) h.0 ∙ timer-panics w s h.1,
)
