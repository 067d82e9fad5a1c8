-- ===== src/Exchange/Worker/Drained.antt =====
-- How the loop of sessionWorker.Start (exchange/tx.go) ends: with one result.
use mathlib.Core.Path.{subst}
use pop.Common.{
  ◌≡◌, ◌≢◌, ◌⊎◌, refl, sym, ap, true, false, not, ◌&&◌, List, [], ◌∷◌, ◌++◌, length, Bool-cases,
  inl, inr,
}
use pop.Common.Int.{pos, ltb_ℤ}
use pop.Retrieval.Deal.{Offer}
use pop.Exchange.Worker.{
  TxResult, SessionWorker, State, Event, offer_back, offer_front, timer, result, closing, Turn,
  goes, closed, panics, ExecDone, unset, executing, received, is_nil, is_above, reached,
  sort_offers, exec, exec_next, push_back, push_front, on_timer, on_result, take_result,
  exec_result, failed, step, run, start,
}
use pop.Exchange.Worker.Kept.{OnGo}

-- Nothing more is executed or reported: what arrives is queued.
abbrev pub Idle : State → State → Type 0
Idle s s' = (s'.exec_done ≡ received) × (s'.executed ≡ s.executed) × (s'.finished ≡ s.finished)

step-Idle :
    (w : SessionWorker) (e : Event) (s : State)
    → s.exec_done ≡ received
    → OnGo (Idle s) (step w e s)
unfolding step push_back push_front on_timer on_result take_result
step-Idle w (offer_back o) s h =
    let busy : is_nil s.exec_done ≡ false = ap is_nil h in
    elim (Bool-cases (is_above w o)) [
      | inl a ↦ rw a (h, refl, refl)
      | inr a ↦
          let fast = ltb_ℤ w.num_threshold (pos 0) && ltb_ℤ w.time_threshold (pos 0) in
          elim (Bool-cases fast) [
            | inl f ↦ rw (a, f, busy) (h, refl, refl)
            | inr f ↦ rw (a, f, busy) (h, refl, refl)
          ]
    ]
step-Idle w (offer_front o) s h =
    let busy : is_nil s.exec_done ≡ false = ap is_nil h in rw busy (h, refl, refl)
step-Idle w timer s h =
    let busy : is_nil s.exec_done ≡ false = ap is_nil h in
    elim (Bool-cases s.delay) [
      | inl e ↦ rw (ap not e, busy) (h, refl, refl)
      | inr e ↦ rw (ap not e) (h, refl, refl)
    ]
step-Idle w (result answer) s h =
    subst (OnGo (Idle s)) (sym (ap (λ d. take_result (exec_result answer) d s.q s) h))
      (h, refl, refl)
step-Idle w closing s h = tt

run-Idle :
    (w : SessionWorker) (es : List Event) (s : State)
    → s.exec_done ≡ received
    → OnGo (Idle s) (run w es s)
unfolding run
run-Idle w [] s h = (h, refl, refl)
run-Idle w (e ∷ es) s h = after (run-Idle w es) (step w e s) (step-Idle w e s h)
  where
    combine : (s' : State) (t : Turn) → Idle s s' → OnGo (Idle s') t → OnGo (Idle s) t
    combine s' (goes u) (r, x, f) (r', x', f') = (r', cc, cc)
    combine s' (closed q) i i' = tt
    combine s' panics i i' = tt

    after :
        ((s' : State) → s'.exec_done ≡ received → OnGo (Idle s') (run w es s'))
        → (t : Turn) → OnGo (Idle s) t
        → OnGo (Idle s) (elim t [ goes s' ↦ run w es s' | closed q ↦ closed q | panics ↦ panics ])
    after later (goes s') i = combine s' (run w es s') i (later s' i.0)
    after later (closed q) i = tt
    after later panics i = tt

-- A result was reported once and the execution is over, or none was yet.
abbrev pub Once : State → Type 0
Once s = (s.finished ≡ []) ⊎ ((length s.finished ≡ 1) × (s.exec_done ≡ received))

exec_next-Once : (q : List Offer) (s : State) → s.finished ≡ [] → OnGo Once (exec_next q s)
unfolding exec_next exec
exec_next-Once [] s h = tt
exec_next-Once (o ∷ q) s h = inl h

busy_of : (s : State) → Once s → is_nil s.exec_done ≡ true → s.finished ≡ []
busy_of s (inl h) n = h
busy_of s (inr (_, r)) n = cc (ap is_nil r)

push_back-Once : (w : SessionWorker) (o : Offer) (s : State) → Once s → OnGo Once (push_back w o s)
unfolding push_back exec
push_back-Once w o s h =
    let fast = ltb_ℤ w.num_threshold (pos 0) && ltb_ℤ w.time_threshold (pos 0) in
    let q = s.q ++ (o ∷ []) in
    elim (Bool-cases (is_above w o)) [
      | inl a ↦ rw a h
      | inr a ↦ elim (Bool-cases (is_nil s.exec_done)) [
        | inr busy ↦ elim (Bool-cases fast) [
          | inl f ↦ rw (a, f, busy) h
          | inr f ↦ rw (a, f, busy) h
        ]
        | inl idle ↦ elim (Bool-cases fast) [
          | inl f ↦ rw (a, f, idle) (inl (busy_of s h idle))
          | inr f ↦ elim (Bool-cases (reached w q)) [
            | inl r ↦ rw (a, f, idle, r) (exec_next-Once (sort_offers q) s (busy_of s h idle))
            | inr r ↦ rw (a, f, idle, r) h
          ]
        ]
      ]
    ]

take_result-Once :
    (res : TxResult) (d : ExecDone) (q : List Offer) (s : State)
    → s.exec_done ≡ d
    → Once s
    → OnGo Once (take_result res d q s)
unfolding take_result
take_result-Once res unset q s e h = h
take_result-Once res received q s e h = h
take_result-Once res (executing _) [] s e (inl h) = inr (rw h refl, refl)
take_result-Once res (executing _) (o ∷ q) s e (inl h) = elim (Bool-cases (failed res)) [
  | inl f ↦ rw f (exec_next-Once (o ∷ q) (record s { exec_done = received }) h)
  | inr f ↦ rw f (inr (rw h refl, refl))
]
take_result-Once res (executing o) q s e (inr (_, r)) = cc

step-Once : (w : SessionWorker) (e : Event) (s : State) → Once s → OnGo Once (step w e s)
unfolding step push_front on_timer on_result exec
step-Once w (offer_back o) s h = push_back-Once w o s h
step-Once w (offer_front o) s h = elim (Bool-cases (is_nil s.exec_done)) [
  | inl idle ↦ rw idle (inl (busy_of s h idle))
  | inr busy ↦ rw busy h
]
step-Once w timer s h = elim (Bool-cases (not s.delay)) [
  | inl e ↦ rw e h
  | inr e ↦ elim (Bool-cases (is_nil s.exec_done)) [
    | inl idle ↦
        rw (e, idle)
          (exec_next-Once (sort_offers s.q) (record s { delay = false }) (busy_of s h idle))
    | inr busy ↦ rw (e, busy) h
  ]
]
step-Once w (result answer) s h = take_result-Once (exec_result answer) s.exec_done s.q s refl h
step-Once w closing s h = tt

run-Once : (w : SessionWorker) (es : List Event) (s : State) → Once s → OnGo Once (run w es s)
unfolding run
run-Once w [] s h = h
run-Once w (e ∷ es) s h = after (run-Once w es) (step w e s) (step-Once w e s h)
  where
    after :
        ((s' : State) → Once s' → OnGo Once (run w es s'))
        → (t : Turn) → OnGo Once t
        → OnGo Once (elim t [ goes s' ↦ run w es s' | closed q ↦ closed q | panics ↦ panics ])
    after later (goes s') h = later s' h
    after later (closed q) h = tt
    after later panics h = tt

-- The worker reports at most one result. After it did, exec is called for no offer and nothing more
-- is reported, whatever offers and timers come, those at the front included.
pub run-drained :
    (w : SessionWorker) (before after : List Event) (s s' : State)
    → run w before (start w) ≡ goes s
    → s.finished ≢ []
    → run w after s ≡ goes s'
    → (length s.finished ≡ 1) × (s'.executed ≡ s.executed) × (s'.finished ≡ s.finished)
unfolding start
run-drained w before after s s' p f q =
    elim (subst (OnGo Once) p (run-Once w before (start w) (inl refl))) [
      | inl h ↦ absurd (f h)
      | inr (one, r) ↦
          let idle : Idle s s' = subst (OnGo (Idle s)) q (run-Idle w after s r) in
          (one, idle.1, idle.2)
    ]
