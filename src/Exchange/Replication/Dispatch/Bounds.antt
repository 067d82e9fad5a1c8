-- ===== src/Exchange/Replication/Dispatch/Bounds.antt =====
-- How long Dispatch of exchange/replication.go runs and how many confirmations it passes on.
use mathlib.Core.Path.{subst}
use pop.Common.{
  ℕ, suc, ◌+◌, ◌≤◌, ◌<◌, ◌≡◌, refl, arith, Bool, true, false, List, [], ◌∷◌, length, length-append,
  if◌then◌else◌, Bool-cases, inl, inr,
}
use pop.Exchange.Peers.{PeerMgr}
use pop.Exchange.Replication.{PRecord}
use pop.Exchange.Replication.Dispatch.{
  DispatchOptions, State, Event, timer, confirms, requests, confirm, start, step, run,
}

pub by_done :
    (P : State → Type 0) (b : Bool) (x y : State)
    → (b ≡ true → P x)
    → (b ≡ false → P y)
    → P (if b then x else y)
by_done P true x y p q = p refl
by_done P false x y p q = q refl

-- The confirmations that were passed on are counted, and fewer than asked for while the loop runs.
abbrev Counted : DispatchOptions → State → Type 0
Counted opt s = (length s.out ≡ s.n) × (s.n ≤ opt.rf) × (s.done ≡ false → s.n < opt.rf)

requests-Counted :
    (opt : DispatchOptions) (pm : PeerMgr) (s : State)
    → Counted opt s
    → Counted opt (requests opt pm s)
unfolding requests
requests-Counted opt pm s (a, b, c) = ground arith

confirm-Counted :
    (opt : DispatchOptions) (r : PRecord) (s : State)
    → s.done ≡ false
    → Counted opt s
    → Counted opt (confirm opt r s)
unfolding confirm
confirm-Counted opt r s d (a, b, c) =
    let l = length-append s.out (r ∷ []) in
    (omega (arith, a, l), omega (arith, c d), ground (arith, c d))

-- The timers among these events.
abbrev pub timers : List Event → ℕ
timers [] = 0
timers (timer pm ∷ es) = suc (timers es)
timers (confirms r ∷ es) = timers es

step-Counted :
    (opt : DispatchOptions) (e : Event) (s : State) → Counted opt s → Counted opt (step opt e s)
unfolding step
step-Counted opt (timer pm) s c =
    by_done (Counted opt) s.done s (requests opt pm s) (λ d. c) (λ d. requests-Counted opt pm s c)
step-Counted opt (confirms r) s c =
    by_done (Counted opt) s.done s (confirm opt r s) (λ d. c) (λ d. confirm-Counted opt r s d c)

-- Not done, the loop has made one attempt for each timer, and one more before the first.
abbrev Attempted : DispatchOptions → ℕ → State → Type 0
Attempted opt k s = s.done ≡ false → (s.attempt ≡ suc k) × (k ≤ opt.backoff_attempts)

requests-Attempted :
    (opt : DispatchOptions) (pm : PeerMgr) (k : ℕ) (s : State)
    → s.attempt ≡ suc k
    → Attempted opt (suc k) (requests opt pm s)
unfolding requests
requests-Attempted opt pm k s h = ground arith

step-Attempted :
    (opt : DispatchOptions) (e : Event) (k : ℕ) (s : State)
    → Attempted opt k s
    → Attempted opt (k + timers (e ∷ [])) (step opt e s)
unfolding step confirm
step-Attempted opt (timer pm) k s h =
    subst (λ m. Attempted opt m (step opt (timer pm) s)) (omega arith)
      (by_done (Attempted opt (suc k)) s.done s (requests opt pm s) (λ d d'. cc)
        (λ d. requests-Attempted opt pm k s (h d).0))
step-Attempted opt (confirms r) k s h =
    by_done (Attempted opt (k + 0)) s.done s (confirm opt r s) (λ d d'. cc)
      (λ d d'. omega (arith, h d))

start-facts :
    (opt : DispatchOptions) (pm : PeerMgr) (pulls : List (ℕ × List ℕ))
    → 1 ≤ opt.rf
    → Counted opt (start opt pm pulls) × Attempted opt 0 (start opt pm pulls)
unfolding start requests
start-facts opt pm pulls h = ground arith

timers-cons : (e : Event) (es : List Event) → timers (e ∷ es) ≡ timers (e ∷ []) + timers es
timers-cons (timer pm) es = omega arith
timers-cons (confirms r) es = omega arith

run-facts :
    (opt : DispatchOptions) (es : List Event) (k : ℕ) (s : State)
    → Counted opt s
    → Attempted opt k s
    → Counted opt (run opt es s) × Attempted opt (k + timers es) (run opt es s)
unfolding run
run-facts opt [] k s c a = (c, λ d. omega (arith, a d))
run-facts opt (e ∷ es) k s c a =
    let (c', a') =
      run-facts opt es (k + timers (e ∷ [])) (step opt e s) (step-Counted opt e s c)
        (step-Attempted opt e k s a) in
    (c', λ d. omega (arith, a' d, timers-cons e es))

-- With a replication factor of at least 1, Dispatch passes on at most that many confirmations, as many
-- as it counts. It ends after more timers than its number of attempts, whatever is confirmed.
pub dispatch-ends :
    (opt : DispatchOptions) (pm : PeerMgr) (pulls : List (ℕ × List ℕ)) (es : List Event)
    → 1 ≤ opt.rf
    → let s = run opt es (start opt pm pulls) in
      (length s.out ≤ opt.rf)
      × (length s.out ≡ s.n)
      × (opt.backoff_attempts < timers es → s.done ≡ true)
dispatch-ends opt pm pulls es h =
    let (begun, attempted) = start-facts opt pm pulls h in
    let (c, a) = run-facts opt es 0 (start opt pm pulls) begun attempted in
    let s = run opt es (start opt pm pulls) in
    (
      omega (arith, c.0, c.1),
      c.0,
      λ many. elim (Bool-cases s.done) [
        | inl d ↦ d
        | inr d ↦ absurd (omega (arith, many, (a d).1))
      ],
    )
