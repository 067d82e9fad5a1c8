-- ===== src/Payments/Lifecycle/Runs.antt =====
-- Any sequence of tasks and answers of the chain, for an accessor of payments/channel.go, where the
-- datastore works.
use mathlib.Core.Path.{subst}
use pop.Common.{
  ℕ, zero, suc, ◌≡◌, ◌≤◌, refl, sym, ap, ◌∙◌, arith, true, false, List, [], ◌∷◌, none, get_elem?,
  length, All,
}
use pop.Common.Int.{ℤ}
use pop.Common.Result.{Result, ok, err}
use pop.Payments.Message.{Api}
use pop.Payments.Store.{Disk}
use pop.Payments.Lifecycle.{
  Wait, create_wait, funds_wait, Receipt, Sys, process_task, deliver, complete_wait, remove_at,
  wait_paych_create_msg, wait_add_funds_msg,
}
use pop.Payments.Lifecycle.Only.{Working}
use pop.Payments.Lifecycle.Phase.{
  Phase, absent, creating, open_at, adding, on_task, on_answer, on_created, waits_of, Shows,
}
use pop.Payments.Lifecycle.Tasks.{task-Follows}
use pop.Payments.Lifecycle.Delivered.{
  GivesAddress, Kept, Kept-channels, complete_create-channels, complete_funds-channels,
  created-Kept, funds-Kept, on_deliver,
}

-- What happens to an accessor: a task, with what the chain and the wallet say at that time, or an
-- answer for one of the routines that wait.
pub data Event : Type 0 where
  task : Api → ℤ → Event
  answer : ℕ → Result Receipt → Event

abbrev pub IsGood : Event → Type 0
IsGood (task api amt) = Unit
IsGood (answer i r) = GivesAddress r

-- The machine of phases goes from one phase to another, for some messages that are sent.
pub data Steps : Phase → List Event → Phase → Type 0 where
  done : {p : Phase} → Steps p [] p
  by_task :
      {p q : Phase} {api : Api} {amt : ℤ} {events : List Event} (sent : Result (ℕ × ℕ))
      → Steps (on_task p amt sent).0 events q
      → Steps p (task api amt ∷ events) q
  by_answer :
      {p q : Phase} {i : ℕ} {r : Result Receipt} {events : List Event}
      → Steps (on_deliver i p r) events q
      → Steps p (answer i r ∷ events) q

module _ (disk : Disk) (from to : ℕ) where
  unfoldable pub step : Event → Sys → Sys
  step (task api amt) sys = (process_task disk api sys from to amt).0
  step (answer i r) sys = deliver disk sys i r

  unfoldable pub run : List Event → Sys → Sys
  unfolding step
  run [] sys = sys
  run (e ∷ events) sys = run events (step e sys)

module _ (disk : Disk) (working : Working disk) (from to : ℕ) where
  abbrev Shown : Sys → Phase → Type 0
  Shown = Shows disk working from to

  waits_of-length : (p : Phase) → length (waits_of p) ≤ 1
  waits_of-length absent = omega arith
  waits_of-length (open_at id a b) = omega arith
  waits_of-length (creating id m x true) = omega arith
  waits_of-length (creating id m x false) = omega arith
  waits_of-length (adding id a b m x true) = omega arith
  waits_of-length (adding id a b m x false) = omega arith

  pub deliver-none :
      (sys : Sys) (i : ℕ) (r : Result Receipt)
      → get_elem? sys.waiting i ≡ none
      → deliver disk sys i r ≡ sys
  unfolding deliver
  deliver-none sys i r h = ground (arith, h)

  deliver-some :
      (sys : Sys) (w : Wait) (r : Result Receipt)
      → sys.waiting ≡ w ∷ []
      → deliver disk sys 0 r ≡ record { store = complete_wait disk sys.store w r; waiting = [] }
  unfolding deliver remove_at
  deliver-some sys w r h = ground (arith, h)

  idle :
      (sys : Sys) (i : ℕ) (p : Phase) (r : Result Receipt)
      → waits_of p ≡ []
      → on_deliver i p r ≡ p
      → Shown sys p
      → Shown (deliver disk sys i r) (on_deliver i p r)
  idle sys i p r w e (s, h, q) =
      subst (λ x. Shown x (on_deliver i p r))
        (sym (deliver-none sys i r (ap (λ ws. get_elem? ws i) (q ∙ w))))
        (subst (Shown sys) (sym e) (s, h, q))

  waits_of-get_elem? : (p : Phase) (i : ℕ) → get_elem? (waits_of p) (suc i) ≡ none
  waits_of-get_elem? absent i = refl
  waits_of-get_elem? (open_at id a b) i = refl
  waits_of-get_elem? (creating id m x true) i = refl
  waits_of-get_elem? (creating id m x false) i = refl
  waits_of-get_elem? (adding id a b m x true) i = refl
  waits_of-get_elem? (adding id a b m x false) i = refl

  created-waits_of :
      (id m : ℕ) (amt : ℤ) (r : Result Receipt)
      → waits_of (on_answer (creating id m amt true) r) ≡ []
  unfolding on_answer on_created
  created-waits_of id m amt (err e) = refl
  created-waits_of id m amt (ok r) = ground arith

  funds-waits_of :
      (id a : ℕ) (b : ℤ) (m : ℕ) (amt : ℤ) (r : Result Receipt)
      → waits_of (on_answer (adding id a b m amt true) r) ≡ []
  unfolding on_answer
  funds-waits_of id a b m amt (err e) = refl
  funds-waits_of id a b m amt (ok r) = ground arith

  finished :
      (sys : Sys) (w : Wait) (p : Phase) (r : Result Receipt)
      → sys.waiting ≡ w ∷ []
      → waits_of p ≡ []
      → Kept disk working from to (complete_wait disk sys.store w r) p
      → Shown (deliver disk sys 0 r) p
  finished sys w p r h n (s, k) =
      subst (λ x. Shown x p) (sym (deliver-some sys w r h)) (s, k, sym n)

  -- An answer does what the machine of phases does.
  pub deliver-Shows :
      (sys : Sys) (i : ℕ) (p : Phase) (r : Result Receipt)
      → GivesAddress r
      → Shown sys p
      → Shown (deliver disk sys i r) (on_deliver i p r)
  unfolding on_deliver on_answer
  deliver-Shows sys (suc i) p r g (s, h, q) =
      subst (λ x. Shown x p)
        (sym
          (deliver-none sys (suc i) r (ap (λ ws. get_elem? ws (suc i)) q ∙ waits_of-get_elem? p i)))
        (s, h, q)
  deliver-Shows sys zero absent r g h = idle sys 0 absent r refl refl h
  deliver-Shows sys zero (open_at id a b) r g h = idle sys 0 (open_at id a b) r refl refl h
  deliver-Shows sys zero (creating id m x false) r g h =
      idle sys 0 (creating id m x false) r refl refl h
  deliver-Shows sys zero (adding id a b m x false) r g h =
      idle sys 0 (adding id a b m x false) r refl refl h
  deliver-Shows sys zero (creating id m x true) r g (s, h, q) =
      let p = on_answer (creating id m x true) r in
      finished sys (create_wait id m) p r q (created-waits_of id m x r) (
        Kept-channels disk working from to (wait_paych_create_msg disk sys.store id r).0
          (complete_wait disk sys.store (create_wait id m) r) p
          (complete_create-channels disk working from to sys.store id m r)
          (created-Kept disk working from to sys.store id m x r g (s, h)))
  deliver-Shows sys zero (adding id a b m x true) r g (s, h, q) =
      let p = on_answer (adding id a b m x true) r in
      finished sys (funds_wait id m) p r q (funds-waits_of id a b m x r) (
        Kept-channels disk working from to (wait_add_funds_msg disk sys.store id r).0
          (complete_wait disk sys.store (funds_wait id m) r) p
          (complete_funds-channels disk working from to sys.store id m r)
          (funds-Kept disk working from to sys.store id a b m x r (s, h)))

  -- Where the datastore refuses nothing, makes up IDs that are not 0 and not in use, and the accessor
  -- starts in the state of a phase: whatever tasks and answers come, in whatever order, the accessor
  -- does what the machine of phases does, and one routine at most waits for a message. An answer of
  -- success gives an address that a channel can have, or one that cannot be decoded.
  pub run-Steps :
      (events : List Event) (sys : Sys) (p : Phase)
      → All IsGood events
      → Shown sys p
      → (q : Phase) × Steps p events q
        × Shown (run disk from to events sys) q
        × (length (run disk from to events sys).waiting ≤ 1)
  unfolding run step
  run-Steps [] sys p g (s, h, w) =
      (p, done, (s, h, w), subst (λ ws. length ws ≤ 1) (sym w) (waits_of-length p))
  run-Steps (task api amt ∷ events) sys p (_, g) h =
      let (sent, h', same) = task-Follows disk working from to api sys p amt h in
      let (q, steps, shown, short) =
        run-Steps events (process_task disk api sys from to amt).0 (on_task p amt sent).0 g h' in
      (q, by_task sent steps, shown, short)
  run-Steps (answer i r ∷ events) sys p (good, g) h =
      let (q, steps, shown, short) =
        run-Steps events (deliver disk sys i r) (on_deliver i p r) g
          (deliver-Shows sys i p r good h) in
      (q, by_answer steps, shown, short)
