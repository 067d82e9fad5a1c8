-- ===== src/Payments/Lifecycle/Stuck.antt =====
-- When the queue of payments/channel.go goes on, and when it never does: a message with a receipt lets
-- the next task through, and a message without one holds all tasks back. The datastore refuses
-- nothing here: a failed write is only logged, and would leave the message pending.
use pop.Common.{ℕ, ◌≡◌, ◌≢◌, sym, ◌∙◌, true, false, none, inl, inr, ◌⊎◌, ◌==◌, Bool-cases}
use pop.Common.Int.{ℤ}
use pop.Common.Result.{Result, ok, err}
use pop.Payments.Message.{Api}
use pop.Payments.Store.{Disk}
use pop.Payments.Lifecycle.{Receipt, Sys, process_task, deliver}
use pop.Payments.Lifecycle.Only.{Working}
use pop.Payments.Lifecycle.Phase.{
  Phase, absent, creating, open_at, adding, on_task, on_answer, on_created, Shows,
}
use pop.Payments.Lifecycle.Tasks.{task-Follows}
use pop.Payments.Lifecycle.Delivered.{GivesAddress, on_deliver}
use pop.Payments.Lifecycle.Runs.{deliver-Shows}

-- A message is pending, and no routine waits for it.
abbrev pub IsLost : Phase → Type 0
IsLost absent = false ≡ true
IsLost (open_at id a b) = false ≡ true
IsLost (creating id m x live) = live ≡ false
IsLost (adding id a b m x live) = live ≡ false

-- A message is pending, and a routine waits for it.
abbrev pub IsPending : Phase → Type 0
IsPending absent = false ≡ true
IsPending (open_at id a b) = false ≡ true
IsPending (creating id m x live) = live ≡ true
IsPending (adding id a b m x live) = live ≡ true

-- No message is pending.
abbrev pub IsIdle : Phase → Type 0
IsIdle absent = Unit
IsIdle (open_at id a b) = Unit
IsIdle (creating id m x live) = false ≡ true
IsIdle (adding id a b m x live) = false ≡ true

module _ (disk : Disk) (working : Working disk) (from to : ℕ) where
  abbrev Shown : Sys → Phase → Type 0
  Shown = Shows disk working from to

  on_task-some :
      (p : Phase) (amt : ℤ) (sent : Result (ℕ × ℕ)) → IsIdle p → (on_task p amt sent).1 ≢ none
  unfolding on_task
  on_task-some absent amt (ok (m, i)) n = λ e. cc
  on_task-some absent amt (err s) n = λ e. cc
  on_task-some (open_at id a b) amt (ok (m, i)) n = λ e. cc
  on_task-some (open_at id a b) amt (err s) n = λ e. cc
  on_task-some (creating id m x live) amt s n = cc
  on_task-some (adding id a b m x live) amt s n = cc

  receipt-IsIdle :
      (p : Phase) (r : Receipt) (a : ℕ)
      → IsPending p
      → (r.robust_address ≡ ok a) ⊎ ((r.exit_code == 0) ≡ false)
      → IsIdle (on_answer p (ok r))
  unfolding on_answer on_created
  receipt-IsIdle absent r a l d = cc
  receipt-IsIdle (open_at id x b) r a l d = cc
  receipt-IsIdle (creating id m x false) r a l d = cc
  receipt-IsIdle (adding id x b m y false) r a l d = cc
  receipt-IsIdle (creating id m x true) r a l (inl q) = elim (Bool-cases (r.exit_code == 0)) [
    | inl t ↦ rw (t, q) tt
    | inr t ↦ rw t tt
  ]
  receipt-IsIdle (creating id m x true) r a l (inr t) = rw t tt
  receipt-IsIdle (adding id x b m y true) r a l d = elim (Bool-cases (r.exit_code == 0)) [
    | inl t ↦ rw t tt
    | inr t ↦ rw t tt
  ]

  -- Where the datastore refuses nothing: a task that comes after the chain's receipt for the pending
  -- message is not held back, but gets an answer. The receipt is one of failure, or one of success whose
  -- address can be decoded and is one that a channel can have.
  pub task-after_receipt :
      (api : Api) (sys : Sys) (p : Phase) (amt : ℤ) (r : Receipt) (a : ℕ)
      → GivesAddress (ok r)
      → IsPending p
      → (r.robust_address ≡ ok a) ⊎ ((r.exit_code == 0) ≡ false)
      → Shown sys p
      → (process_task disk api (deliver disk sys 0 (ok r)) from to amt).1 ≢ none
  unfolding on_deliver
  task-after_receipt api sys p amt r a g l d h =
      let (sent, h', same) =
        task-Follows disk working from to api (deliver disk sys 0 (ok r)) (on_answer p (ok r)) amt
          (deliver-Shows disk working from to sys 0 p (ok r) g h) in
      λ e. on_task-some (on_answer p (ok r)) amt sent (receipt-IsIdle p r a l d) (sym same ∙ e)
