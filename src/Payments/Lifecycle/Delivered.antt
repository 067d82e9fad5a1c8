-- ===== src/Payments/Lifecycle/Delivered.antt =====
-- The routines of payments/channel.go that wait for a message, against the machine of phases, where
-- the datastore works: waitForPaychCreateMsg and waitForAddFundsMsg once the chain answers.
use mathlib.Core.Path.{subst}
use pop.Common.{
  ℕ, zero, suc, ◌≡◌, ◌≢◌, refl, sym, ap, ◌∙◌, arith, true, false, [], ◌∷◌, some, ◌==◌, Bool-cases,
  inl, inr,
}
use pop.Common.Int.{ℤ, pos, ◌+ℤ◌}
use pop.Common.Result.{Result, ok, err, Result-cases}
use pop.Common.Text.{String}
use pop.Payments.Store.{Store, Disk, empty_addr}
use pop.Payments.Store.Ops.{remove_channel}
use pop.Payments.Lifecycle.{
  create_wait, funds_wait, Receipt, complete_wait, wait_paych_create_msg, wait_add_funds_msg,
  msg_wait_complete, mutate_channel_info, confirm_create, confirm_funds, drop_funds,
}
use pop.Payments.Lifecycle.Only.{
  Working, Sound, mutate-active, remove-active, save_message_result-channels, active-passes,
  same_channels,
}
use pop.Payments.Lifecycle.Phase.{
  Phase, absent, creating, open_at, adding, on_answer, on_created, Stored,
}

-- An address that the chain gives to a channel is not the one that stands for none.
abbrev pub GivesAddress : Result Receipt → Type 0
GivesAddress answer =
    (r : Receipt) (a : ℕ) → answer ≡ ok r → r.robust_address ≡ ok a → a ≢ empty_addr

unfoldable pub on_deliver : ℕ → Phase → Result Receipt → Phase
unfolding on_answer
on_deliver zero phase answer = on_answer phase answer
on_deliver (suc i) phase answer = phase

module _ (disk : Disk) (working : Working disk) (from to : ℕ) where
  abbrev pub Kept : Store → Phase → Type 0
  Kept st phase = Sound disk working from to st × Stored disk working from to st phase

  pub complete_create-channels :
      (st : Store) (id m : ℕ) (answer : Result Receipt)
      → (complete_wait disk st (create_wait id m) answer).channels
        ≡ (wait_paych_create_msg disk st id answer).0.channels
  unfolding complete_wait msg_wait_complete
  complete_create-channels st id m answer =
      let p = wait_paych_create_msg disk st id answer in
      save_message_result-channels disk working from to p.0 m p.1

  pub complete_funds-channels :
      (st : Store) (id m : ℕ) (answer : Result Receipt)
      → (complete_wait disk st (funds_wait id m) answer).channels
        ≡ (wait_add_funds_msg disk st id answer).0.channels
  unfolding complete_wait msg_wait_complete
  complete_funds-channels st id m answer =
      let p = wait_add_funds_msg disk st id answer in
      save_message_result-channels disk working from to p.0 m p.1

  pub Kept-channels :
      (st st' : Store) (phase : Phase) → st'.channels ≡ st.channels → Kept st phase → Kept st' phase
  Kept-channels st st' absent e (s, h) = same_channels disk working from to st st' [] e s h
  Kept-channels st st' (creating id m x live) e (s, (ci, h, f)) =
      let (s', h') = same_channels disk working from to st st' (ci ∷ []) e s h in (s', (ci, h', f))
  Kept-channels st st' (open_at id a b) e (s, (ci, h, f)) =
      let (s', h') = same_channels disk working from to st st' (ci ∷ []) e s h in (s', (ci, h', f))
  Kept-channels st st' (adding id a b m x live) e (s, (ci, h, f)) =
      let (s', h') = same_channels disk working from to st st' (ci ∷ []) e s h in (s', (ci, h', f))

  Kept-eq :
      (st st' : Store) (phase phase' : Phase)
      → st' ≡ st
      → phase' ≡ phase
      → Kept st phase
      → Kept st' phase'
  Kept-eq st st' phase phase' e q k = subst (λ x. Kept x phase') (sym e) (subst (Kept st) (sym q) k)

  -- How an answer to the creating message ends.
  created_at :
      (st : Store) (id m : ℕ) (amt : ℤ) (r : Receipt) (a : ℕ)
      → (r.exit_code == 0) ≡ true
      → r.robust_address ≡ ok a
      → ((wait_paych_create_msg disk st id (ok r)).0
          ≡ mutate_channel_info disk st id (confirm_create a))
        × (on_answer (creating id m amt true) (ok r) ≡ open_at id a amt)
  unfolding wait_paych_create_msg on_answer on_created
  created_at st id m amt r a t q = (ground (arith, t, q), ground (arith, t, q))

  created_garbled :
      (st : Store) (id m : ℕ) (amt : ℤ) (r : Receipt) (e : String)
      → (r.exit_code == 0) ≡ true
      → r.robust_address ≡ err e
      → ((wait_paych_create_msg disk st id (ok r)).0 ≡ st)
        × (on_answer (creating id m amt true) (ok r) ≡ creating id m amt false)
  unfolding wait_paych_create_msg on_answer on_created
  created_garbled st id m amt r e t q = (ground (arith, t, q), ground (arith, t, q))

  create_refused :
      (st : Store) (id m : ℕ) (amt : ℤ) (r : Receipt)
      → (r.exit_code == 0) ≡ false
      → ((wait_paych_create_msg disk st id (ok r)).0 ≡ (remove_channel disk st id).0)
        × (on_answer (creating id m amt true) (ok r) ≡ absent)
  unfolding wait_paych_create_msg on_answer
  create_refused st id m amt r t = (ground (arith, t), ground (arith, t))

  pub created-Kept :
      (st : Store) (id m : ℕ) (amt : ℤ) (answer : Result Receipt)
      → GivesAddress answer
      → Kept st (creating id m amt true)
      → Kept (wait_paych_create_msg disk st id answer).0 (on_answer (creating id m amt true) answer)
  unfolding wait_paych_create_msg on_answer
  created-Kept st id m amt (err e) g k = k
  created-Kept st id m amt (ok r) g (s, (ci, h, (i, n, z, p, c, f))) =
      elim (Bool-cases (r.exit_code == 0)) [
        | inl t ↦ elim (Result-cases r.robust_address) [
          | inl (e, q) ↦
              let (x, y) = created_garbled st id m amt r e t q in
              Kept-eq st (wait_paych_create_msg disk st id (ok r)).0 (creating id m amt false)
                (on_answer (creating id m amt true) (ok r)) x y (s, (ci, h, (i, n, z, p, c, f)))
          | inr (a, q) ↦
              let (x, y) = created_at st id m amt r a t q in
              let (s', h') =
                mutate-active disk working from to st ci (confirm_create a) s h refl
                  (λ e. g r a refl q (ground (arith, e)))
                  (active-passes disk working from to st ci h) in
              Kept-eq (mutate_channel_info disk st ci.channel_id (confirm_create a))
                (wait_paych_create_msg disk st id (ok r)).0 (open_at id a amt)
                (on_answer (creating id m amt true) (ok r))
                (x ∙ ap (λ k. mutate_channel_info disk st k (confirm_create a)) (sym i)) y
                (
                  s',
                  (
                    record (confirm_create a ci) { settling_at = pos 0 },
                    h',
                    (i, refl, g r a refl q, p, refl, refl, f),
                  ),
                )
        ]
        | inr t ↦
            let (x, y) = create_refused st id m amt r t in
            Kept-eq (remove_channel disk st ci.channel_id).0
              (wait_paych_create_msg disk st id (ok r)).0 absent
              (on_answer (creating id m amt true) (ok r))
              (x ∙ ap (λ k. (remove_channel disk st k).0) (sym i)) y
              (remove-active disk working from to st ci s h)
      ]

  -- Funds that the chain added, and those that it refused.
  funds_at :
      (st : Store) (id a : ℕ) (b : ℤ) (m : ℕ) (amt : ℤ) (r : Receipt)
      → (r.exit_code == 0) ≡ true
      → ((wait_add_funds_msg disk st id (ok r)).0 ≡ mutate_channel_info disk st id confirm_funds)
        × (on_answer (adding id a b m amt true) (ok r) ≡ open_at id a (b +ℤ amt))
  unfolding wait_add_funds_msg on_answer
  funds_at st id a b m amt r t = (ground (arith, t), ground (arith, t))

  funds_refused :
      (st : Store) (id a : ℕ) (b : ℤ) (m : ℕ) (amt : ℤ) (r : Receipt)
      → (r.exit_code == 0) ≡ false
      → ((wait_add_funds_msg disk st id (ok r)).0 ≡ mutate_channel_info disk st id drop_funds)
        × (on_answer (adding id a b m amt true) (ok r) ≡ open_at id a b)
  unfolding wait_add_funds_msg on_answer
  funds_refused st id a b m amt r t = (ground (arith, t), ground (arith, t))

  pub funds-Kept :
      (st : Store) (id a : ℕ) (b : ℤ) (m : ℕ) (amt : ℤ) (answer : Result Receipt)
      → Kept st (adding id a b m amt true)
      → Kept (wait_add_funds_msg disk st id answer).0 (on_answer (adding id a b m amt true) answer)
  unfolding wait_add_funds_msg on_answer
  funds-Kept st id a b m amt (err e) k = k
  funds-Kept st id a b m amt (ok r) (s, (ci, h, (i, k, n, z, p, c, f))) =
      let filled = λ (e : ci.channel ≡ some empty_addr). n (ground (arith, k, e)) in
      let passes = active-passes disk working from to st ci h in
      elim (Bool-cases (r.exit_code == 0)) [
        | inl t ↦
            let (x, y) = funds_at st id a b m amt r t in
            let (s', h') =
              mutate-active disk working from to st ci confirm_funds s h refl filled passes in
            Kept-eq (mutate_channel_info disk st ci.channel_id confirm_funds)
              (wait_add_funds_msg disk st id (ok r)).0 (open_at id a (b +ℤ amt))
              (on_answer (adding id a b m amt true) (ok r))
              (x ∙ ap (λ j. mutate_channel_info disk st j confirm_funds) (sym i)) y
              (
                s',
                (
                  record (confirm_funds ci) { settling_at = pos 0 },
                  h',
                  (i, k, n, rw (z, p) refl, refl, c, refl),
                ),
              )
        | inr t ↦
            let (x, y) = funds_refused st id a b m amt r t in
            let (s', h') =
              mutate-active disk working from to st ci drop_funds s h refl filled passes in
            Kept-eq (mutate_channel_info disk st ci.channel_id drop_funds)
              (wait_add_funds_msg disk st id (ok r)).0 (open_at id a b)
              (on_answer (adding id a b m amt true) (ok r))
              (x ∙ ap (λ j. mutate_channel_info disk st j drop_funds) (sym i)) y
              (
                s',
                (record (drop_funds ci) { settling_at = pos 0 }, h', (i, k, n, z, refl, c, refl)),
              )
      ]
