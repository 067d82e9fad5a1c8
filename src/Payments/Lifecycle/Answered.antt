-- ===== src/Payments/Lifecycle/Answered.antt =====
-- What getWaitReady of payments/channel.go returns once a message has completed, where the datastore
-- works.
use mathlib.Core.Path.{subst}
use pop.Common.{ℕ, ◌≡◌, sym, ap, ◌∙◌, arith, true, [], some, ◌==◌}
use pop.Common.Int.{ℤ, ◌+ℤ◌}
use pop.Common.Assoc.{find}
use pop.Common.Result.{Result, ok, err, wrap}
use pop.Common.Text.{String}
use pop.Payments.Info.{tracked}
use pop.Payments.Store.{Store, Disk, MsgInfo, is_active}
use pop.Payments.Store.First.{read_all, first, find_chan-first}
use pop.Payments.Store.Unique.{find-filter}
use pop.Payments.Lifecycle.{
  create_wait, funds_wait, Receipt, complete_wait, wait_paych_create_msg, wait_add_funds_msg,
  returned, get_wait_ready,
}
use pop.Payments.Lifecycle.Only.{Working}
use pop.Payments.Lifecycle.Phase.{creating, open_at, adding, on_answer, on_created}
use pop.Payments.Lifecycle.Delivered.{
  GivesAddress, Kept, Kept-channels, complete_create-channels, complete_funds-channels,
  created-Kept, funds-Kept,
}
use pop.Payments.Lifecycle.Recorded.{
  create_outcome, funds_outcome, HasText, FoundAt, first-id, saved-get_wait_ready, create-message,
  funds-message,
}

module _ (disk : Disk) (working : Working disk) (from to : ℕ) where
  open-FoundAt :
      (st : Store) (id a : ℕ) (b : ℤ)
      → Kept disk working from to st (open_at id a b)
      → FoundAt disk st id a
  open-FoundAt st id a b ((k, d), (ci, h, (i, c, x1, x2, x3, x4, x5))) =
      let (x, q, u) = find-filter (is_active from to) st.channels ci [] k d h in
      (
        ci,
        find_chan-first disk st (λ x. x.channel_id == id) working.readable
            ∙ subst (λ j. first (λ y. y.channel_id == j) (read_all st.channels) ≡ tracked ci) i
                (first-id disk st.channels ci.channel_id x k q ∙ ap tracked u),
        c,
      )

  create_outcome-open :
      (id m : ℕ) (amt : ℤ) (answer : Result Receipt) (a : ℕ)
      → create_outcome answer ≡ ok a
      → on_answer (creating id m amt true) answer ≡ open_at id a amt
  unfolding create_outcome on_answer on_created
  create_outcome-open id m amt (err e) a h = cc
  create_outcome-open id m amt (ok r) a h = ground (arith, h)

  -- Where the datastore refuses nothing, the accessor waits for the creating message, and the message is
  -- stored without an error: once the routine that waits has ended, getWaitReady returns the new channel's
  -- address, one that a channel can have, or an error, with the text of the chain's error as fmt.Errorf
  -- gives it for a format. That text is not empty.
  pub create-get_wait_ready :
      (errorf : String → String) (st : Store) (id m : ℕ) (amt : ℤ) (answer : Result Receipt)
      (info : MsgInfo)
      → GivesAddress answer
      → Kept disk working from to st (creating id m amt true)
      → find m st.messages ≡ some info
      → info.msg_cid ≡ m
      → info.error ≡ ""
      → info.channel_id ≡ id
      → HasText (create_outcome answer)
      → get_wait_ready disk errorf (complete_wait disk st (create_wait id m) answer) m
        ≡ returned (wrap errorf (create_outcome answer))
  create-get_wait_ready errorf st id m amt answer info g k h c n i t =
      let st' = (wait_paych_create_msg disk st id answer).0 in
      let after = complete_wait disk st (create_wait id m) answer in
      let kept =
        Kept-channels disk working from to st' after (on_answer (creating id m amt true) answer)
          (complete_create-channels disk working from to st id m answer)
          (created-Kept disk working from to st id m amt answer g k) in
      saved-get_wait_ready disk errorf after m info (create_outcome answer)
        (create-message disk st id m answer info working h c n) t
        λ a e.
          subst (λ j. FoundAt disk after j a) (sym i)
            (open-FoundAt after id a amt (
              subst (Kept disk working from to after) (create_outcome-open id m amt answer a e)
                kept))

  funds_outcome-open :
      (id a : ℕ) (b : ℤ) (m : ℕ) (amt : ℤ) (answer : Result Receipt) (x : ℕ)
      → funds_outcome a answer ≡ ok x
      → (on_answer (adding id a b m amt true) answer ≡ open_at id a (b +ℤ amt)) × (a ≡ x)
  unfolding funds_outcome on_answer
  funds_outcome-open id a b m amt (err e) x h = cc
  funds_outcome-open id a b m amt (ok r) x h = (ground (arith, h), ground (arith, h))

  -- Once the routine that waits for more funds has ended, getWaitReady returns the channel's
  -- address, or the error that the chain answered, as fmt.Errorf gives it.
  funds-get_wait_ready :
      (errorf : String → String) (st : Store) (id a : ℕ) (b : ℤ) (m : ℕ) (amt : ℤ)
      (answer : Result Receipt) (info : MsgInfo)
      → Kept disk working from to st (adding id a b m amt true)
      → find m st.messages ≡ some info
      → info.msg_cid ≡ m
      → info.error ≡ ""
      → info.channel_id ≡ id
      → HasText (funds_outcome a answer)
      → get_wait_ready disk errorf (complete_wait disk st (funds_wait id m) answer) m
        ≡ returned (wrap errorf (funds_outcome a answer))
  funds-get_wait_ready errorf st id a b m amt answer info k h c n i t =
      let st' = (wait_add_funds_msg disk st id answer).0 in
      let after = complete_wait disk st (funds_wait id m) answer in
      let kept =
        Kept-channels disk working from to st' after (on_answer (adding id a b m amt true) answer)
          (complete_funds-channels disk working from to st id m answer)
          (funds-Kept disk working from to st id a b m amt answer k) in
      saved-get_wait_ready disk errorf after m info (funds_outcome a answer)
        (funds-message disk st id a m answer info working h c n) t
        λ x e.
          let (opened, same) = funds_outcome-open id a b m amt answer x e in
          subst (FoundAt disk after info.channel_id) same (
            subst (λ j. FoundAt disk after j a) (sym i)
              (open-FoundAt after id a (b +ℤ amt)
                (subst (Kept disk working from to after) opened kept)))
