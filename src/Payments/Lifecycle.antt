-- ===== src/Payments/Lifecycle.antt =====
-- How payments/channel.go creates and funds a channel: create, addFunds, the two routines that wait
-- for their messages, processTask on the store, and getWaitReady. A routine that was started waits
-- until the chain answers, so a state has the store and the routines that still wait. `log` lines
-- are left out, and a panic is written as an error.
pub mod Only
pub mod Created
pub mod Phase
pub mod Tasks
pub mod Delivered
pub mod Runs
pub mod Stuck
pub mod Recorded
pub mod Answered
use pop.Common.{
  ℕ, zero, suc, Bool, true, false, List, [], ◌∷◌, ◌++◌, Option, none, some, ◌==◌, if◌then◌else◌,
  get_elem?, ltb,
}
use pop.Common.Int.{ℤ, pos, ◌+ℤ◌}
use pop.Common.Result.{Result, ok, err}
use pop.Common.Text.{String, len, ◌+++◌, show_ℕ}
use pop.Payments.Info.{ChannelInfo, Found, tracked, untracked, errored}
use pop.Payments.Queue.{FundsRes, failed_with}
use pop.Payments.Message.{SignedMessage, Api, Message, create_message, funds_message, mpool_push}
use pop.Payments.Store.{
  Store, Disk, create_channel, put_channel_info, save_new_message, save_message_result, get_message,
  by_channel_id, by_message_cid, outbound_active_by_from_to,
}
use pop.Payments.Store.Ops.{remove_channel, nil_pointer, not_tracked}

-- A routine that waits for a message: the channel ID and the message.
pub data Wait : Type 0 where
  create_wait : ℕ → ℕ → Wait
  funds_wait : ℕ → ℕ → Wait

-- What StateWaitMsg returns: the exit code, and the address in the decoded return value.
pub record Receipt : Type 0 where
  pub exit_code : ℕ
  pub robust_address : Result ℕ

-- The accessor's state, after a step.
pub record Sys : Type 0 where
  pub store : Store
  pub waiting : List Wait

unfoldable pub remove_at : ℕ → List Wait → List Wait
remove_at i [] = []
remove_at zero (w ∷ ws) = ws
remove_at (suc i) (w ∷ ws) = w ∷ remove_at i ws

abbrev pub confirm_create : ℕ → ChannelInfo → ChannelInfo
confirm_create address ci = record ci {
  channel = some address;
  amount = ci.pending_amount;
  pending_amount = pos 0;
  create_msg = none;
}

abbrev pub pend_funds : ℤ → ℕ → ChannelInfo → ChannelInfo
pend_funds amt mcid ci = record ci { pending_amount = amt; add_funds_msg = some mcid }

abbrev pub drop_funds : ChannelInfo → ChannelInfo
drop_funds ci = record ci { pending_amount = pos 0; add_funds_msg = none }

abbrev pub confirm_funds : ChannelInfo → ChannelInfo
confirm_funds ci = record ci {
  amount = ci.amount +ℤ ci.pending_amount;
  pending_amount = pos 0;
  add_funds_msg = none;
}

module _ (disk : Disk) where
  unfoldable pub mutate_channel_info : Store → ℕ → (ChannelInfo → ChannelInfo) → Store
  mutate_channel_info st id mutate = elim (by_channel_id disk st id) [
    | errored e ↦ st
    | untracked ↦ st
    | tracked ci ↦ (put_channel_info disk st (mutate ci)).0
  ]

  -- `none` is no error.
  unfoldable pub wait_paych_create_msg : Store → ℕ → Result Receipt → Store × Option String
  unfolding mutate_channel_info
  wait_paych_create_msg st id (err e) = (st, some e)
  wait_paych_create_msg st id (ok receipt) =
      if receipt.exit_code == 0
      then elim receipt.robust_address [
        | err e ↦ (st, some e)
        | ok address ↦ (mutate_channel_info st id (confirm_create address), none)
      ]
      else (
        (remove_channel disk st id).0,
        some ("payment channel creation failed (exit code " +++ show_ℕ receipt.exit_code +++ ")"),
      )

  unfoldable pub wait_add_funds_msg : Store → ℕ → Result Receipt → Store × Option String
  unfolding mutate_channel_info
  wait_add_funds_msg st id (err e) = (st, some e)
  wait_add_funds_msg st id (ok receipt) =
      if receipt.exit_code == 0 then (mutate_channel_info st id confirm_funds, none) else (
        mutate_channel_info st id drop_funds,
        some (
            "voucher channel creation failed: adding funds (exit code "
            +++ show_ℕ receipt.exit_code
            +++ ")"),
      )

  -- A result that cannot be stored is only logged. The listeners are those of msg_promise; the queue that
  -- is processed again comes back with a task of its own.
  unfoldable pub msg_wait_complete : Store → ℕ → Option String → Store
  msg_wait_complete st mcid error = (save_message_result disk st mcid error).0

  -- The whole of a routine, once the chain answers.
  unfoldable pub complete_wait : Store → Wait → Result Receipt → Store
  unfolding wait_paych_create_msg wait_add_funds_msg msg_wait_complete
  complete_wait st (create_wait id mcid) answer =
      let (st', error) = wait_paych_create_msg st id answer in msg_wait_complete st' mcid error
  complete_wait st (funds_wait id mcid) answer =
      let (st', error) = wait_add_funds_msg st id answer in msg_wait_complete st' mcid error

  -- The i-th of the routines that wait ends with this answer.
  unfoldable pub deliver : Sys → ℕ → Result Receipt → Sys
  unfolding complete_wait remove_at
  deliver sys i answer = elim (get_elem? sys.waiting i) [
    | none ↦ sys
    | some w ↦ record {
      store = complete_wait sys.store w answer;
      waiting = remove_at i sys.waiting;
    }
  ]

module _ (disk : Disk) (api : Api) where
  -- The message and the channel ID, for the routine that waits.
  unfoldable pub create : Store → ℕ → ℕ → ℤ → Store × Result (ℕ × ℕ)
  create st from to amt = elim (create_message api from to amt) [
    | err e ↦ (st, err nil_pointer)
    | ok msg ↦ elim ((mpool_push api msg).1) [
      | err e ↦ (st, err e)
      | ok smsg ↦
          let (st', created) = create_channel disk st from to (api.signed_cid smsg) amt in
          elim created [
            | err e ↦ (st', err ("Unable to create channel in store: " +++ e))
            | ok ci ↦ (st', ok (api.signed_cid smsg, ci.channel_id))
          ]
    ]
  ]

  unfoldable pub add_funds : Store → ChannelInfo → ℤ → Store × Result ℕ
  unfolding mutate_channel_info
  add_funds st ci amt = elim ci.channel [
    | none ↦ (st, err nil_pointer)
    | some address ↦ elim ((mpool_push api (funds_message api ci.control address amt)).1) [
      | err e ↦ (st, err e)
      | ok smsg ↦
          let mcid = api.signed_cid smsg in
          let st' = mutate_channel_info disk st ci.channel_id (pend_funds amt mcid) in
          ((save_new_message disk st' ci.channel_id mcid).0, ok mcid)
    ]
  ]

  unfoldable pub create_task : Sys → ℕ → ℕ → ℤ → Sys × Option FundsRes
  unfolding create
  create_task sys from to amt =
      let (st', created) = create sys.store from to amt in
      elim created [
        | err e ↦ (record sys { store = st' }, some (failed_with e))
        | ok (mcid, id) ↦ (
          record { store = st'; waiting = create_wait id mcid ∷ sys.waiting },
          some (record { channel = none; mcid = some mcid; error = none }),
        )
      ]

  unfoldable pub add_task : Sys → ChannelInfo → ℤ → Sys × Option FundsRes
  unfolding add_funds
  add_task sys ci amt =
      let (st', added) = add_funds sys.store ci amt in
      elim added [
        | err e ↦ (record sys { store = st' }, some (failed_with e))
        | ok mcid ↦ (
          record { store = st'; waiting = funds_wait ci.channel_id mcid ∷ sys.waiting },
          some (record { channel = ci.channel; mcid = some mcid; error = none }),
        )
      ]

  unfoldable pub process_task : Sys → ℕ → ℕ → ℤ → Sys × Option FundsRes
  unfolding create_task add_task
  process_task sys from to amt = elim (outbound_active_by_from_to disk sys.store from to) [
    | errored e ↦ (sys, some (failed_with e))
    | untracked ↦ create_task sys from to amt
    | tracked ci ↦ elim ci.create_msg [
      | some _ ↦ (sys, none)
      | none ↦ elim ci.add_funds_msg [ some _ ↦ (sys, none) | none ↦ add_task sys ci amt ]
    ]
  ]

-- What getWaitReady does with a message: it returns, or it waits for the message to complete.
pub data Ready : Type 0 where
  returned : Result ℕ → Ready
  waits : Ready

unfoldable pub ready_address : Found → Result ℕ
ready_address (errored e) = err e
ready_address untracked = err not_tracked
ready_address (tracked ci) = elim ci.channel [ none ↦ err nil_pointer | some a ↦ ok a ]

-- `errorf` is fmt.Errorf of a format alone, which gives back a text without `%`.
module _ (disk : Disk) (errorf : String → String) where
  unfoldable pub get_wait_ready : Store → ℕ → Ready
  unfolding ready_address
  get_wait_ready st mcid = elim (get_message disk st mcid) [
    | err e ↦ returned (err e)
    | ok m ↦
        if ltb 0 (len m.error)
        then returned (err (errorf m.error))
        else if m.received
        then returned (ready_address (by_message_cid disk st mcid))
        else waits
  ]

module _ (disk : Disk) where
  -- What the promise of a waiting caller gets when its message completes.
  unfoldable pub msg_promise : Store → ℕ → Option String → Result ℕ
  unfolding ready_address
  msg_promise st mcid (some e) = err e
  msg_promise st mcid none = ready_address (by_message_cid disk st mcid)
