-- ===== src/Payments/Manager.antt =====
-- The payment manager of payments/manager.go, on the store and the operations of channels. `Chain`
-- has what the node answers: the actor of a channel, the account key of an address, the exit code of
-- a message that is waited for, and the height of the head.
pub mod Best
pub mod Track
pub mod Epoch
pub mod Access
pub mod Offline
use pop.Common.{
  ℕ, ◌+◌, Bool, true, false, not, ◌&&◌, List, [], ◌∷◌, Option, none, some, ltb, u64, ◌==◌,
  if◌then◌else◌,
}
use pop.Common.Int.{ℤ, pos, ◌-ℤ◌, ltb_ℤ, leb_ℤ}
use pop.Common.Assoc.{find, put}
use pop.Common.Result.{Result, ok, err}
use pop.Common.Text.{String, ◌+++◌, show_ℕ}
use pop.Payments.Voucher.{SignedVoucher}
use pop.Payments.Info.{
  VoucherInfo, ChannelInfo, Direction, outbound, inbound, Found, tracked, untracked, errored,
}
use pop.Payments.Message.{Message, Api}
use pop.Payments.Store.{Store, Disk, by_address, by_message_cid}
use pop.Payments.Store.Ops.{
  vouchers_for_paych, track_channel, list_settling_channels, set_channel_settling_at, nil_pointer,
  not_tracked,
}
use pop.Payments.Lifecycle.{mutate_channel_info, Ready, returned, waits, get_wait_ready}
use pop.Payments.Spend.{submit_voucher, settle, collect, AvailableFunds}

-- The state of a channel's actor, with the indices of its lanes.
pub record ActorInfo : Type 0 where
  pub from : ℕ
  pub to : ℕ
  pub settling_at : ℤ
  pub lane_count : Result ℕ
  pub lane_ids : Result (List ℕ)

pub record Chain : Type 0 where
  pub load_actor_state : ℕ → Result ActorInfo
  pub state_account_key : ℕ → Result ℕ
  pub state_wait_msg : ℕ → Result ℕ
  pub chain_head : Result ℤ

unfoldable pub max_id : List ℕ → ℕ → ℕ
max_id [] best = best
max_id (i ∷ is) best = max_id is (if ltb best i then i else best)

unfoldable pub next_lane_from_state : ActorInfo → Result ℕ
unfolding max_id
next_lane_from_state actor = elim actor.lane_count [
  | err e ↦ err e
  | ok count ↦
      if count == 0
      then ok 0
      else elim actor.lane_ids [ err e ↦ err e | ok ids ↦ ok (u64 (max_id ids 0 + 1)) ]
]

-- The channel as the chain has it; an amount that is not set counts as 0.
abbrev pub from_state : ℕ → Direction → ℕ → ℕ → ℕ → ChannelInfo
from_state ch dir control target lane = record {
  channel_id = 0;
  channel = some ch;
  control = control;
  target = target;
  direction = dir;
  vouchers = [];
  next_lane = lane;
  amount = pos 0;
  pending_amount = pos 0;
  create_msg = none;
  add_funds_msg = none;
  settling = false;
  settling_at = pos 0;
}

abbrev pub oriented : ℕ → Direction → ℕ → ℕ → ℕ → ChannelInfo
oriented ch outbound from to lane = from_state ch outbound from to lane
oriented ch inbound from to lane = from_state ch inbound to from lane

module _ (chain : Chain) where
  unfoldable pub load_state_channel_info : ℕ → Direction → Result ChannelInfo
  unfolding next_lane_from_state
  load_state_channel_info ch dir = elim (chain.load_actor_state ch) [
    | err e ↦ err e
    | ok actor ↦ elim (chain.state_account_key actor.from) [
      | err e ↦ err ("Unable to get account key for From actor state: " +++ e)
      | ok from ↦ elim (chain.state_account_key actor.to) [
        | err e ↦ err ("Unable to get account key for To actor state: " +++ e)
        | ok to ↦ elim (next_lane_from_state actor) [
          | err e ↦ err ("Unable to get next lane from state: " +++ e)
          | ok lane ↦ ok (oriented ch dir from to lane)
        ]
      ]
    ]
  ]

  unfoldable pub track_inbound_channel : Disk → Store → ℕ → Store × Found
  unfolding load_state_channel_info
  track_inbound_channel disk st ch = elim (by_address disk st ch) [
    | tracked ci ↦ (st, tracked ci)
    | errored e ↦ (st, errored e)
    | untracked ↦ elim (load_state_channel_info ch inbound) [
      | err e ↦ (st, errored e)
      | ok ci ↦ track_channel disk st ci
    ]
  ]

abbrev pub is_better : SignedVoucher → Option SignedVoucher → Bool
is_better sv none = true
is_better sv (some best) = ltb_ℤ best.amount sv.amount

-- The loop over the vouchers of a channel, with what checkVoucherSpendable says of each.
unfoldable pub best_from :
    (SignedVoucher → Result Bool)
    → List (ℕ × SignedVoucher)
    → List VoucherInfo
    → Result (List (ℕ × SignedVoucher))
unfolding find put
best_from spendable best [] = ok best
best_from spendable best (v ∷ vs) =
    let kept = best_from spendable best vs in
    let taken = best_from spendable (put v.voucher.lane v.voucher best) vs in
    elim (spendable v.voucher) [
      | err e ↦ err e
      | ok b ↦ if b && is_better v.voucher (find v.voucher.lane best) then taken else kept
    ]

unfoldable pub best_spendable_by_lane :
    Disk → (SignedVoucher → Result Bool) → Store → ℕ → Result (List (ℕ × SignedVoucher))
unfolding best_from
best_spendable_by_lane disk spendable st ch = elim (vouchers_for_paych disk st ch) [
  | err e ↦ err e
  | ok vouchers ↦ best_from spendable [] vouchers
]

-- What a call of SubmitAllVouchers comes to: its group waits for ever if a voucher was not submitted,
-- since the counter is not lowered for it.
pub data Outcome : Type 0 where
  finished hangs : Outcome
  stopped : String → Outcome

module _ (disk : Disk) (equals : SignedVoucher → SignedVoucher → Bool) (api : Api) where
  -- The vouchers that could not be submitted are counted.
  unfoldable pub submit_each : Store → ℕ → List (ℕ × SignedVoucher) → Store × ℕ
  submit_each st ch [] = (st, 0)
  submit_each st ch ((lane, sv) ∷ rest) =
      let (st', submitted) = submit_voucher disk equals api st ch sv [] in
      let (st'', failures) = submit_each st' ch rest in
      elim submitted [ err e ↦ (st'', failures + 1) | ok cid ↦ (st'', failures) ]

  unfoldable pub submit_best : Store → ℕ → Result (List (ℕ × SignedVoucher)) → Store × Outcome
  unfolding submit_each
  submit_best st ch (err e) = (st, stopped e)
  submit_best st ch (ok []) = (st, stopped "no vouchers to redeem")
  submit_best st ch (ok (b ∷ best)) =
      let (st', failures) = submit_each st ch (b ∷ best) in
      (st', if failures == 0 then finished else hangs)

  module _ (chain : Chain) (spendable : Store → SignedVoucher → Result Bool) where
    unfoldable pub submit_all_vouchers : Store → ℕ → Store × Outcome
    unfolding submit_best best_spendable_by_lane
    submit_all_vouchers st ch =
        let (st', found) = track_inbound_channel chain disk st ch in
        elim found [
          | errored e ↦ (st', stopped e)
          | untracked ↦ (st', stopped not_tracked)
          | tracked ci ↦ submit_best st' ch (best_spendable_by_lane disk (spendable st') st' ch)
        ]

    unfoldable pub submit_lane : Store → ℕ → ℕ → Result (List (ℕ × SignedVoucher)) → Store × Outcome
    submit_lane st ch lane (err e) = (st, stopped e)
    submit_lane st ch lane (ok []) = (st, stopped "no vouchers to redeem")
    submit_lane st ch lane (ok (b ∷ best)) = elim (find lane (b ∷ best)) [
      | none ↦ (st, stopped "lane not found")
      | some sv ↦
          let (st', submitted) = submit_voucher disk equals api st ch sv [] in
          elim submitted [
            | err e ↦ (st', stopped e)
            | ok mcid ↦ elim (chain.state_wait_msg mcid) [
              | err e ↦ (st', stopped e)
              | ok code ↦ (
                st',
                if code == 0
                    then finished
                    else stopped ("voucher update execution failed with code " +++ show_ℕ code),
              )
            ]
          ]
    ]

    unfoldable pub submit_voucher_for_lane : Store → ℕ → ℕ → Store × Outcome
    unfolding submit_lane best_spendable_by_lane
    submit_voucher_for_lane st ch lane =
        let (st', found) = track_inbound_channel chain disk st ch in
        elim found [
          | errored e ↦ (st', stopped e)
          | untracked ↦ (st', stopped not_tracked)
          | tracked ci ↦
              submit_lane st' ch lane (best_spendable_by_lane disk (spendable st') st' ch)
        ]
