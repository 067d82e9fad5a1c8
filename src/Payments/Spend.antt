-- ===== src/Payments/Spend.antt =====
-- Spending what a channel has, in payments/channel.go: submitVoucher, checkVoucherSpendable, settle,
-- collect and currentAvailableFunds. Each holds the channel's lock for its whole body. The answers of
-- the chain are those of an Api; `call` runs a message on the chain's state and gives its exit code,
-- and `load` reads the actor of a channel.
pub mod Once
use pop.Common.{ℕ, Bool, true, false, List, [], ◌∷◌, ◌++◌, Option, none, some, ◌==◌, if◌then◌else◌}
use pop.Common.Int.{ℤ, pos, ◌+ℤ◌}
use pop.Common.Result.{Result, ok, err}
use pop.Common.Text.{String}
use pop.Payments.Voucher.{SignedVoucher}
use pop.Payments.Info as Info
use pop.Payments.Info.{
  VoucherInfo, ChannelInfo, Found, tracked, untracked, errored, has_voucher, was_voucher_submitted,
}
use pop.Payments.Lanes.{LaneState, LaneStates, lane_state, sum_redeemed}
use pop.Payments.Check.{ActorState}
use pop.Payments.Message.{
  Message, SignedMessage, Api, update_message, settle_message, collect_message, mpool_push,
}
use pop.Payments.Store.{Store, Disk, by_address, by_channel_id, put_channel_info}
use pop.Payments.Store.Ops.{mark_voucher_submitted, not_tracked}

abbrev pub already_submitted : String
already_submitted = "cannot submit voucher that has already been submitted"

-- AvailableFunds, as payments/channel.go reports them.
pub record AvailableFunds : Type 0 where
  pub channel : Option ℕ
  pub from : ℕ
  pub to : ℕ
  pub confirmed_amt : ℤ
  pub pending_amt : ℤ
  pub pending_wait_sentinel : Option ℕ
  pub queued_amt : ℤ
  pub voucher_redeemed_amt : ℤ

-- A voucher that the channel does not have is added to it.
unfoldable pub with_new : Bool → ChannelInfo → SignedVoucher → ChannelInfo
with_new true ci sv = ci
with_new false ci sv = record ci {
  vouchers = ci.vouchers ++ (record { voucher = sv; proof = []; submitted = false } ∷ []);
}

module _ (equals : SignedVoucher → SignedVoucher → Bool) where
  -- Was a voucher that the channel has submitted?
  unfoldable pub refusal_of : ChannelInfo → SignedVoucher → Option String
  refusal_of ci sv =
      if has_voucher equals ci sv
      then elim (was_voucher_submitted equals ci sv) [
        | err e ↦ some e
        | ok submitted ↦ if submitted then some already_submitted else none
      ]
      else none

module _ (disk : Disk) (equals : SignedVoucher → SignedVoucher → Bool) where
  module _ (api : Api) where
    -- The message goes out, and the voucher is marked in the store.
    unfoldable pub send_voucher :
        Store → ℕ → ChannelInfo → SignedVoucher → List ℕ → Store × Result ℕ
    unfolding with_new
    send_voucher st ch ci sv secret = elim (update_message api ci.control ch sv secret) [
      | err e ↦ (st, err e)
      | ok msg ↦ elim ((mpool_push api msg).1) [
        | err e ↦ (st, err e)
        | ok smsg ↦
            let (st', marked) =
              mark_voucher_submitted disk equals st (with_new (has_voucher equals ci sv) ci sv)
                sv in
            elim marked [ err e ↦ (st', err e) | ok _ ↦ (st', ok (api.signed_cid smsg)) ]
      ]
    ]

    unfoldable pub submit_voucher : Store → ℕ → SignedVoucher → List ℕ → Store × Result ℕ
    unfolding send_voucher refusal_of
    submit_voucher st ch sv secret = elim (by_address disk st ch) [
      | errored e ↦ (st, err e)
      | untracked ↦ (st, err not_tracked)
      | tracked ci ↦ elim (refusal_of equals ci sv) [
        | some e ↦ (st, err e)
        | none ↦ send_voucher st ch ci sv secret
      ]
    ]

    -- `to` is the accessor's own address.
    unfoldable pub check_voucher_spendable :
        (Message → Result ℕ) → ℕ → Store → ℕ → SignedVoucher → List ℕ → Result Bool
    check_voucher_spendable call to st ch sv secret = elim (by_address disk st ch) [
      | errored e ↦ err e
      | untracked ↦ err not_tracked
      | tracked ci ↦ elim (was_voucher_submitted equals ci sv) [
        | err e ↦ err e
        | ok true ↦ ok false
        | ok false ↦ elim (update_message api to ch sv secret) [
          | err e ↦ err e
          | ok msg ↦ elim (call msg) [ err e ↦ err e | ok code ↦ ok (code == 0) ]
        ]
      ]
    ]

module _ (disk : Disk) where
  module _ (api : Api) where
    -- A channel that cannot be marked as settling is returned with its error.
    unfoldable pub settle : Store → ℕ → Store × Result ℕ
    settle st ch = elim (by_address disk st ch) [
      | errored e ↦ (st, err e)
      | untracked ↦ (st, err not_tracked)
      | tracked ci ↦ elim ((mpool_push api (settle_message api ci.control ch)).1) [
        | err e ↦ (st, err e)
        | ok smsg ↦
            let (st', stored) = put_channel_info disk st (record ci { settling = true }) in
            elim stored [ err e ↦ (st', err e) | ok _ ↦ (st', ok (api.signed_cid smsg)) ]
      ]
    ]

    unfoldable pub collect : Store → ℕ → Result ℕ
    collect st ch = elim (by_address disk st ch) [
      | errored e ↦ err e
      | untracked ↦ err not_tracked
      | tracked ci ↦ elim ((mpool_push api (collect_message api ci.control ch)).1) [
        | err e ↦ err e
        | ok smsg ↦ ok (api.signed_cid smsg)
      ]
    ]

  -- The lanes of the chain and of the vouchers; a channel that is not tracked has no vouchers.
  unfoldable pub lanes_of : Store → ℕ → ActorState → Result LaneStates
  lanes_of st ch actor = elim actor.lanes [
    | err e ↦ err e
    | ok chain ↦ elim (by_address disk st ch) [
      | errored e ↦ err e
      | untracked ↦ lane_state chain []
      | tracked ci ↦ lane_state chain ci.vouchers
    ]
  ]

  unfoldable pub total_redeemed : (ℕ → Result ActorState) → Store → Option ℕ → Result ℤ
  unfolding lanes_of
  total_redeemed load st none = ok (pos 0)
  total_redeemed load st (some ch) = elim (load ch) [
    | err e ↦ err e
    | ok actor ↦ elim (lanes_of st ch actor) [
      | err e ↦ err e
      | ok lanes ↦ ok (sum_redeemed (pos 0) lanes)
    ]
  ]

  -- An empty channel ID gives no funds and no error.
  unfoldable pub current_available_funds :
      (ℕ → Result ActorState) → Store → ℕ → ℤ → Result (Option AvailableFunds)
  unfolding total_redeemed
  current_available_funds load st id queued =
      if id == 0 then ok none else elim (by_channel_id disk st id) [
        | errored e ↦ err e
        | untracked ↦ err not_tracked
        | tracked ci ↦ elim (total_redeemed load st ci.channel) [
          | err e ↦ err e
          | ok redeemed ↦ ok (
              some (record {
                channel = ci.channel;
                from = Info.from ci;
                to = Info.to ci;
                confirmed_amt = ci.amount;
                pending_amt = ci.pending_amount;
                pending_wait_sentinel = elim ci.create_msg [
                  | none ↦ ci.add_funds_msg
                  | some m ↦ some m
                ];
                queued_amt = queued;
                voucher_redeemed_amt = redeemed;
              }))
        ]
      ]
