-- ===== src/Payments/Tests/Manager.antt =====
-- The theorems on the payment manager and on spending, at a channel with two vouchers.
use pop.Common.{ℕ, ◌≡◌, refl, true, false, List, [], ◌∷◌, arith}
use pop.Common.Int.{pos}
use pop.Common.Assoc.{put}
use pop.Common.Result.{Result, ok, err}
use pop.Payments.Info.{
  VoucherInfo, ChannelInfo, Direction, Found, tracked, inbound, has_voucher, was_voucher_submitted,
  find_voucher, info_for_voucher, submit_first, submit_lower,
}
use pop.Payments.Info as Info
use pop.Payments.Store.{
  Store, by_address, put_channel_info, with_id, marshall, unmarshall, find_chan, find_chans,
  collect,
}
use pop.Payments.Store.Ops.{mark_voucher_submitted}
use pop.Payments.Message.{
  Message, update_message, mpool_push, sign_message, after_push, increase_gas, suggested_premium,
}
use pop.Payments.Spend.{
  submit_voucher, send_voucher, refusal_of, with_new, already_submitted, check_voucher_spendable,
}
use pop.Payments.Spend.Once.{submit_voucher-once}
use pop.Payments.Tests.{voucher, equals, held, channel, marked}
use pop.Payments.Tests.Disk.{disk, api}
use pop.Payments.Tests.Store.{store, at_31}

abbrev after : Store
after = record { channels = (1, marked) ∷ []; messages = [] }

abbrev call : Message → Result ℕ
call = λ msg. ok 0

submitted : submit_voucher disk equals api store 31 (voucher 2 210) [] ≡ (after, ok 53)
unfolding submit_voucher send_voucher refusal_of with_new mark_voucher_submitted
    Info.mark_voucher_submitted put_channel_info with_id marshall put has_voucher
    was_voucher_submitted find_voucher info_for_voucher submit_first submit_lower update_message
    mpool_push sign_message after_push increase_gas suggested_premium by_address find_chan
    find_chans collect unmarshall
submitted = refl

submit_voucher-once_example :
    (submit_voucher disk equals api after 31 (voucher 2 210) [] ≡ (after, err already_submitted))
    × (check_voucher_spendable disk equals api call 21 after 31 (voucher 2 210) [] ≡ ok false)
submit_voucher-once_example =
    submit_voucher-once disk equals api api call 21 store after 31 53 (voucher 2 210) [] [] channel
      (refl, λ k. refl) (λ k. refl) ((refl, λ e. absurd (omega (arith, e))), tt)
      (λ e. absurd (omega (arith, e))) at_31 submitted

abbrev vouchers : List VoucherInfo
vouchers = held false (voucher 1 100) ∷ held false (voucher 2 210) ∷ []

abbrev settling : Store
settling = record {
  channels = (1, record channel { settling = true; settling_at = pos 80 }) ∷ [];
  messages = [];
}
