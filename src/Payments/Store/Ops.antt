-- ===== src/Payments/Store/Ops.antt =====
-- The operations of payments/store.go on one channel, on lanes and on lists of channels. A panic on
-- a nil address is written as an error.
use pop.Common.{
  ℕ, ◌+◌, Bool, true, false, List, [], ◌∷◌, Option, none, some, u64, ◌==◌, if◌then◌else◌,
}
use pop.Common.Int.{ℤ}
use pop.Common.Result.{Result, ok, err}
use pop.Common.Text.{String}
use pop.Payments.Voucher.{SignedVoucher}
use pop.Payments.Info as Info
use pop.Payments.Info.{VoucherInfo, ChannelInfo, Found, tracked, untracked, errored}
use pop.Payments.Store.{Store, Disk, and_then, put_channel_info, find_chans, by_address}

abbrev pub not_tracked : String
not_tracked = "channel not tracked"

abbrev pub nil_pointer : String
nil_pointer = "invalid memory address or nil pointer dereference"

abbrev pub is_some {ℓ} : {A : Type ℓ} → Option A → Bool
is_some none = false
is_some (some a) = true

unfoldable pub delete_key : ℕ → List (ℕ × ChannelInfo) → List (ℕ × ChannelInfo)
delete_key k [] = []
delete_key k ((j, c) ∷ m) = let rest = delete_key k m in if j == k then rest else (j, c) ∷ rest

unfoldable pub addresses : List ChannelInfo → List ℕ
addresses [] = []
addresses (ci ∷ cis) = elim ci.channel [ none ↦ addresses cis | some a ↦ a ∷ addresses cis ]

module _ (disk : Disk) where
  unfoldable pub vouchers_for_paych : Store → ℕ → Result (List VoucherInfo)
  vouchers_for_paych st ch = elim (by_address disk st ch) [
    | tracked ci ↦ ok ci.vouchers
    | untracked ↦ err not_tracked
    | errored e ↦ err e
  ]

  unfoldable pub allocate_lane : Store → ℕ → Store × Result ℕ
  allocate_lane st ch = elim (by_address disk st ch) [
    | errored e ↦ (st, err e)
    | untracked ↦ (st, err not_tracked)
    | tracked ci ↦
        and_then (put_channel_info disk st (record ci { next_lane = u64 (ci.next_lane + 1) }))
          λ st' _. (st', ok ci.next_lane)
  ]

  -- The channel is read again after it is stored.
  unfoldable pub track_channel : Store → ChannelInfo → Store × Found
  track_channel st ci = elim ci.channel [
    | none ↦ (st, errored nil_pointer)
    | some a ↦ elim (by_address disk st a) [
      | errored e ↦ (st, errored e)
      | tracked _ ↦ (st, errored "already tracking channel")
      | untracked ↦
          let (st', stored) = put_channel_info disk st ci in
          elim stored [ err e ↦ (st', errored e) | ok _ ↦ (st', by_address disk st' a) ]
    ]
  ]

  unfoldable pub list_channels : Store → Result (List ℕ)
  unfolding addresses
  list_channels st = elim (find_chans disk st (λ ci. is_some ci.channel) 0) [
    | err e ↦ err e
    | ok cis ↦ ok (addresses cis)
  ]

  unfoldable pub list_settling_channels : Store → Result (List ChannelInfo)
  list_settling_channels st = find_chans disk st (λ ci. ci.settling) 0

  unfoldable pub mark_voucher_submitted :
      (SignedVoucher → SignedVoucher → Bool)
      → Store
      → ChannelInfo
      → SignedVoucher
      → Store × Result ChannelInfo
  mark_voucher_submitted equals st ci sv = elim (Info.mark_voucher_submitted equals ci sv) [
    | err e ↦ (st, err e)
    | ok ci' ↦ put_channel_info disk st ci'
  ]

  unfoldable pub set_channel_settling_at : Store → ChannelInfo → ℤ → Store × Result ChannelInfo
  set_channel_settling_at st ci ep = put_channel_info disk st (record ci { settling_at = ep })

  unfoldable pub remove_channel : Store → ℕ → Store × Result (Unit {0})
  unfolding delete_key
  remove_channel st id = elim (disk.delete_error id) [
    | some e ↦ (st, err e)
    | none ↦ (record st { channels = delete_key id st.channels }, ok tt)
  ]
