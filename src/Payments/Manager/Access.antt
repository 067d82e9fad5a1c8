-- ===== src/Payments/Manager/Access.antt =====
-- The accessors of payments/manager.go: channelByFromTo with its cache, the ways to an accessor,
-- WaitForChannel and GetChannel. The cache maps the two addresses of a key to an accessor, whose
-- number is its place in the order in which the accessors were made.
pub mod Same
use pop.Common.{
  ℕ, zero, suc, ◌+◌, Bool, true, false, ◌&&◌, List, [], ◌∷◌, ◌++◌, Option, none, some, length, ◌==◌,
  if◌then◌else◌,
}
use pop.Common.Int.{ℤ, ◌-ℤ◌, leb_ℤ}
use pop.Common.Result.{Result, ok, err}
use pop.Common.Text.{String, ◌+++◌}
use pop.Payments.Info.{ChannelInfo, Found, tracked, untracked, errored}
use pop.Payments.Store.{Store, Disk, by_address, by_message_cid, outbound_active_by_from_to}
use pop.Payments.Store.Ops.{not_tracked, nil_pointer}
use pop.Payments.Lifecycle.{Ready, returned, waits, get_wait_ready}
use pop.Payments.Spend.{AvailableFunds}
use pop.Payments.Manager.{Chain, track_inbound_channel}

abbrev pub Cache : Type 0
Cache = List (ℕ × ℕ)

unfoldable pub index_of : ℕ → ℕ → Cache → Option ℕ
index_of from to [] = none
index_of from to ((f, t) ∷ rest) =
    let later : Option ℕ = elim (index_of from to rest) [ none ↦ none | some i ↦ some (suc i) ] in
    if f == from && t == to then some 0 else later

unfoldable pub channel_by_from_to : Cache → ℕ → ℕ → Cache × ℕ
unfolding index_of
channel_by_from_to cache from to = elim (index_of from to cache) [
  | some i ↦ (cache, i)
  | none ↦ (cache ++ ((from, to) ∷ []), length cache)
]

module _ (disk : Disk) where
  unfoldable pub channel_by_address : Cache → Store → ℕ → Cache × Result ℕ
  unfolding channel_by_from_to
  channel_by_address cache st ch = elim (by_address disk st ch) [
    | errored e ↦ (cache, err e)
    | untracked ↦ (cache, err not_tracked)
    | tracked ci ↦ let (cache', i) = channel_by_from_to cache ci.control ci.target in (cache', ok i)
  ]

  -- An inbound channel goes from its target to its control address.
  unfoldable pub inbound_channel : Chain → Cache → Store → ℕ → Store × Cache × Result ℕ
  unfolding channel_by_from_to
  inbound_channel chain cache st ch =
      let (st', found) = track_inbound_channel chain disk st ch in
      elim found [
        | errored e ↦ (st', cache, err e)
        | untracked ↦ (st', cache, err not_tracked)
        | tracked ci ↦
            let (cache', i) = channel_by_from_to cache ci.target ci.control in (st', cache', ok i)
      ]

  -- `errorf` is that of get_wait_ready.
  unfoldable pub wait_for_channel : (String → String) → Store → ℕ → Ready
  wait_for_channel errorf st mcid = elim (by_message_cid disk st mcid) [
    | errored e ↦ returned (err e)
    | untracked ↦ returned (err not_tracked)
    | tracked ci ↦ get_wait_ready disk errorf st mcid
  ]

  -- What GetChannel returns: an address and the message to wait for. `available` is what
  -- availableFunds says of a channel ID, `get` is the accessor's get.
  unfoldable pub get_channel :
      (ℕ → Result AvailableFunds)
      → Result (Option ℕ × Option ℕ)
      → Store
      → ℕ
      → ℕ
      → ℤ
      → Result (Option ℕ × Option ℕ)
  get_channel available get st from to amt =
      let got : Result (Option ℕ × Option ℕ) = elim get [
        | err e ↦ err ("Unable to get or create pay channel from accessor: " +++ e)
        | ok r ↦ ok r
      ] in
      elim (outbound_active_by_from_to disk st from to) [
        | errored e ↦ got
        | untracked ↦ got
        | tracked ci ↦ elim (available ci.channel_id) [
          | err e ↦ err ("unable to get channel available funds: " +++ e)
          | ok funds ↦
              if leb_ℤ amt (funds.confirmed_amt -ℤ funds.voucher_redeemed_amt)
              then elim ci.channel [ none ↦ err nil_pointer | some a ↦ ok (some a, none) ]
              else got
        ]
      ]
