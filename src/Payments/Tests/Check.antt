-- ===== src/Payments/Tests/Check.antt =====
-- The theorems on lanes and on adding vouchers, at a channel of 1000 whose lane 0 has redeemed 210.
use pop.Common.{ℕ, ◌<◌, ◌≡◌, refl, ◌⊎◌, false, List, [], ◌∷◌, some, arith}
use pop.Common.Int.{ℤ, pos, ◌+ℤ◌, ◌-ℤ◌}
use pop.Common.Assoc.{find, put}
use pop.Common.Result.{ok}
use pop.Payments.Voucher.{VoucherCreateResult}
use pop.Payments.Info.{ChannelInfo, Found}
use pop.Payments.Lanes.{
  LaneState, from_voucher, load_lanes, is_ignored, apply_voucher, apply_vouchers, lane_state,
  sum_redeemed, total_redeemed_with_voucher, max_nonce, next_nonce_for_lane,
}
use pop.Payments.Lanes.Total.{redeemed_in, total_redeemed-put}
use pop.Payments.Check.{
  Services, ActorState, accepted, check_lane, check_balance, vouchers_for_lanes, read_lanes,
  check_voucher_valid, is_added, delta_of, with_voucher, add_to, add_voucher, created,
  create_voucher,
}
use pop.Payments.Check.Solvency.{Solvent, add_voucher-Solvent}
use pop.Payments.Check.Create.{Made, Short, create_voucher-cases}
use pop.Payments.Tests.{voucher, equals, held, channel}

abbrev chain : List (ℕ × LaneState)
chain = (0, record { redeemed = pos 50; nonce = 1 }) ∷ []

abbrev actor : ActorState
actor = record { from = ok 5; lanes = ok chain }

abbrev services : Services
services = record {
  state_get_actor = λ _. ok (pos 1000);
  load_actor_state = λ _. ok actor;
  state_account_key = λ _. ok 6;
  signing_bytes = λ _. ok [];
  verify = λ _ _ _. ok tt;
  sign = λ _ _. ok [];
  equals = equals;
  by_address = λ _. Found.tracked channel;
  put_channel_info = λ _. ok tt;
}

abbrev extended : ChannelInfo
extended = record channel {
  vouchers =
      held false (voucher 1 100) ∷ held false (voucher 2 210) ∷ held false (voucher 3 300) ∷ [];
}

adds : add_voucher services 31 (voucher 3 300) (pos 10) ≡ accepted (pos 90, some extended)
unfolding add_voucher add_to is_added check_voucher_valid read_lanes vouchers_for_lanes lane_state
    load_lanes apply_vouchers apply_voucher is_ignored check_lane total_redeemed_with_voucher
    sum_redeemed check_balance delta_of with_voucher find put ◌+ℤ◌ ◌-ℤ◌
adds = refl

add_voucher-Solvent_example :
    (balance : ℤ) × (state : ActorState) × (on_chain : List (ℕ × LaneState))
    × (services.state_get_actor 31 ≡ ok balance)
    × (services.load_actor_state 31 ≡ ok state)
    × (state.lanes ≡ ok on_chain)
    × Solvent on_chain channel extended (voucher 3 300) (pos 10) (pos 90) balance
add_voucher-Solvent_example =
    add_voucher-Solvent services 31 (voucher 3 300) channel extended (pos 10) (pos 90) refl adds

abbrev result : VoucherCreateResult
result = record { voucher = some (voucher 3 300); shortfall = pos 0 }

creates : create_voucher services 31 (voucher 0 300) ≡ accepted (result, some extended)
unfolding create_voucher created add_voucher add_to is_added check_voucher_valid read_lanes
    vouchers_for_lanes lane_state load_lanes apply_vouchers apply_voucher is_ignored check_lane
    total_redeemed_with_voucher sum_redeemed check_balance delta_of with_voucher next_nonce_for_lane
    max_nonce find put ◌+ℤ◌ ◌-ℤ◌
creates = refl

create_voucher-cases_example :
    Made services 31 channel (voucher 0 300) result (some extended) ⊎ Short result (some extended)
create_voucher-cases_example =
    create_voucher-cases services 31 channel (voucher 0 300) result (some extended) refl creates

above_lane : (ls : LaneState) → find 0 chain ≡ some ls → ls.nonce < 3
unfolding find
above_lane ls h = ground arith

total_redeemed-put_example :
    total_redeemed_with_voucher chain (voucher 3 300)
    ≡ ok (redeemed_in (put 0 (from_voucher (voucher 3 300)) chain))
total_redeemed-put_example = total_redeemed-put chain (voucher 3 300) refl above_lane
