-- ===== src/Payments/Check/Shortfall.antt =====
-- The shortfalls that the checks of payments/channel.go report.
use pop.Common.{ℕ, inl, inr, Bool, true, false, not, Option, none, some, ltb, ◌==◌, Bool-cases}
use pop.Common.Int.{ℤ, pos, ◌-ℤ◌, ◌<ℤ◌, ltb_ℤ, ltb_ℤ→lt, int_laws}
use pop.Common.Assoc.{find}
use pop.Common.Result.{Result, ok, err, wrap}
use pop.Common.Text.{String, ◌+++◌, show_ℕ}
use pop.Payments.Voucher.{SignedVoucher}
use pop.Payments.Info.{ChannelInfo}
use pop.Payments.Lanes.{LaneState, lane_state, total_redeemed_with_voucher}
use pop.Payments.Check.{
  Answer, accepted, rejected, failed, insufficient, ◌>>=◌, lift, require, ActorState, Services,
  check_lane, check_balance, is_empty, read_lanes, vouchers_for_lanes, check_voucher_valid,
  delta_of, with_voucher, is_added, add_to, exceeds,
}

-- A shortfall that an answer reports is positive.
abbrev pub Positive {ℓ} : {A : Type ℓ} → Answer A → Type 0
Positive (accepted a) = Unit
Positive (rejected (insufficient x)) = pos 0 <ℤ x
Positive (rejected (failed e)) = Unit

bind-Positive :
    {A B : Type 0} (m : Answer A) (f : A → Answer B)
    → Positive m
    → ((a : A) → Positive (f a))
    → Positive (m >>= f)
bind-Positive (accepted a) f h k = k a
bind-Positive (rejected (insufficient x)) f h k = h
bind-Positive (rejected (failed e)) f h k = tt

lift-Positive : {A : Type 0} (r : Result A) → Positive (lift r)
lift-Positive (ok a) = tt
lift-Positive (err e) = tt

require-Positive : (b : Bool) (e : String) → Positive (require b e)
require-Positive true e = tt
require-Positive false e = tt

check_lane-Positive : (sv : SignedVoucher) (o : Option LaneState) → Positive (check_lane sv o)
unfolding check_lane
check_lane-Positive sv none = tt
check_lane-Positive sv (some ls) =
    bind-Positive
      (require (ltb ls.nonce sv.nonce) (
        "nonce "
        +++ show_ℕ sv.nonce
        +++ " too low for lane "
        +++ show_ℕ sv.lane
        +++ " with current nonce "
        +++ show_ℕ ls.nonce))
      _
      (require-Positive (ltb ls.nonce sv.nonce) (
        "nonce "
        +++ show_ℕ sv.nonce
        +++ " too low for lane "
        +++ show_ℕ sv.lane
        +++ " with current nonce "
        +++ show_ℕ ls.nonce))
      λ _.
        require-Positive (ltb_ℤ ls.redeemed sv.amount)
          "voucher amount is lower than amount for voucher with lower nonce"

positive : (a b : ℤ) → a <ℤ b → pos 0 <ℤ b -ℤ a
positive a b h = omega int_laws

check_balance-Positive : (balance total : ℤ) → Positive (check_balance balance total)
unfolding check_balance
check_balance-Positive balance total = elim (Bool-cases (ltb_ℤ balance total)) [
  | inl short ↦ rw short (positive balance total (ltb_ℤ→lt balance total short))
  | inr covers ↦ rw covers tt
]

read_lanes-Positive :
    (s : Services) (ch : ℕ) (state : ActorState) → Positive (read_lanes s ch state)
unfolding read_lanes
read_lanes-Positive s ch state =
    bind-Positive (lift (wrap (λ e. "laneState: " +++ e) state.lanes)) _
      (lift-Positive (wrap (λ e. "laneState: " +++ e) state.lanes))
      λ chain.
        bind-Positive (lift (wrap (λ e. "laneState: " +++ e) (vouchers_for_lanes s ch))) _
          (lift-Positive (wrap (λ e. "laneState: " +++ e) (vouchers_for_lanes s ch)))
          λ vs. lift-Positive (wrap (λ e. "laneState: " +++ e) (lane_state chain vs))

check_voucher_valid-Positive :
    (s : Services) (ch : ℕ) (sv : SignedVoucher) → Positive (check_voucher_valid s ch sv)
unfolding check_voucher_valid
check_voucher_valid-Positive s ch sv =
    bind-Positive
      (require (sv.channel_addr == ch) "voucher ChannelAddr doesn't match channel address") _
      (require-Positive (sv.channel_addr == ch) "voucher ChannelAddr doesn't match channel address")
      λ u. bind-Positive (lift (s.state_get_actor ch)) _ (lift-Positive (s.state_get_actor ch)) λ b.
        bind-Positive (lift (wrap (λ e. "loadActorState: " +++ e) (s.load_actor_state ch))) _
          (lift-Positive (wrap (λ e. "loadActorState: " +++ e) (s.load_actor_state ch)))
          λ st. bind-Positive (lift st.from) _ (lift-Positive st.from) λ f.
            bind-Positive (lift (s.state_account_key f)) _ (lift-Positive (s.state_account_key f))
              λ from.
                bind-Positive (lift (s.signing_bytes sv)) _ (lift-Positive (s.signing_bytes sv))
                  λ bytes.
                    bind-Positive (lift (s.verify sv from bytes)) _
                      (lift-Positive (s.verify sv from bytes))
                      λ v. bind-Positive (read_lanes s ch st) _ (read_lanes-Positive s ch st) λ ls.
                        bind-Positive (check_lane sv (find sv.lane ls)) _
                          (check_lane-Positive sv (find sv.lane ls))
                          λ w.
                            bind-Positive
                              (lift (
                                wrap (λ e. "totalRedeemedWithVoucher: " +++ e)
                                  (total_redeemed_with_voucher ls sv)))
                              _
                              (lift-Positive (
                                wrap (λ e. "totalRedeemedWithVoucher: " +++ e)
                                  (total_redeemed_with_voucher ls sv)))
                              λ t.
                                bind-Positive (check_balance b t) _ (check_balance-Positive b t)
                                  λ x.
                                    bind-Positive
                                      (require (is_empty sv.merges)
                                        "dont currently support paych lane merges")
                                      _
                                      (require-Positive (is_empty sv.merges)
                                        "dont currently support paych lane merges")
                                      λ y. tt

pub add_to-Positive :
    (s : Services) (ch : ℕ) (ci : ChannelInfo) (sv : SignedVoucher) (min_delta : ℤ)
    → Positive (add_to s ch ci sv min_delta)
unfolding add_to
add_to-Positive s ch ci sv min_delta = elim (Bool-cases (is_added s sv ci.vouchers)) [
  | inl old ↦ rw old tt
  | inr fresh ↦ rw fresh (
      bind-Positive (check_voucher_valid s ch sv) _ (check_voucher_valid-Positive s ch sv) λ p.
        bind-Positive
          (require (not (exceeds min_delta (delta_of s sv p.0)))
            "addVoucher: supplied token amount too low")
          _
          (require-Positive (not (exceeds min_delta (delta_of s sv p.0)))
            "addVoucher: supplied token amount too low")
          λ u.
            bind-Positive (lift (s.put_channel_info (with_voucher s ci sv p.1))) _
              (lift-Positive (s.put_channel_info (with_voucher s ci sv p.1))) λ v. tt)
]
