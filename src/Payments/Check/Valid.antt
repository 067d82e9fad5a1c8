-- ===== src/Payments/Check/Valid.antt =====
-- What checkVoucherValidUnlocked of payments/channel.go has established where it accepts.
use pop.Common.{ℕ, ◌≡◌, true, List, ◌==◌}
use mathlib.Core.Path.{subst}
use pop.Common.Int.{ℤ}
use pop.Common.Assoc.{find}
use pop.Common.Result.{ok, wrap}
use pop.Common.Text.{◌+++◌}
use pop.Payments.Voucher.{SignedVoucher}
use pop.Payments.Info.{VoucherInfo}
use pop.Payments.Lanes.{LaneState, LaneStates, lane_state, total_redeemed_with_voucher}
use pop.Payments.Check.{
  accepted, lift, require, bind_elim, accepted_inj, lift_inv, lift-wrap_inv, require_inv,
  ActorState, Services, check_lane, check_balance, is_empty, read_lanes, vouchers_for_lanes,
  check_voucher_valid,
}

-- What a successful check has established.
pub record Checked (s : Services) (ch : ℕ) (sv : SignedVoucher) (lanes : LaneStates) (balance : ℤ)
    : Type 0 where
  pub state : ActorState
  pub chain : List (ℕ × LaneState)
  pub vouchers : List VoucherInfo
  pub actor_lem : s.state_get_actor ch ≡ ok balance
  pub state_lem : s.load_actor_state ch ≡ ok state
  pub chain_lem : state.lanes ≡ ok chain
  pub vouchers_lem : vouchers_for_lanes s ch ≡ ok vouchers
  pub lanes_lem : lane_state chain vouchers ≡ ok lanes
  pub lane_lem : check_lane sv (find sv.lane lanes) ≡ accepted tt
  pub total : ℤ
  pub total_lem : total_redeemed_with_voucher lanes sv ≡ ok total
  pub covered : check_balance balance total ≡ accepted tt
  pub unmerged : is_empty sv.merges ≡ true

module _ (s : Services) (ch : ℕ) (sv : SignedVoucher) (lanes : LaneStates) (balance : ℤ) where
  pub checked :
      check_voucher_valid s ch sv ≡ accepted (lanes, balance) → Checked s ch sv lanes balance
  unfolding check_voucher_valid read_lanes
  checked h =
      bind_elim
        (require (sv.channel_addr == ch) "voucher ChannelAddr doesn't match channel address") h
        λ u _ h1. bind_elim (lift (s.state_get_actor ch)) h1 λ b actor h2.
          bind_elim (lift (wrap (λ e. "loadActorState: " +++ e) (s.load_actor_state ch))) h2
            λ st loaded h3. bind_elim (lift st.from) h3 λ f _ h4.
              bind_elim (lift (s.state_account_key f)) h4 λ from _ h5.
                bind_elim (lift (s.signing_bytes sv)) h5 λ bytes _ h6.
                  bind_elim (lift (s.verify sv from bytes)) h6 λ v _ h7.
                    bind_elim (read_lanes s ch st) h7 λ ls read h8.
                      bind_elim (check_lane sv (find sv.lane ls)) h8 λ w lane h9.
                        bind_elim
                          (lift (
                            wrap (λ e. "totalRedeemedWithVoucher: " +++ e)
                              (total_redeemed_with_voucher ls sv)))
                          h9
                          λ t counted h10. bind_elim (check_balance b t) h10 λ x covered h11.
                            bind_elim
                              (require (is_empty sv.merges)
                                "dont currently support paych lane merges")
                              h11
                              λ y unmerged h12.
                                bind_elim (lift (wrap (λ e. "laneState: " +++ e) st.lanes)) read
                                  λ chain on_chain r1.
                                    bind_elim
                                      (lift
                                        (wrap (λ e. "laneState: " +++ e) (vouchers_for_lanes s ch)))
                                      r1
                                      λ vs stored r2.
                                        subst (λ (p : LaneStates × ℤ). Checked s ch sv p.0 p.1)
                                          (accepted_inj h12)
                                          (record {
                                            state = st;
                                            chain = chain;
                                            vouchers = vs;
                                            actor_lem = lift_inv (s.state_get_actor ch) actor;
                                            state_lem =
                                                lift-wrap_inv (λ e. "loadActorState: " +++ e)
                                                  (s.load_actor_state ch) loaded;
                                            chain_lem =
                                                lift-wrap_inv (λ e. "laneState: " +++ e) st.lanes
                                                  on_chain;
                                            vouchers_lem =
                                                lift-wrap_inv (λ e. "laneState: " +++ e)
                                                  (vouchers_for_lanes s ch) stored;
                                            lanes_lem =
                                                lift-wrap_inv (λ e. "laneState: " +++ e)
                                                  (lane_state chain vs) r2;
                                            lane_lem = lane;
                                            total = t;
                                            total_lem =
                                                lift-wrap_inv
                                                  (λ e. "totalRedeemedWithVoucher: " +++ e)
                                                  (total_redeemed_with_voucher ls sv) counted;
                                            covered = covered;
                                            unmerged =
                                                require_inv (is_empty sv.merges)
                                                  "dont currently support paych lane merges"
                                                  unmerged;
                                          })
