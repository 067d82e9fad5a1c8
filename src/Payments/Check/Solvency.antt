-- ===== src/Payments/Check/Solvency.antt =====
-- What a voucher that addVoucherUnlocked takes does to the lanes of its channel.
use pop.Common.{
  ℕ, ◌<◌, ◌≡◌, refl, Bool, true, false, not, ◌&&◌, List, [], ◌∷◌, Option, none, some, ltb, ap,
  if◌then◌else◌, arith, sym, ◌∙◌,
}
use mathlib.Core.Path.{subst₂}
use pop.Common.Int.{ℤ, pos, ◌+ℤ◌, ◌-ℤ◌, ◌≤ℤ◌, ltb_ℤ}
use pop.Common.Assoc.{find, put}
use pop.Common.Result.{ok}
use pop.Payments.Voucher.{SignedVoucher}
use pop.Payments.Info.{ChannelInfo, tracked}
use pop.Payments.Lanes.{
  LaneState, LaneStates, from_voucher, lane_state, apply_voucher, is_ignored, load_lanes,
}
use pop.Payments.Lanes.Total.{redeemed_in, redeemed_before, redeemed_in-put, total_redeemed-put}
use pop.Payments.Lanes.Highest.{apply_vouchers-append}
use pop.Payments.Check.Valid.{Checked, checked}
use pop.Payments.Check.{
  Answer, ◌>>=◌, ◌>>◌, accepted, lift, require, bind_elim, accepted_inj, require_inv, ActorState,
  Services, check_lane, check_balance, is_empty, vouchers_for_lanes, check_voucher_valid, delta_of,
  with_voucher, is_added, add_to, add_voucher, exceeds,
}

-- Is the voucher above what its lane had, in nonce and in amount?
abbrev pub is_raised : SignedVoucher → Option LaneState → Bool
is_raised sv none = true
is_raised sv (some ls) = ltb ls.nonce sv.nonce && ltb_ℤ ls.redeemed sv.amount

check_lane-is_raised :
    (sv : SignedVoucher) (o : Option LaneState)
    → check_lane sv o ≡ accepted tt
    → is_raised sv o ≡ true
unfolding check_lane
check_lane-is_raised sv none h = refl
check_lane-is_raised sv (some ls) h = ground arith

empty_inv : {A : Type 0} (xs : List A) → is_empty xs ≡ true → xs ≡ []
empty_inv [] h = refl
empty_inv (x ∷ xs) h = cc

is_raised-above :
    (sv : SignedVoucher) (o : Option LaneState) (ls : LaneState)
    → is_raised sv o ≡ true
    → o ≡ some ls
    → ls.nonce < sv.nonce
is_raised-above sv o ls h e = ground arith

is_raised-applied :
    (sv : SignedVoucher) (lanes : LaneStates)
    → is_raised sv (find sv.lane lanes) ≡ true
    → apply_voucher sv lanes ≡ put sv.lane (from_voucher sv) lanes
unfolding apply_voucher is_ignored
is_raised-applied sv lanes h = ground arith

check_balance-covered :
    (balance total : ℤ) → check_balance balance total ≡ accepted tt → total ≤ℤ balance
unfolding check_balance
check_balance-covered balance total h = ground arith

delta_of_lem :
    (s : Services) (sv : SignedVoucher) (lanes : LaneStates)
    → delta_of s sv lanes ≡ sv.amount -ℤ redeemed_before (find sv.lane lanes)
unfolding delta_of
delta_of_lem s sv lanes = ground arith

-- The channel after a voucher, against the lanes of the chain and the balance.
pub record Solvent (chain : List (ℕ × LaneState)) (ci ci' : ChannelInfo) (sv : SignedVoucher)
    (min_delta delta balance : ℤ) : Type 0 where
  pub lanes : LaneStates
  pub before : lane_state chain ci.vouchers ≡ ok lanes
  pub raised : is_raised sv (find sv.lane lanes) ≡ true
  pub after : lane_state chain ci'.vouchers ≡ ok (put sv.lane (from_voucher sv) lanes)
  pub grows : redeemed_in (put sv.lane (from_voucher sv) lanes) ≡ redeemed_in lanes +ℤ delta
  pub covered : redeemed_in (put sv.lane (from_voucher sv) lanes) ≤ℤ balance
  pub enough : min_delta ≤ℤ delta

ok_inj : {A : Type 0} {a b : A} → ok a ≡ ok b → a ≡ b
ok_inj h = cc

module _ (s : Services) (ch : ℕ) (sv : SignedVoucher) (ci : ChannelInfo) where
  total_covered :
      (lanes : LaneStates) (balance : ℤ)
      → Checked s ch sv lanes balance
      → redeemed_in (put sv.lane (from_voucher sv) lanes) ≤ℤ balance
  total_covered lanes balance c =
      let raised = check_lane-is_raised sv (find sv.lane lanes) c.lane_lem in
      let same : c.total ≡ redeemed_in (put sv.lane (from_voucher sv) lanes) = ok_inj (
        sym c.total_lem
        ∙ total_redeemed-put lanes sv (empty_inv sv.merges c.unmerged)
            (λ ls e. is_raised-above sv (find sv.lane lanes) ls raised e)) in
      rw same at (check_balance-covered balance c.total c.covered)

  check_voucher_valid-Solvent :
      (lanes : LaneStates) (balance min_delta : ℤ)
      → s.by_address ch ≡ tracked ci
      → (c : Checked s ch sv lanes balance) → min_delta ≤ℤ delta_of s sv lanes
      → Solvent c.chain ci (with_voucher s ci sv balance) sv min_delta (delta_of s sv lanes) balance
  unfolding vouchers_for_lanes lane_state with_voucher
  check_voucher_valid-Solvent lanes balance min_delta found c enough =
      let raised = check_lane-is_raised sv (find sv.lane lanes) c.lane_lem in
      let stored : ci.vouchers ≡ c.vouchers = ground (arith, c.vouchers_lem) in
      let before : lane_state c.chain ci.vouchers ≡ ok lanes = rw stored c.lanes_lem in
      record {
        lanes = lanes;
        before = before;
        raised = raised;
        after =
            apply_vouchers-append ci.vouchers
              (record { voucher = sv; proof = []; submitted = false }) (load_lanes c.chain []) lanes
              before (empty_inv sv.merges c.unmerged)
            ∙ ap ok (is_raised-applied sv lanes raised);
        grows =
            redeemed_in-put sv.lane (from_voucher sv) lanes
            ∙ ap (λ x. redeemed_in lanes +ℤ x) (sym (delta_of_lem s sv lanes));
        covered = total_covered lanes balance c;
        enough = enough;
      }

pub add_voucher-tracked :
    (s : Services) (ch : ℕ) (sv : SignedVoucher) (ci : ChannelInfo) (min_delta : ℤ)
    → s.by_address ch ≡ tracked ci
    → add_voucher s ch sv min_delta ≡ add_to s ch ci sv min_delta
unfolding add_voucher
add_voucher-tracked s ch sv ci min_delta found = ground arith

some_inj : {A : Type 0} {i j : A} → some i ≡ some j → i ≡ j
some_inj e = cc

-- What storing a voucher takes.
add_to_inv :
    (s : Services) (ch : ℕ) (sv : SignedVoucher) (ci ci' : ChannelInfo) (min_delta delta : ℤ)
    → add_to s ch ci sv min_delta ≡ accepted (delta, some ci')
    → (p : LaneStates × ℤ) × (check_voucher_valid s ch sv ≡ accepted p)
      × (min_delta ≤ℤ delta_of s sv p.0)
      × (delta_of s sv p.0 ≡ delta)
      × (with_voucher s ci sv p.1 ≡ ci')
unfolding add_to
add_to_inv s ch sv ci ci' min_delta delta h = go (is_added s sv ci.vouchers) h
  where
    stored : Answer (ℤ × Option ChannelInfo)
    stored = do
      (lanes, balance) ← check_voucher_valid s ch sv
      require (not (exceeds min_delta (delta_of s sv lanes)))
          "addVoucher: supplied token amount too low"
      lift (s.put_channel_info (with_voucher s ci sv balance))
      accepted (delta_of s sv lanes, some (with_voucher s ci sv balance))

    go :
        (b : Bool)
        → (if b then accepted (pos 0, none) else stored) ≡ accepted (delta, some ci')
        → (p : LaneStates × ℤ) × (check_voucher_valid s ch sv ≡ accepted p)
          × (min_delta ≤ℤ delta_of s sv p.0)
          × (delta_of s sv p.0 ≡ delta)
          × (with_voucher s ci sv p.1 ≡ ci')
    go true e = cc
    go false e = bind_elim (check_voucher_valid s ch sv) e λ p valid h1.
        bind_elim
          (require (not (exceeds min_delta (delta_of s sv p.0)))
            "addVoucher: supplied token amount too low")
          h1
          λ u enough h2.
            bind_elim (lift (s.put_channel_info (with_voucher s ci sv p.1))) h2 λ v _ h3.
              let bound =
                require_inv (not (exceeds min_delta (delta_of s sv p.0)))
                  "addVoucher: supplied token amount too low" enough in
              let same = accepted_inj h3 in
              (p, valid, ground arith, ap (λ q. q.0) same, some_inj (ap (λ q. q.1) same))

-- A voucher that addVoucherUnlocked stores in a channel leaves it solvent, against the balance and
-- the lanes that the chain has at that time: nonce and amount are above those of the voucher's
-- lane, the stored vouchers give the old lanes with the voucher's lane replaced by the voucher, the
-- total redeemed grows by exactly the returned delta, which is at least the one asked for, and the
-- total does not exceed the balance.
pub add_voucher-Solvent :
    (s : Services) (ch : ℕ) (sv : SignedVoucher) (ci ci' : ChannelInfo) (min_delta delta : ℤ)
    → s.by_address ch ≡ tracked ci
    → add_voucher s ch sv min_delta ≡ accepted (delta, some ci')
    → (balance : ℤ) × (state : ActorState) × (chain : List (ℕ × LaneState)) × (s.state_get_actor ch
        ≡ ok balance)
      × (s.load_actor_state ch ≡ ok state)
      × (state.lanes ≡ ok chain)
      × Solvent chain ci ci' sv min_delta delta balance
add_voucher-Solvent s ch sv ci ci' min_delta delta found h =
    let (p, valid, enough, same_delta, same_info) =
      add_to_inv s ch sv ci ci' min_delta delta
        (sym (add_voucher-tracked s ch sv ci min_delta found) ∙ h) in
    let c = checked s ch sv p.0 p.1 valid in
    (
      p.1,
      c.state,
      c.chain,
      c.actor_lem,
      c.state_lem,
      c.chain_lem,
      subst₂ (λ d i. Solvent c.chain ci i sv min_delta d p.1) same_delta same_info
          (check_voucher_valid-Solvent s ch sv ci p.0 p.1 min_delta found c enough),
    )
