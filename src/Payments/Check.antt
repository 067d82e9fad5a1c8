-- ===== src/Payments/Check.antt =====
-- Which vouchers payments/channel.go takes: checkVoucherValidUnlocked, addVoucherUnlocked and
-- createVoucher. The chain, the store and the wallet are parameters. `verify` is the check of a
-- signature, with wallet.SigTypeSig; a merge of lanes is refused everywhere.
pub mod Valid
pub mod Solvency
mod Shortfall
pub mod Create
use pop.Common.{
  ℕ, suc, ◌+◌, ◌≡◌, refl, arith, Bool, true, false, List, [], ◌∷◌, ◌++◌, Option, none, some, leb,
  ltb, ◌==◌, not, ◌||◌, if◌then◌else◌, u64,
}
use pop.Common.Int.{ℤ, pos, ◌-ℤ◌, ltb_ℤ, leb_ℤ}
use pop.Common.Assoc.{find}
use pop.Common.Result.{Result, ok, err, wrap}
use pop.Common.Text.{String, ◌+++◌, show_ℕ}
use pop.Payments.Voucher.{SignedVoucher, VoucherCreateResult}
use pop.Payments.Info.{VoucherInfo, ChannelInfo, Found, tracked, untracked, errored}
use pop.Payments.Lanes.{
  LaneState, LaneStates, lane_state, total_redeemed_with_voucher, next_nonce_for_lane,
}

-- ErrInsufficientFunds with its shortfall, or any other error.
pub data VoucherError : Type 0 where
  insufficient : ℤ → VoucherError
  failed : String → VoucherError

pub data Answer {ℓ} (A : Type ℓ) : Type ℓ where
  accepted : A → Answer A
  rejected : VoucherError → Answer A

infixl 5 ◌>>=◌ ◌>>◌
abbrev pub ◌>>=◌ {κ ℓ} : {B : Type κ} {C : Type ℓ} → Answer B → (B → Answer C) → Answer C
rejected why >>= next = rejected why
accepted x >>= next = next x

abbrev pub ◌>>◌ {ℓ} : {C : Type ℓ} → Answer (Unit {0}) → Answer C → Answer C
step >> after = step >>= λ _. after

abbrev pub lift {ℓ} : {A : Type ℓ} → Result A → Answer A
lift (ok a) = accepted a
lift (err e) = rejected (failed e)

abbrev pub require : Bool → String → Answer (Unit {0})
require true e = accepted tt
require false e = rejected (failed e)

-- Where a chain of answers accepts, each of its parts did.
pub bind_elim {ℓ κ μ} :
    {A : Type ℓ} {B : Type κ} {C : Type μ} (m : Answer A) {f : A → Answer B} {b : B}
    → (m >>= f) ≡ accepted b
    → ((a : A) → m ≡ accepted a → f a ≡ accepted b → C)
    → C
bind_elim (accepted a) h k = k a refl h
bind_elim (rejected e) h k = cc

pub accepted_inj {ℓ} : {A : Type ℓ} {a b : A} → accepted a ≡ accepted b → a ≡ b
accepted_inj h = cc

pub lift_inv {ℓ} : {A : Type ℓ} (r : Result A) {a : A} → lift r ≡ accepted a → r ≡ ok a
lift_inv (ok x) h = ground arith
lift_inv (err e) h = cc

pub lift-wrap_inv {ℓ} :
    {A : Type ℓ} (f : String → String) (r : Result A) {a : A}
    → lift (wrap f r) ≡ accepted a
    → r ≡ ok a
lift-wrap_inv f (ok x) h = ground arith
lift-wrap_inv f (err e) h = cc

pub require_inv : (b : Bool) (e : String) → require b e ≡ accepted tt → b ≡ true
require_inv true e h = refl
require_inv false e h = cc

pub record ActorState : Type 0 where
  pub from : Result ℕ
  pub lanes : Result (List (ℕ × LaneState))

pub record Services : Type 0 where
  pub state_get_actor : ℕ → Result ℤ
  pub load_actor_state : ℕ → Result ActorState
  pub state_account_key : ℕ → Result ℕ
  pub signing_bytes : SignedVoucher → Result (List ℕ)
  pub verify : SignedVoucher → ℕ → List ℕ → Result (Unit {0})
  pub sign : ℕ → List ℕ → Result (List ℕ)
  pub equals : SignedVoucher → SignedVoucher → Bool
  pub by_address : ℕ → Found
  pub put_channel_info : ChannelInfo → Result (Unit {0})

-- The voucher against the state of its lane.
unfoldable pub check_lane : SignedVoucher → Option LaneState → Answer (Unit {0})
check_lane sv none = accepted tt
check_lane sv (some ls) = do
  require (ltb ls.nonce sv.nonce) (
      "nonce "
      +++ show_ℕ sv.nonce
      +++ " too low for lane "
      +++ show_ℕ sv.lane
      +++ " with current nonce "
      +++ show_ℕ ls.nonce)
  require (ltb_ℤ ls.redeemed sv.amount)
      "voucher amount is lower than amount for voucher with lower nonce"

-- The balance must cover the total.
unfoldable pub check_balance : ℤ → ℤ → Answer (Unit {0})
check_balance balance total =
    if ltb_ℤ balance total then rejected (insufficient (total -ℤ balance)) else accepted tt

abbrev pub is_empty {ℓ} : {A : Type ℓ} → List A → Bool
is_empty [] = true
is_empty (x ∷ xs) = false

abbrev pub exceeds : ℤ → ℤ → Bool
exceeds a b = ltb_ℤ b a

module _ (s : Services) where
  -- The vouchers of a channel that is not tracked are none.
  unfoldable pub vouchers_for_lanes : ℕ → Result (List VoucherInfo)
  vouchers_for_lanes ch = elim (s.by_address ch) [
    | tracked ci ↦ ok ci.vouchers
    | untracked ↦ ok []
    | errored e ↦ err e
  ]

  unfoldable pub read_lanes : ℕ → ActorState → Answer LaneStates
  read_lanes ch state = do
    chain ← lift (wrap (λ e. "laneState: " +++ e) state.lanes)
    vouchers ← lift (wrap (λ e. "laneState: " +++ e) (vouchers_for_lanes ch))
    lift (wrap (λ e. "laneState: " +++ e) (lane_state chain vouchers))

  unfoldable pub check_voucher_valid : ℕ → SignedVoucher → Answer (LaneStates × ℤ)
  check_voucher_valid ch sv = do
    require (sv.channel_addr == ch) "voucher ChannelAddr doesn't match channel address"
    balance ← lift (s.state_get_actor ch)
    state ← lift (wrap (λ e. "loadActorState: " +++ e) (s.load_actor_state ch))
    f ← lift state.from
    from ← lift (s.state_account_key f)
    bytes ← lift (s.signing_bytes sv)
    lift (s.verify sv from bytes)
    lanes ← read_lanes ch state
    check_lane sv (find sv.lane lanes)
    total ←
        lift (wrap (λ e. "totalRedeemedWithVoucher: " +++ e) (total_redeemed_with_voucher lanes sv))
    check_balance balance total
    require (is_empty sv.merges) "dont currently support paych lane merges"
    accepted (lanes, balance)

  -- Has the voucher been added before?
  unfoldable pub is_added : SignedVoucher → List VoucherInfo → Bool
  is_added sv [] = false
  is_added sv (v ∷ vs) = s.equals sv v.voucher || is_added sv vs

  unfoldable pub delta_of : SignedVoucher → LaneStates → ℤ
  delta_of sv lanes = elim (find sv.lane lanes) [
    | none ↦ sv.amount -ℤ pos 0
    | some ls ↦ sv.amount -ℤ ls.redeemed
  ]

  unfoldable pub with_voucher : ChannelInfo → SignedVoucher → ℤ → ChannelInfo
  with_voucher ci sv balance = record ci {
    vouchers = ci.vouchers ++ (record { voucher = sv; proof = []; submitted = false } ∷ []);
    next_lane = if leb ci.next_lane sv.lane then u64 (sv.lane + 1) else ci.next_lane;
    amount = if ltb_ℤ ci.amount balance then balance else ci.amount;
  }

  -- The delta and the channel that is written to the store; a voucher that is already there is
  -- ignored.
  unfoldable pub add_to : ℕ → ChannelInfo → SignedVoucher → ℤ → Answer (ℤ × Option ChannelInfo)
  add_to ch ci sv min_delta = if is_added sv ci.vouchers then accepted (pos 0, none) else do
    (lanes, balance) ← check_voucher_valid ch sv
    require (not (exceeds min_delta (delta_of sv lanes)))
        "addVoucher: supplied token amount too low"
    lift (s.put_channel_info (with_voucher ci sv balance))
    accepted (delta_of sv lanes, some (with_voucher ci sv balance))

  unfoldable pub add_voucher : ℕ → SignedVoucher → ℤ → Answer (ℤ × Option ChannelInfo)
  add_voucher ch sv min_delta = elim (s.by_address ch) [
    | tracked ci ↦ add_to ch ci sv min_delta
    | untracked ↦ rejected (failed "looking for channel: channel not tracked")
    | errored e ↦ rejected (failed ("looking for channel: " +++ e))
  ]

  -- The nonce and the signature of a voucher are set here. A voucher that the funds do not cover is
  -- no error: the result has the shortfall.
  unfoldable pub created :
      SignedVoucher
      → Answer (ℤ × Option ChannelInfo)
      → Answer (VoucherCreateResult × Option ChannelInfo)
  created sv (accepted (delta, stored)) =
      accepted (record { voucher = some sv; shortfall = pos 0 }, stored)
  created sv (rejected (insufficient shortfall)) =
      accepted (record { voucher = none; shortfall = shortfall }, none)
  created sv (rejected (failed e)) = rejected (failed ("failed to persist voucher: " +++ e))

  abbrev numbered : ℕ → ChannelInfo → SignedVoucher → SignedVoucher
  numbered ch ci voucher = record voucher {
    channel_addr = ch;
    nonce = next_nonce_for_lane ci.vouchers voucher.lane;
  }

  unfoldable pub create_voucher :
      ℕ → SignedVoucher → Answer (VoucherCreateResult × Option ChannelInfo)
  unfolding created
  create_voucher ch voucher = elim (s.by_address ch) [
    | errored e ↦ rejected (failed ("failed to get channel info by address: " +++ e))
    | untracked ↦ rejected (failed "failed to get channel info by address: channel not tracked")
    | tracked ci ↦ do
      bytes ← lift (
          wrap (λ e. "failed to get voucher signing bytes: " +++ e)
            (s.signing_bytes (numbered ch ci voucher)))
      sig ← lift (wrap (λ e. "failed to sign voucher: " +++ e) (s.sign ci.control bytes))
      created (record (numbered ch ci voucher) { signature = sig })
          (add_voucher ch (record (numbered ch ci voucher) { signature = sig }) (pos 0))
  ]
