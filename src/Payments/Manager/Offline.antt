-- ===== src/Payments/Manager/Offline.antt =====
-- SubmitAllVouchers of payments/manager.go while the node cannot be reached.
use pop.Common.{ℕ, ◌≡◌, ◌⊎◌, refl, arith, Bool, List, [], ◌∷◌, Option-cases, inl, inr, length}
use pop.Common.Result.{Result, ok, err, Result-cases}
use pop.Common.Text.{String}
use pop.Payments.Voucher.{SignedVoucher}
use pop.Payments.Info.{ChannelInfo, Found, tracked, untracked, errored}
use pop.Payments.Message.{Message, Api, mpool_push, update_message}
use pop.Payments.Store.{Store, Disk, by_address}
use pop.Payments.Store.Ops.{not_tracked}
use pop.Payments.Spend.{submit_voucher, refusal_of, send_voucher}
use pop.Payments.Manager.{
  Chain, hangs, submit_each, submit_best, submit_all_vouchers, track_inbound_channel,
  best_spendable_by_lane,
}

Found-cases :
    (x : Found)
    → ((e : String) × (x ≡ errored e)) ⊎ (x ≡ untracked) ⊎ ((ci : ChannelInfo) × (x ≡ tracked ci))
Found-cases (errored e) = inl (e, refl)
Found-cases untracked = inr (inl refl)
Found-cases (tracked ci) = inr (inr (ci, refl))

module _ (disk : Disk) (equals : SignedVoucher → SignedVoucher → Bool) (api : Api) where
  -- The node does not even estimate the gas of a message.
  abbrev pub IsOffline : Type 0
  IsOffline = (msg : Message) → (e : String) × (api.gas_estimate msg ≡ err e)

  push-err : IsOffline → (msg : Message) → (e : String) × ((mpool_push api msg).1 ≡ err e)
  unfolding mpool_push
  push-err off msg = let (e, h) = off msg in (e, ground (arith, h))

  submit-err :
      IsOffline
      → (st : Store) (ch : ℕ) (sv : SignedVoucher)
      → (e : String) × (submit_voucher disk equals api st ch sv [] ≡ (st, err e))
  unfolding submit_voucher send_voucher
  submit-err off st ch sv = elim (Found-cases (by_address disk st ch)) [
    | inl (e, h) ↦ (e, ground (arith, h))
    | inr (inl h) ↦ (not_tracked, ground (arith, h))
    | inr (inr (ci, h)) ↦ elim (Option-cases (refusal_of equals ci sv)) [
      | inr (e, r) ↦ (e, ground (arith, h, r))
      | inl r ↦ elim (Result-cases (update_message api ci.control ch sv [])) [
        | inl (e, u) ↦ (e, ground (arith, h, r, u))
        | inr (msg, u) ↦ let (e, p) = push-err off msg in (e, ground (arith, h, r, u, p))
      ]
    ]
  ]

  submit_each-err :
      IsOffline
      → (st : Store) (ch : ℕ) (best : List (ℕ × SignedVoucher))
      → submit_each disk equals api st ch best ≡ (st, length best)
  unfolding submit_each
  submit_each-err off st ch [] = refl
  submit_each-err off st ch ((lane, sv) ∷ best) =
      let (e, h) = submit-err off st ch sv in ground (arith, h, submit_each-err off st ch best)

  -- While the node cannot be reached, SubmitAllVouchers changes nothing for a channel that is tracked,
  -- and it never returns as soon as there is one voucher to redeem.
  submit_all_vouchers-hangs :
      (chain : Chain) (spendable : Store → SignedVoucher → Result Bool) (st : Store) (ch : ℕ)
      (ci : ChannelInfo) (b : ℕ × SignedVoucher) (best : List (ℕ × SignedVoucher))
      → IsOffline
      → by_address disk st ch ≡ tracked ci
      → best_spendable_by_lane disk (spendable st) st ch ≡ ok (b ∷ best)
      → submit_all_vouchers disk equals api chain spendable st ch ≡ (st, hangs)
  unfolding submit_all_vouchers submit_best track_inbound_channel
  submit_all_vouchers-hangs chain spendable st ch ci b best off h f =
      ground (arith, h, f, submit_each-err off st ch (b ∷ best))
