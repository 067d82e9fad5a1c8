-- ===== src/Payments/Spend/Once.antt =====
-- A voucher is submitted once (payments/channel.go, submitVoucher), and what is spendable afterwards.
use pop.Common.{
  ℕ, ◌≡◌, ◌≢◌, refl, sym, ap, ◌∙◌, arith, Bool, true, false, List, inl, inr, Option-cases,
}
use pop.Common.Result.{Result, ok, err, Result-cases}
use pop.Payments.Voucher.{SignedVoucher}
use pop.Payments.Info as Info
use pop.Payments.Info.{
  VoucherInfo, ChannelInfo, Found, tracked, untracked, errored, has_voucher, was_voucher_submitted,
  info_for_voucher,
}
use pop.Payments.Info.Submit.{mark_voucher_submitted-marks, mark_voucher_submitted-kept}
use pop.Payments.Message.{Message, Api, update_message, mpool_push}
use pop.Payments.Store.{Store, Disk, by_address, put_channel_info, empty_addr}
use pop.Payments.Store.Ops.{mark_voucher_submitted}
use pop.Payments.Store.First.{Readable, Writable, Keyed}
use pop.Payments.Store.Kept.{put-by_address, by_address-settling_at}
use pop.Payments.Spend.{
  submit_voucher, send_voucher, refusal_of, with_new, already_submitted, check_voucher_spendable,
}

module _ (disk : Disk) (equals : SignedVoucher → SignedVoucher → Bool) where
  -- The channel under this address has the voucher as submitted.
  abbrev Done : Store → ℕ → SignedVoucher → Type 0
  Done st ch sv =
      (ci : ChannelInfo) × (by_address disk st ch ≡ tracked ci)
      × (was_voucher_submitted equals ci sv ≡ ok true)

  Done-refusal_of :
      (api : Api) (st : Store) (ch : ℕ) (sv : SignedVoucher) (secret : List ℕ)
      → Done st ch sv
      → submit_voucher disk equals api st ch sv secret ≡ (st, err already_submitted)
  unfolding submit_voucher refusal_of has_voucher was_voucher_submitted
  Done-refusal_of api st ch sv secret (ci, h, d) =
      elim (Option-cases (info_for_voucher equals ci sv)) [
        | inl n ↦ ground (arith, h, n, d)
        | inr (v, n) ↦ ground (arith, h, n, d)
      ]

  Done-unspendable :
      (api : Api) (call : Message → Result ℕ) (to : ℕ) (st : Store) (ch : ℕ) (sv : SignedVoucher)
      (secret : List ℕ)
      → Done st ch sv
      → check_voucher_spendable disk equals api call to st ch sv secret ≡ ok false
  unfolding check_voucher_spendable
  Done-unspendable api call to st ch sv secret (ci, h, d) = ground (arith, h, d)

  with_new-kept :
      (b : Bool) (ci : ChannelInfo) (sv : SignedVoucher)
      → ((with_new b ci sv).channel_id ≡ ci.channel_id)
        × ((with_new b ci sv).channel ≡ ci.channel)
        × ((with_new b ci sv).settling_at ≡ ci.settling_at)
  unfolding with_new
  with_new-kept true ci sv = (refl, refl, refl)
  with_new-kept false ci sv = (refl, refl, refl)

  submit-inv :
      (api : Api) (st st' : Store) (ch cid : ℕ) (sv : SignedVoucher) (secret : List ℕ)
      (ci : ChannelInfo)
      → by_address disk st ch ≡ tracked ci
      → submit_voucher disk equals api st ch sv secret ≡ (st', ok cid)
      → (c : ChannelInfo) × (Info.mark_voucher_submitted equals
            (with_new (has_voucher equals ci sv) ci sv)
            sv
          ≡ ok c)
        × ((put_channel_info disk st c).0 ≡ st')
  unfolding submit_voucher send_voucher mark_voucher_submitted
  submit-inv api st st' ch cid sv secret ci h q = elim (Option-cases (refusal_of equals ci sv)) [
    | inr (e, r) ↦ absurd (ground (arith, h, q, r))
    | inl r ↦ elim (Result-cases (update_message api ci.control ch sv secret)) [
      | inl (e, u) ↦ absurd (ground (arith, h, q, r, u))
      | inr (msg, u) ↦ elim (Result-cases ((mpool_push api msg).1)) [
        | inl (e, p) ↦ absurd (ground (arith, h, q, r, u, p))
        | inr (smsg, p) ↦
            elim (Result-cases
              (Info.mark_voucher_submitted equals (with_new (has_voucher equals ci sv) ci sv) sv)) [
                | inl (e, m) ↦ absurd (ground (arith, h, q, r, u, p, m))
                | inr (c, m) ↦ (c, m, ground (arith, h, q, r, u, p, m))
              ]
      ]
    ]
  ]

  -- A voucher that was submitted is not submitted again, whatever the chain and the wallet say then:
  -- the second call fails and changes nothing, and the voucher is not spendable any more. The
  -- datastore works, and the address is one that a channel can have.
  pub submit_voucher-once :
      (api api' : Api) (call : Message → Result ℕ) (to : ℕ) (st st' : Store) (ch cid : ℕ)
      (sv : SignedVoucher) (secret secret' : List ℕ) (ci : ChannelInfo)
      → Readable disk
      → Writable disk
      → Keyed st
      → ch ≢ empty_addr
      → by_address disk st ch ≡ tracked ci
      → submit_voucher disk equals api st ch sv secret ≡ (st', ok cid)
      → (submit_voucher disk equals api' st' ch sv secret' ≡ (st', err already_submitted))
        × (check_voucher_spendable disk equals api' call to st' ch sv secret' ≡ ok false)
  submit_voucher-once api api' call to st st' ch cid sv secret secret' ci r w k n h q =
      let (c, m, s) = submit-inv api st st' ch cid sv secret ci h q in
      let (i, a, z) =
        mark_voucher_submitted-kept equals (with_new (has_voucher equals ci sv) ci sv) c sv m in
      let (i', a', z') = with_new-kept (has_voucher equals ci sv) ci sv in
      let (at, zero) = by_address-settling_at disk st ch ci r h in
      let (p, k', found) =
        put-by_address disk st ci c ch r w k n h (i ∙ i') (a ∙ a' ∙ at) (z ∙ z' ∙ zero) in
      let done : Done st' ch sv = (
        c,
        ap (λ x. by_address disk x ch) (sym s ∙ ap (λ x. x.0) p) ∙ found,
        (mark_voucher_submitted-marks equals (with_new (has_voucher equals ci sv) ci sv) c sv m).0,
      ) in
      (
        Done-refusal_of api' st' ch sv secret' done,
        Done-unspendable api' call to st' ch sv secret' done,
      )
