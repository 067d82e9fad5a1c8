-- ===== src/Payments/Info/Submit.antt =====
-- What marking a voucher as submitted does to the vouchers of a channel (payments/store.go).
use mathlib.Core.Path.{subst, sym, ap, ◌∙◌}
use pop.Common.{
  ◌≡◌, refl, inl, inr, Bool, true, ◌||◌, List, [], ◌∷◌, map, some, arith, Option-cases, Bool-cases,
  not, All,
}
use pop.Common.Result.{ok}
use pop.Payments.Voucher.{SignedVoucher}
use pop.Payments.Info.{
  VoucherInfo, ChannelInfo, find_voucher, info_for_voucher, was_voucher_submitted, submit_first,
  submit_lower, is_superseded, mark_voucher_submitted,
}

submit_lower-vouchers :
    (sv : SignedVoucher) (vs : List VoucherInfo)
    → map (λ v. v.voucher) (submit_lower sv vs) ≡ map (λ v. v.voucher) vs
unfolding submit_lower
submit_lower-vouchers sv [] = refl
submit_lower-vouchers sv (v ∷ vs) = ground (arith, submit_lower-vouchers sv vs)

abbrev pub SupersededSubmitted : SignedVoucher → List VoucherInfo → Type 0
SupersededSubmitted sv = All (λ v. not (is_superseded sv v) || v.submitted ≡ true)

submit_lower-all :
    (sv : SignedVoucher) (vs : List VoucherInfo) → SupersededSubmitted sv (submit_lower sv vs)
unfolding submit_lower
submit_lower-all sv [] = tt
submit_lower-all sv (v ∷ vs) = (ground arith, submit_lower-all sv vs)

module _ (equals : SignedVoucher → SignedVoucher → Bool) where
  submit_first-vouchers :
      (sv : SignedVoucher) (vs : List VoucherInfo)
      → map (λ v. v.voucher) (submit_first equals sv vs) ≡ map (λ v. v.voucher) vs
  unfolding submit_first
  submit_first-vouchers sv [] = refl
  submit_first-vouchers sv (v ∷ vs) = ground (arith, submit_first-vouchers sv vs)

  find-submitted :
      (sv : SignedVoucher) (vs : List VoucherInfo) (v : VoucherInfo)
      → find_voucher equals sv vs ≡ some v
      → (w : VoucherInfo) × (find_voucher equals sv (submit_lower sv (submit_first equals sv vs))
          ≡ some w)
        × (w.submitted ≡ true)
  unfolding find_voucher submit_first submit_lower
  find-submitted sv [] v h = cc
  find-submitted sv (x ∷ vs) v h = elim (Bool-cases (equals sv x.voucher)) [
    | inl hit ↦ (record x { submitted = true }, ground arith, refl)
    | inr miss ↦
        let (w, found, done) = find-submitted sv vs v (ground arith) in (w, ground arith, done)
  ]

  marked : (ci : ChannelInfo) (sv : SignedVoucher) → ChannelInfo
  marked ci sv = record ci { vouchers = submit_lower sv (submit_first equals sv ci.vouchers) }

  result-marked :
      (ci ci' : ChannelInfo) (sv : SignedVoucher)
      → mark_voucher_submitted equals ci sv ≡ ok ci'
      → ((v : VoucherInfo) × (find_voucher equals sv ci.vouchers ≡ some v)) × (ci' ≡ marked ci sv)
  unfolding mark_voucher_submitted info_for_voucher marked
  result-marked ci ci' sv h = elim (Option-cases (find_voucher equals sv ci.vouchers)) [
    | inl none_found ↦ cc
    | inr (v, found) ↦ ((v, found), ground arith)
  ]

  -- Marking a voucher that the channel has as submitted leaves it submitted, and with it every
  -- voucher of lower nonce in its lane; the vouchers themselves, the lanes and the amounts of the
  -- channel stay as they were.
  pub mark_voucher_submitted-marks :
      (ci ci' : ChannelInfo) (sv : SignedVoucher)
      → mark_voucher_submitted equals ci sv ≡ ok ci'
      → (was_voucher_submitted equals ci' sv ≡ ok true)
        × SupersededSubmitted sv ci'.vouchers
        × (map (λ v. v.voucher) ci'.vouchers ≡ map (λ v. v.voucher) ci.vouchers)
        × (ci'.next_lane ≡ ci.next_lane)
        × (ci'.amount ≡ ci.amount)
        × (ci'.pending_amount ≡ ci.pending_amount)
  unfolding was_voucher_submitted info_for_voucher marked
  mark_voucher_submitted-marks ci ci' sv h =
      let ((v, found), same) = result-marked ci ci' sv h in
      let (w, again, done) = find-submitted sv ci.vouchers v found in
      subst
        (λ c.
          (was_voucher_submitted equals c sv ≡ ok true)
          × SupersededSubmitted sv c.vouchers
          × (map (λ v. v.voucher) c.vouchers ≡ map (λ v. v.voucher) ci.vouchers)
          × (c.next_lane ≡ ci.next_lane)
          × (c.amount ≡ ci.amount)
          × (c.pending_amount ≡ ci.pending_amount))
        (sym same)
        (
          ground arith,
          submit_lower-all sv (submit_first equals sv ci.vouchers),
          submit_lower-vouchers sv (submit_first equals sv ci.vouchers)
              ∙ submit_first-vouchers sv ci.vouchers,
          refl,
          refl,
          refl,
        )

  pub mark_voucher_submitted-kept :
      (ci ci' : ChannelInfo) (sv : SignedVoucher)
      → mark_voucher_submitted equals ci sv ≡ ok ci'
      → (ci'.channel_id ≡ ci.channel_id)
        × (ci'.channel ≡ ci.channel)
        × (ci'.settling_at ≡ ci.settling_at)
  unfolding marked
  mark_voucher_submitted-kept ci ci' sv h =
      let (found, same) = result-marked ci ci' sv h in
      (ap (λ c. c.channel_id) same, ap (λ c. c.channel) same, ap (λ c. c.settling_at) same)
