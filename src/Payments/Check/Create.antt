-- ===== src/Payments/Check/Create.antt =====
-- What createVoucher of payments/channel.go returns.
use mathlib.Core.Path.{subst}
use pop.Common.{ℕ, ◌≡◌, refl, ◌⊎◌, inl, inr, List, Option, none, some, arith, sym, ◌∙◌}
use pop.Common.Int.{ℤ, pos, ◌<ℤ◌}
use pop.Common.Result.{wrap}
use pop.Common.Text.{◌+++◌}
use pop.Payments.Voucher.{SignedVoucher, VoucherCreateResult}
use pop.Payments.Info.{ChannelInfo, tracked}
use pop.Payments.Lanes.{next_nonce_for_lane}
use pop.Payments.Check.Solvency.{add_voucher-tracked}
use pop.Payments.Check.{
  Answer, accepted, rejected, failed, insufficient, ◌>>=◌, lift, bind_elim, accepted_inj, Services,
  add_voucher, created, numbered, create_voucher,
}
use pop.Payments.Check.Shortfall.{Positive, add_to-Positive}

-- A voucher that was made and stored, or the funds that are missing for it.
pub record Made (s : Services) (ch : ℕ) (ci : ChannelInfo) (voucher : SignedVoucher)
    (r : VoucherCreateResult) (stored : Option ChannelInfo) : Type 0 where
  pub sv : SignedVoucher
  pub delta : ℤ
  pub is_voucher : r.voucher ≡ some sv
  pub no_shortfall : r.shortfall ≡ pos 0
  pub addressed : sv.channel_addr ≡ ch
  pub same_lane : sv.lane ≡ voucher.lane
  pub same_amount : sv.amount ≡ voucher.amount
  pub numbered_lem : sv.nonce ≡ next_nonce_for_lane ci.vouchers voucher.lane
  pub added : add_voucher s ch sv (pos 0) ≡ accepted (delta, stored)

pub record Short (r : VoucherCreateResult) (stored : Option ChannelInfo) : Type 0 where
  pub no_voucher : r.voucher ≡ none
  pub short : pos 0 <ℤ r.shortfall
  pub nothing_stored : stored ≡ none

created-Short :
    (s : Services) (sv : SignedVoucher) (x : ℤ) (r : VoucherCreateResult)
    (stored : Option ChannelInfo)
    → pos 0 <ℤ x
    → created s sv (rejected (insufficient x)) ≡ accepted (r, stored)
    → Short r stored
unfolding created
created-Short s sv x r stored h e =
    subst (λ (p : VoucherCreateResult × Option ChannelInfo). Short p.0 p.1) (accepted_inj e)
      (record { no_voucher = refl; short = h; nothing_stored = refl })

module _ (s : Services) (ch : ℕ) (ci : ChannelInfo) (voucher : SignedVoucher) where
  created-cases :
      (sig : List ℕ) (r : VoucherCreateResult) (stored : Option ChannelInfo)
      (m : Answer (ℤ × Option ChannelInfo))
      → Positive m
      → add_voucher s ch (record (numbered s ch ci voucher) { signature = sig }) (pos 0) ≡ m
      → created s (record (numbered s ch ci voucher) { signature = sig }) m ≡ accepted (r, stored)
      → Made s ch ci voucher r stored ⊎ Short r stored
  unfolding created
  created-cases sig r stored (accepted (delta, kept)) h e c = inl (
      subst (λ (p : VoucherCreateResult × Option ChannelInfo). Made s ch ci voucher p.0 p.1)
        (accepted_inj c)
        (record {
          sv = record (numbered s ch ci voucher) { signature = sig };
          delta = delta;
          is_voucher = refl;
          no_shortfall = refl;
          addressed = refl;
          same_lane = refl;
          same_amount = refl;
          numbered_lem = refl;
          added = e;
        }))
  created-cases sig r stored (rejected (insufficient x)) h e c =
      inr (created-Short s (record (numbered s ch ci voucher) { signature = sig }) x r stored h c)
  created-cases sig r stored (rejected (failed t)) h e c = cc

  add_voucher-Positive :
      (sv : SignedVoucher) → s.by_address ch ≡ tracked ci → Positive (add_voucher s ch sv (pos 0))
  add_voucher-Positive sv found =
      rw (add_voucher-tracked s ch sv ci (pos 0) found) (add_to-Positive s ch ci sv (pos 0))

  signed : Answer (VoucherCreateResult × Option ChannelInfo)
  signed = do
    bytes ← lift (
        wrap (λ e. "failed to get voucher signing bytes: " +++ e)
          (s.signing_bytes (numbered s ch ci voucher)))
    sig ← lift (wrap (λ e. "failed to sign voucher: " +++ e) (s.sign ci.control bytes))
    created s (record (numbered s ch ci voucher) { signature = sig })
        (add_voucher s ch (record (numbered s ch ci voucher) { signature = sig }) (pos 0))

  create_voucher-signed : s.by_address ch ≡ tracked ci → create_voucher s ch voucher ≡ signed
  unfolding create_voucher signed
  create_voucher-signed found = ground arith

  -- What createVoucher returns without an error for a channel that the store has: either a voucher
  -- for the channel, with the lane and the amount that were asked for and the lane's next nonce,
  -- that addVoucherUnlocked took, or no voucher and a positive shortfall, with nothing stored.
  pub create_voucher-cases :
      (r : VoucherCreateResult) (stored : Option ChannelInfo)
      → s.by_address ch ≡ tracked ci
      → create_voucher s ch voucher ≡ accepted (r, stored)
      → Made s ch ci voucher r stored ⊎ Short r stored
  unfolding signed
  create_voucher-cases r stored found h =
      bind_elim
        (lift (
          wrap (λ e. "failed to get voucher signing bytes: " +++ e)
            (s.signing_bytes (numbered s ch ci voucher))))
        (sym (create_voucher-signed found) ∙ h)
        λ bytes _ h1.
          bind_elim (lift (wrap (λ e. "failed to sign voucher: " +++ e) (s.sign ci.control bytes)))
            h1
            λ sig _ h2.
              created-cases sig r stored
                (add_voucher s ch (record (numbered s ch ci voucher) { signature = sig }) (pos 0))
                (add_voucher-Positive (record (numbered s ch ci voucher) { signature = sig }) found)
                refl h2
