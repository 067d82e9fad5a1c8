-- ===== src/Payments/Manager/Best.antt =====
-- bestSpendableByLane of payments/manager.go gives the best voucher of each lane.
use mathlib.Core.Path.{subst}
use pop.Common.{
  ℕ, ◌≡◌, ◌⊎◌, refl, sym, ap, ◌∙◌, arith, Bool, true, false, ◌&&◌, List, [], ◌∷◌, some, ◌==◌,
  if◌then◌else◌, Bool-cases, Option-cases, inl, inr,
}
use pop.Common.Int.{ℤ, ltb_ℤ, ◌≤ℤ◌}
use pop.Common.Assoc.{find, put, find-put}
use pop.Common.Result.{Result, ok, Result-cases}
use pop.Payments.Voucher.{SignedVoucher}
use pop.Payments.Info.{VoucherInfo}
use pop.Payments.Manager.{best_from, is_better}

abbrev pub Has : VoucherInfo → List VoucherInfo → Type 0
Has v [] = false ≡ true
Has v (x ∷ xs) = (v ≡ x) ⊎ Has v xs

module _ (spendable : SignedVoucher → Result Bool) where
  -- A lane's entry that is at least as good.
  abbrev pub Covers : List (ℕ × SignedVoucher) → ℕ → ℤ → Type 0
  Covers best lane amount =
      (sv : SignedVoucher) × (find lane best ≡ some sv) × (amount ≤ℤ sv.amount)

  -- One round of the loop.
  next_best : List (ℕ × SignedVoucher) → SignedVoucher → Bool → List (ℕ × SignedVoucher)
  next_best best sv b = if b && is_better sv (find sv.lane best) then put sv.lane sv best else best

  best_from-cons :
      (best out : List (ℕ × SignedVoucher)) (v : VoucherInfo) (vs : List VoucherInfo)
      → best_from spendable best (v ∷ vs) ≡ ok out
      → (b : Bool) × (spendable v.voucher ≡ ok b)
        × (best_from spendable (next_best best v.voucher b) vs ≡ ok out)
  unfolding best_from next_best
  best_from-cons best out v vs h = elim (Result-cases (spendable v.voucher)) [
    | inl (e, q) ↦ absurd (ground (arith, h, q))
    | inr (b, q) ↦ (
      b,
      q,
      elim (Bool-cases (b && is_better v.voucher (find v.voucher.lane best))) [
        | inl t ↦ rw t (ground (arith, h, q, t))
        | inr t ↦ rw t (ground (arith, h, q, t))
      ],
    )
  ]

  next_best-Covers :
      (best : List (ℕ × SignedVoucher)) (sv : SignedVoucher) (b : Bool) (lane : ℕ) (amount : ℤ)
      → Covers best lane amount
      → Covers (next_best best sv b) lane amount
  unfolding next_best
  next_best-Covers best sv b lane amount (x, h, l) =
      elim (Bool-cases (b && is_better sv (find sv.lane best))) [
        | inr t ↦ rw t (x, h, l)
        | inl t ↦ rw t (elim (Bool-cases (sv.lane == lane)) [
          | inl e ↦
              (sv, ground (arith, find-put lane sv.lane sv best, e), ground (arith, h, l, e, t))
          | inr e ↦ (x, ground (arith, find-put lane sv.lane sv best, e, h), l)
        ])
      ]

  taken-Covers :
      (best : List (ℕ × SignedVoucher)) (sv : SignedVoucher)
      → Covers (next_best best sv true) sv.lane sv.amount
  unfolding next_best
  taken-Covers best sv = elim (Option-cases (find sv.lane best)) [
    | inl n ↦ rw n (sv, ground (arith, find-put sv.lane sv.lane sv best), omega arith)
    | inr (x, n) ↦ elim (Bool-cases (ltb_ℤ x.amount sv.amount)) [
      | inl t ↦ rw (n, t) (sv, ground (arith, find-put sv.lane sv.lane sv best), omega arith)
      | inr t ↦ rw (n, t) (x, n, ground (arith, t))
    ]
  ]

  best_from-Covers :
      (best out : List (ℕ × SignedVoucher)) (vs : List VoucherInfo) (lane : ℕ) (amount : ℤ)
      → best_from spendable best vs ≡ ok out
      → Covers best lane amount
      → Covers out lane amount
  unfolding best_from
  best_from-Covers best out [] lane amount h c =
      subst (λ x. Covers x lane amount) (ground (arith, h)) c
  best_from-Covers best out (v ∷ vs) lane amount h c =
      let (b, q, r) = best_from-cons best out v vs h in
      best_from-Covers (next_best best v.voucher b) out vs lane amount r
        (next_best-Covers best v.voucher b lane amount c)

  spendable-Covers :
      (best out : List (ℕ × SignedVoucher)) (vs : List VoucherInfo) (v : VoucherInfo)
      → best_from spendable best vs ≡ ok out
      → Has v vs
      → spendable v.voucher ≡ ok true
      → Covers out v.voucher.lane v.voucher.amount
  spendable-Covers best out [] v h m s = cc
  spendable-Covers best out (x ∷ vs) v h (inr m) s =
      let (b, q, r) = best_from-cons best out x vs h in
      spendable-Covers (next_best best x.voucher b) out vs v r m s
  spendable-Covers best out (x ∷ vs) v h (inl m) s =
      let (b, q, r) = best_from-cons best out x vs h in
      let t : b ≡ true = ground (arith, q, s, m) in
      best_from-Covers (next_best best x.voucher b) out vs v.voucher.lane v.voucher.amount r (
        subst (λ y. Covers (next_best best x.voucher b) y.voucher.lane y.voucher.amount) (sym m)
          (subst (λ c. Covers (next_best best x.voucher c) x.voucher.lane x.voucher.amount) (sym t)
            (taken-Covers best x.voucher)))

  -- A spendable voucher of the lane, from the list.
  abbrev pub FromList : List VoucherInfo → ℕ → SignedVoucher → Type 0
  FromList whole lane sv =
      (sv.lane ≡ lane)
      × (spendable sv ≡ ok true)
      × ((v : VoucherInfo) × Has v whole × (v.voucher ≡ sv))

  abbrev Entries : List VoucherInfo → List (ℕ × SignedVoucher) → Type 0
  Entries whole best =
      (lane : ℕ) (sv : SignedVoucher) → find lane best ≡ some sv → FromList whole lane sv

  next_best-Entries :
      (whole : List VoucherInfo) (best : List (ℕ × SignedVoucher)) (v : VoucherInfo) (b : Bool)
      → Has v whole
      → spendable v.voucher ≡ ok b
      → Entries whole best
      → Entries whole (next_best best v.voucher b)
  unfolding next_best
  next_best-Entries whole best v false m q f = f
  next_best-Entries whole best v true m q f =
      elim (Bool-cases (is_better v.voucher (find v.voucher.lane best))) [
        | inr t ↦ rw t f
        | inl t ↦ rw t λ lane sv h. elim (Bool-cases (v.voucher.lane == lane)) [
          | inr e ↦ f lane sv (ground (arith, find-put lane v.voucher.lane v.voucher best, e, h))
          | inl e ↦
              let same : v.voucher ≡ sv =
                ground (arith, find-put lane v.voucher.lane v.voucher best, e, h) in
              (
                ap (λ x. x.lane) (sym same) ∙ ground (arith, e),
                ap spendable (sym same) ∙ q,
                (v, m, same),
              )
        ]
      ]

  best_from-Entries :
      (whole : List VoucherInfo) (best out : List (ℕ × SignedVoucher)) (vs : List VoucherInfo)
      → best_from spendable best vs ≡ ok out
      → ((v : VoucherInfo) → Has v vs → Has v whole)
      → Entries whole best
      → Entries whole out
  unfolding best_from
  best_from-Entries whole best out [] h m f = subst (Entries whole) (ground (arith, h)) f
  best_from-Entries whole best out (v ∷ vs) h m f =
      let (b, q, r) = best_from-cons best out v vs h in
      best_from-Entries whole (next_best best v.voucher b) out vs r (λ x k. m x (inr k))
        (next_best-Entries whole best v b (m v (inl refl)) q f)

  -- What bestSpendableByLane finds among the vouchers of a channel: every entry is a spendable voucher
  -- of its lane, from the list, and every spendable voucher has an entry in its lane that is worth at
  -- least as much.
  best_from-lem :
      (vouchers : List VoucherInfo) (out : List (ℕ × SignedVoucher))
      → best_from spendable [] vouchers ≡ ok out
      → ((lane : ℕ) (sv : SignedVoucher) → find lane out ≡ some sv → FromList vouchers lane sv)
        × ((v : VoucherInfo)
            → Has v vouchers
            → spendable v.voucher ≡ ok true
            → Covers out v.voucher.lane v.voucher.amount)
  unfolding find
  best_from-lem vouchers out h = (
    best_from-Entries vouchers [] out vouchers h (λ v m. m) (λ lane sv e. cc),
    λ v m s. spendable-Covers [] out vouchers v h m s,
  )
