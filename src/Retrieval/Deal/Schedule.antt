-- ===== src/Retrieval/Deal/Schedule.antt =====
-- The payment schedule of retrieval/deal/types.go: where the interval loops stop.
use pop.Common.{
  ℕ, zero, suc, ◌+◌, ◌-◌, ◌*◌, ◌≤◌, ◌<◌, ◌≡◌, refl, none, inl, inr, some, arith, ltb, leb, u64,
  Bool-cases, leb→le, leb→lt, ltb→lt, ltb→le, le→leb, lt→ltb,
}
use pop.Retrieval.Deal.{Params, lower_bound_from, next_from, interval_lower_bound, next_interval}

-- The size of the interval after k payments, and the total that k intervals reach.
abbrev pub size_at : Params → ℕ → ℕ
size_at p k = p.payment_interval + k * p.payment_interval_increase

abbrev pub schedule : Params → ℕ → ℕ
schedule p zero = 0
schedule p (suc k) = schedule p k + size_at p k

-- No word of the loops overflows, and an interval is not empty.
pub record Fits (p : Params) (current : ℕ) : Type 0 where
  pub positive : 0 < p.payment_interval
  pub room :
      current + p.payment_interval + (current + 1) * p.payment_interval_increase
      < 18446744073709551616

le-schedule : (p : Params) (k : ℕ) → 0 < p.payment_interval → k ≤ schedule p k
le-schedule p zero h = omega arith
le-schedule p (suc k) h = omega (arith, le-schedule p k h)

size_at-suc : (p : Params) (k : ℕ) → size_at p (suc k) ≡ size_at p k + p.payment_interval_increase
size_at-suc p k = grind arith

mul_mono : (a b c : ℕ) → a ≤ b → a * c ≤ b * c
mul_mono a b c h = grind arith

-- One round of a loop below `current` stays inside the words.
step_fits :
    (p : Params) (current k : ℕ)
    → Fits p current
    → schedule p k ≤ current
    → (u64 (schedule p k + size_at p k) ≡ schedule p (suc k))
      × (u64 (size_at p k + p.payment_interval_increase) ≡ size_at p (suc k))
step_fits p current k f h =
    let small = le-schedule p k f.positive in
    let wide = mul_mono k current p.payment_interval_increase (omega arith) in
    let grown = size_at-suc p k in (omega arith, omega arith)

-- From the k-th total the loop of `NextInterval` runs on to the first total above `current`.
next_from-schedule :
    (p : Params) (current fuel k : ℕ)
    → Fits p current
    → current + 2 ≤ fuel + k
    → schedule p k ≤ current
    → (n : ℕ) × (next_from fuel p.payment_interval_increase current (schedule p k) (size_at p k)
        ≡ some (schedule p (suc n)))
      × (schedule p n ≤ current)
      × (current < schedule p (suc n))
unfolding next_from
next_from-schedule p current zero k f m h = absurd (omega (arith, le-schedule p k f.positive))
next_from-schedule p current (suc zero) k f m h = absurd (omega (arith, le-schedule p k f.positive))
next_from-schedule p current (suc (suc fuel)) k f m h =
    let (total, size) = step_fits p current k f h in
    elim (Bool-cases (leb (schedule p (suc k)) current)) [
      | inl more ↦
          rw (le→leb _ _ h, total, size)
            (next_from-schedule p current (suc fuel) (suc k) f (omega arith) (leb→le _ _ more))
      | inr done ↦ (k, rw (le→leb _ _ h, total, done), h, leb→lt _ _ done)
    ]

lower_bound_from-schedule :
    (p : Params) (current fuel k low : ℕ)
    → Fits p current
    → current + 2 ≤ fuel + k
    → schedule p k < current
    → (n : ℕ) × (lower_bound_from fuel p.payment_interval_increase current low
          (schedule p k)
          (size_at p k)
        ≡ some (schedule p n))
      × (schedule p n < current)
      × (current ≤ schedule p (suc n))
unfolding lower_bound_from
lower_bound_from-schedule p current zero k low f m h =
    absurd (omega (arith, le-schedule p k f.positive))
lower_bound_from-schedule p current (suc zero) k low f m h =
    absurd (omega (arith, le-schedule p k f.positive))
lower_bound_from-schedule p current (suc (suc fuel)) k low f m h =
    let (total, size) = step_fits p current k f (omega arith) in
    elim (Bool-cases (ltb (schedule p (suc k)) current)) [
      | inl more ↦
          rw (lt→ltb _ _ h, total, size)
            (lower_bound_from-schedule p current (suc fuel) (suc k) (schedule p k) f (omega arith)
              (ltb→lt _ _ more))
      | inr done ↦ (k, rw (lt→ltb _ _ h, total, done), h, ltb→le _ _ done)
    ]

size_at_zero : (p : Params) → size_at p 0 ≡ p.payment_interval
size_at_zero p = grind arith

-- With payment intervals that are not empty and no word that overflows, NextInterval returns the
-- first total of the payment schedule above the current interval.
pub next_interval-schedule :
    (p : Params) (current : ℕ)
    → Fits p current
    → (n : ℕ) × (next_interval p current ≡ some (schedule p (suc n)))
      × (schedule p n ≤ current)
      × (current < schedule p (suc n))
unfolding next_interval
next_interval-schedule p current f =
    rw (size_at_zero p) at
      (next_from-schedule p current (current + 3) 0 f (omega arith) (omega arith))

-- With payment intervals that are not empty, no word that overflows and a current interval above 0,
-- IntervalLowerBound returns the last total of the payment schedule below the current interval.
pub interval_lower_bound-schedule :
    (p : Params) (current : ℕ)
    → Fits p current
    → 0 < current
    → (n : ℕ) × (interval_lower_bound p current ≡ some (schedule p n))
      × (schedule p n < current)
      × (current ≤ schedule p (suc n))
unfolding interval_lower_bound
interval_lower_bound-schedule p current f h =
    rw (size_at_zero p) at (lower_bound_from-schedule p current (current + 3) 0 0 f (omega arith) h)

schedule_mono : (p : Params) (a b : ℕ) → a ≤ b → schedule p a ≤ schedule p b
schedule_mono p zero zero h = omega arith
schedule_mono p zero (suc b) h = omega (arith, schedule_mono p zero b (omega arith))
schedule_mono p (suc a) zero h = elim h [ ]
schedule_mono p (suc a) (suc b) h = omega (
  arith,
  schedule_mono p a b (omega arith),
  mul_mono a b p.payment_interval_increase (omega arith),
)

-- The totals split the numbers into intervals, so a number lies in one of them.
unique_interval :
    (p : Params) (c m n : ℕ)
    → schedule p m ≤ c
    → c < schedule p (suc m)
    → schedule p n ≤ c
    → c < schedule p (suc n)
    → m ≡ n
unique_interval p c m n low high low' high' = elim (Bool-cases (ltb m n)) [
  | inl under ↦ absurd (omega (arith, schedule_mono p (suc m) n (ltb→lt _ _ under)))
  | inr over ↦ elim (Bool-cases (ltb n m)) [
    | inl beyond ↦ absurd (omega (arith, schedule_mono p (suc n) m (ltb→lt _ _ beyond)))
    | inr same ↦ omega (arith, ltb→le _ _ over, ltb→le _ _ same)
  ]
]

fits_below : (p : Params) (a b : ℕ) → a ≤ b → Fits p b → Fits p a
fits_below p a b h f =
    let less = mul_mono (a + 1) (b + 1) p.payment_interval_increase (omega arith) in
    record { positive = f.positive; room = omega (arith, f.room) }

-- With payment intervals that are not empty and no word that overflows, the two loops agree: from a
-- current interval that has reached the total n of the schedule and not the next one, NextInterval
-- gives that next total, whose lower bound is the total n.
pub lower_bound-next_interval :
    (p : Params) (current n : ℕ)
    → Fits p (schedule p (suc n))
    → schedule p n ≤ current
    → current < schedule p (suc n)
    → (next_interval p current ≡ some (schedule p (suc n)))
      × (interval_lower_bound p (schedule p (suc n)) ≡ some (schedule p n))
lower_bound-next_interval p current n f low high =
    let fits = fits_below p current (schedule p (suc n)) (omega arith) f in
    let (m, next, reached, above) = next_interval-schedule p current fits in
    let (l, bound, under, upper) =
      interval_lower_bound-schedule p (schedule p (suc n)) f (omega arith) in
    let same =
      unique_interval p (schedule p (suc n) - 1) l n (omega arith) (omega arith) (omega arith)
        (omega (arith, f.positive)) in
    let found = unique_interval p current m n reached above low high in
    (rw found at next, rw same at bound)

-- With an empty interval that never grows, `NextInterval` does not return: no fuel is enough.
pub next_from_diverges : (fuel current : ℕ) → next_from fuel 0 current 0 0 ≡ none
unfolding next_from
next_from_diverges zero current = refl
next_from_diverges (suc fuel) current =
    rw (le→leb 0 current (omega arith)) (next_from_diverges fuel current)
