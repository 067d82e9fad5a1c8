-- ===== src/Retrieval/Client/Price.antt =====
-- What the client sends for the data it holds: calcAmountToSend of retrieval/client/fsm.go.
use pop.Common.{ℕ, ◌+◌, ◌*◌, ◌≤◌, ◌<◌, ◌≡◌, not, ◌&&◌, ltb, arith, lt→ltb, if◌then◌else◌}
use pop.Common.Int.{ℤ, pos, ◌≤ℤ◌, ◌<ℤ◌, ◌+ℤ◌, to_int64, *ℤ_pos, leb_ℤ}
use pop.Retrieval.Deal.{ClientState}
use pop.Retrieval.Client.Event.{Event}
use pop.Retrieval.Client.Handlers.{
  DealEnvironment, triggers, price_of, calc_amount_to_send, send_funds,
}

pub to_int64_small : (n : ℕ) → n < 9223372036854775808 → to_int64 n ≡ pos n
unfolding to_int64
to_int64_small n h = rw (lt→ltb _ _ h)

pos_sum : (a b : ℕ) → pos a +ℤ pos b ≡ pos (a + b)
unfolding ◌+ℤ◌
pos_sum a b = ground arith

-- The terms of a deal with a price p and an unsealing price u that are not negative.
pub record Terms (d : ClientState) (p u : ℕ) : Type 0 where
  pub price : d.price_per_byte ≡ pos p
  pub unseal : d.unseal_price ≡ pos u
  pub small : d.total_received < 9223372036854775808

price_of_lem :
    (d : ClientState) (p u bytes : ℕ)
    → Terms d p u
    → bytes ≤ d.total_received
    → price_of d bytes ≡ pos (bytes * p + u)
unfolding price_of
price_of_lem d p u bytes t h =
    rw (to_int64_small bytes (omega arith), t.price, t.unseal, *ℤ_pos bytes p)
      (pos_sum (bytes * p) u)

-- What the amount is, on every branch: the whole price of the bytes received while the unsealing is
-- unpaid or once all blocks are there, and otherwise nothing below the current interval and the
-- price of exactly that interval from there on.
pub calc_amount_lem :
    (d : ClientState) (p u : ℕ)
    → Terms d p u
    → calc_amount_to_send d ≡ (
        if leb_ℤ d.unseal_price d.unseal_funds_paid && not d.all_blocks_received
        then if ltb d.total_received d.current_interval
          then pos 0
          else pos (d.current_interval * p + u)
        else pos (d.total_received * p + u))
unfolding calc_amount_to_send
calc_amount_lem d p u t =
    ground (arith, price_of_lem d p u d.total_received t, price_of_lem d p u d.current_interval t)

pub times_mono : (a b p : ℕ) → a ≤ b → a * p ≤ b * p
times_mono a b p h = grind arith

-- The client never sends more than the price of the bytes it has received and of the unsealing.
calc_amount-le :
    (d : ClientState) (p u : ℕ)
    → Terms d p u
    → calc_amount_to_send d ≤ℤ pos (d.total_received * p + u)
calc_amount-le d p u t =
    ground (arith, calc_amount_lem d p u t, times_mono d.current_interval d.total_received p)

-- With prices that are not negative and fewer than 2^63 bytes received, a payment that SendFunds
-- announces as sent is above what was spent before and at most the price of the bytes received and
-- of the unsealing.
send_funds-pays :
    (env : DealEnvironment) (d : ClientState) (p u : ℕ) (v : ℤ)
    → Terms d p u
    → send_funds env d ≡ triggers (Event.payment_sent v)
    → (d.funds_spent <ℤ v) × (v ≤ℤ pos (d.total_received * p + u))
unfolding send_funds
send_funds-pays env d p u v t h = ground (arith, calc_amount-le d p u t)
