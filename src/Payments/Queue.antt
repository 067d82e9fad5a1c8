-- ===== src/Payments/Queue.antt =====
-- The queue of funds requests of payments/channel.go: filterQueue, the merged request, processTask
-- and processQueue. A request has the number of its promise and is active until it is cancelled; the
-- queue is read and written under the channel's lock.
pub mod Compact
pub mod Answers
use pop.Common.{
  ℕ, zero, suc, Bool, true, false, List, [], ◌∷◌, map, Option, none, some, length, get_elem?,
  if◌then◌else◌,
}
use pop.Common.Int.{ℤ, pos, ◌+ℤ◌, is_zero}
use pop.Common.Result.{Result, ok, err}
use pop.Common.Text.{String}
use pop.Payments.Info.{ChannelInfo, Found, tracked, untracked, errored}

pub record FundsReq : Type 0 where
  pub promise : ℕ
  pub amt : ℤ
  pub active : Bool

-- paychFundsRes: a channel and a message that were given, or an error.
pub record FundsRes : Type 0 where
  pub channel : Option ℕ
  pub mcid : Option ℕ
  pub error : Option String

unfoldable pub set : List FundsReq → ℕ → FundsReq → List FundsReq
set [] i r = []
set (x ∷ xs) zero r = r ∷ xs
set (x ∷ xs) (suc i) r = x ∷ set xs i r

unfoldable pub take : ℕ → List FundsReq → List FundsReq
take zero xs = []
take (suc n) [] = []
take (suc n) (x ∷ xs) = x ∷ take n xs

-- The loop of `filterQueue` from the read index k and the write index i, with n requests to read:
-- it moves the active requests to the front of the same array.
unfoldable pub compact : ℕ → ℕ → ℕ → List FundsReq → ℕ × List FundsReq
unfolding set
compact zero k i queue = (i, queue)
compact (suc n) k i queue = elim (get_elem? queue k) [
  | none ↦ (i, queue)
  | some r ↦
      let kept = compact n (suc k) (suc i) (set queue i r) in
      let dropped = compact n (suc k) i queue in if r.active then kept else dropped
]

-- What lies behind the write index is cut off.
unfoldable pub filter_queue : List FundsReq → List FundsReq
unfolding compact take
filter_queue queue = let (i, compacted) = compact (length queue) 0 0 queue in take i compacted

-- `sum` of the merged request.
unfoldable pub sum_from : ℤ → List FundsReq → ℤ
sum_from total [] = total
sum_from total (r ∷ rs) = sum_from (if r.active then total +ℤ r.amt else total) rs

-- `onComplete` of the merged request: the answers that are sent.
unfoldable pub complete : FundsRes → List FundsReq → List (ℕ × FundsRes)
complete res [] = []
complete res (r ∷ rs) =
    let rest = complete res rs in if r.active then (r.promise, res) ∷ rest else rest

abbrev pub failed_with : String → FundsRes
failed_with e = record { channel = none; mcid = none; error = some e }

-- `create` and `add_funds` send a message to the chain.
pub record Messages : Type 0 where
  pub create : ℤ → Result ℕ
  pub add_funds : ChannelInfo → ℤ → Result ℕ

module _ (messages : Messages) where
  unfoldable pub create_channel : ℤ → FundsRes
  create_channel amt = elim (messages.create amt) [
    | err e ↦ failed_with e
    | ok mcid ↦ record { channel = none; mcid = some mcid; error = none }
  ]

  unfoldable pub add_to_channel : ChannelInfo → ℤ → FundsRes
  add_to_channel ci amt = elim (messages.add_funds ci amt) [
    | err e ↦ failed_with e
    | ok mcid ↦ record { channel = ci.channel; mcid = some mcid; error = none }
  ]

  -- `none` waits for a message that was sent before. `found` is the store's answer for the
  -- channel's two addresses.
  unfoldable pub process_task : Found → ℤ → Option FundsRes
  unfolding create_channel add_to_channel
  process_task (errored e) amt = some (failed_with e)
  process_task untracked amt = some (create_channel amt)
  process_task (tracked ci) amt = elim ci.create_msg [
    | some _ ↦ none
    | none ↦ elim ci.add_funds_msg [ some _ ↦ none | none ↦ some (add_to_channel ci amt) ]
  ]

-- The queue afterwards and the answers sent, given what the task returns for an amount.
unfoldable pub settle_queue : List FundsReq → Option FundsRes → List FundsReq × List (ℕ × FundsRes)
unfolding complete
settle_queue queue none = (queue, [])
settle_queue queue (some res) = ([], complete res queue)

unfoldable pub process_queue :
    (ℤ → Option FundsRes) → List FundsReq → List FundsReq × List (ℕ × FundsRes)
unfolding filter_queue sum_from settle_queue
process_queue task queue =
    let active = filter_queue queue in
    let amt = sum_from (pos 0) active in
    if is_zero amt then (active, []) else settle_queue active (task amt)
