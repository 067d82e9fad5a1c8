-- ===== src/Exchange/Worker.antt =====
-- The offers of a transaction, in exchange/tx.go: the selection strategies and the loop of
-- sessionWorker.Start, one event of its `select` after the other. `executed` has the offers that `exec`
-- was started for, whether or not the user then confirms them, and `finished` the results that Finish
-- was called with. sort.Slice leaves open how offers of one price are ordered, here they keep their
-- order.
pub mod Kept
pub mod Cheapest
pub mod Drained
pub mod Early
use pop.Common.{
  ℕ, Bool, true, false, not, ◌&&◌, List, [], ◌∷◌, ◌++◌, Option, none, some, length, ◌==◌, leb,
  if◌then◌else◌,
}
use pop.Common.Int.{ℤ, pos, negsuc, ltb_ℤ, is_zero, ◌-ℤ◌}
use pop.Common.Text.{String}
use pop.Retrieval.Deal.{Offer}

pub record TxResult : Type 0 where
  pub error : Option String
  pub size : ℕ
  pub spent : ℤ
  pub pay_ch : ℕ

-- A threshold or a ceiling of -1 stands for none.
pub record SessionWorker : Type 0 where
  pub num_threshold : ℤ
  pub time_threshold : ℤ
  pub price_ceiling : ℤ

abbrev pub minus_one : ℤ
minus_one = negsuc 0

unfoldable pub select_first : SessionWorker
select_first = record {
  num_threshold = minus_one;
  time_threshold = minus_one;
  price_ceiling = minus_one;
}

unfoldable pub select_cheapest : ℤ → ℤ → SessionWorker
select_cheapest after t = record {
  num_threshold = after;
  time_threshold = t;
  price_ceiling = minus_one;
}

unfoldable pub select_first_lower_than : ℤ → SessionWorker
select_first_lower_than amount = record {
  num_threshold = minus_one;
  time_threshold = minus_one;
  price_ceiling = amount;
}

-- The variable execDone: nil, a channel to which an execution will send its result, or a channel whose
-- result was received.
pub data ExecDone : Type 0 where
  unset : ExecDone
  executing : Offer → ExecDone
  received : ExecDone

pub record State : Type 0 where
  pub q : List Offer
  pub exec_done : ExecDone
  -- the timer has not fired yet
  pub delay : Bool
  pub executed : List Offer
  pub finished : List TxResult

pub data Event : Type 0 where
  offer_back : Offer → Event
  offer_front : Offer → Event
  timer : Event
  -- the answer of Execute, or `none` where the user denied the offer
  result : Option TxResult → Event
  closing : Event

pub data Turn : Type 0 where
  goes : State → Turn
  closed : List Offer → Turn
  panics : Turn

unfoldable pub insert_offer : Offer → List Offer → List Offer
insert_offer o [] = o ∷ []
insert_offer o (p ∷ q) =
    let later = insert_offer o q in
    if ltb_ℤ p.min_price_per_byte o.min_price_per_byte then p ∷ later else o ∷ p ∷ q

unfoldable pub sort_offers : List Offer → List Offer
unfolding insert_offer
sort_offers [] = []
sort_offers (o ∷ q) = insert_offer o (sort_offers q)

unfoldable pub start : SessionWorker → State
start w = record {
  q = [];
  exec_done = unset;
  delay = not (ltb_ℤ w.time_threshold (pos 0));
  executed = [];
  finished = [];
}

-- What `exec` sends once the user has confirmed or denied the offer.
unfoldable pub exec_result : Option TxResult → TxResult
exec_result (some res) = res
exec_result none = record { error = some "user denied offer"; size = 0; spent = pos 0; pay_ch = 0 }

-- `exec` is started for an offer, which the user may still deny.
unfoldable pub exec : Offer → State → State
exec o s = record s { exec_done = executing o; executed = s.executed ++ (o ∷ []) }

-- `go s.exec(q[0], execDone); q = q[1:]`, where an empty queue has no first offer.
unfoldable pub exec_next : List Offer → State → Turn
unfolding exec
exec_next [] s = panics
exec_next (o ∷ q) s = goes (exec o (record s { q = q }))

abbrev pub is_nil : ExecDone → Bool
is_nil unset = true
is_nil (executing _) = false
is_nil received = false

-- Offers above the ceiling are ignored.
unfoldable pub is_above : SessionWorker → Offer → Bool
is_above w o =
    not (is_zero (w.price_ceiling -ℤ minus_one)) && ltb_ℤ w.price_ceiling o.min_price_per_byte

unfoldable pub reached : SessionWorker → List Offer → Bool
reached w q = is_zero (w.num_threshold -ℤ pos (length q))

unfoldable pub push_back : SessionWorker → Offer → State → Turn
unfolding is_above exec exec_next sort_offers reached
push_back w o s =
    let q = s.q ++ (o ∷ []) in
    if is_above w o
    then goes s
    else if (ltb_ℤ w.num_threshold (pos 0) && ltb_ℤ w.time_threshold (pos 0)) && is_nil s.exec_done
    then goes (exec o s)
    else if not (is_nil s.exec_done)
    then goes (record s { q = q })
    else if reached w q
    then exec_next (sort_offers q) s
    else goes (record s { q = q })

unfoldable pub push_front : Offer → State → Turn
unfolding exec
push_front o s = if is_nil s.exec_done then goes (exec o s) else goes (record s { q = o ∷ s.q })

unfoldable pub on_timer : State → Turn
unfolding exec_next sort_offers
on_timer s =
    let s' = record s { delay = false } in
    if not s.delay
    then goes s
    else if is_nil s.exec_done
    then exec_next (sort_offers s.q) s'
    else goes s'

abbrev pub failed : TxResult → Bool
failed res = elim res.error [ none ↦ false | some _ ↦ true ]

-- The result of the execution that is under way, with this queue. A channel that no execution sends to
-- has nothing to receive.
unfoldable pub take_result : TxResult → ExecDone → List Offer → State → Turn
unfolding exec_next
take_result res unset q s = goes s
take_result res received q s = goes s
take_result res (executing _) [] s =
    goes (record s { exec_done = received; finished = s.finished ++ (res ∷ []) })
take_result res (executing _) (o ∷ q) s =
    let s' = record s { exec_done = received } in
    if failed res
    then exec_next (o ∷ q) s'
    else goes (record s' { finished = s.finished ++ (res ∷ []) })

unfoldable pub on_result : TxResult → State → Turn
unfolding take_result
on_result res s = take_result res s.exec_done s.q s

unfoldable pub step : SessionWorker → Event → State → Turn
unfolding push_back push_front on_timer exec_result on_result
step w (offer_back o) s = push_back w o s
step w (offer_front o) s = push_front o s
step w timer s = on_timer s
step w (result answer) s = on_result (exec_result answer) s
step w closing s = closed s.q

-- The events up to the one that closes the worker, or to a panic.
unfoldable pub run : SessionWorker → List Event → State → Turn
unfolding step
run w [] s = goes s
run w (e ∷ es) s = elim (step w e s) [
  | goes s' ↦ run w es s'
  | closed q ↦ closed q
  | panics ↦ panics
]
