-- ===== src/Exchange/Tests/Offers.antt =====
-- The theorems on the offers of a transaction, at workers with two or three offers.
use mathlib.Core.List.{Perm}
use pop.Common.{ℕ, ◌≡◌, ◌↔◌, refl, true, false, List, [], ◌∷◌, ◌++◌, some, length}
use pop.Common.Int.{pos, ◌-ℤ◌}
use pop.Retrieval.Deal.{Offer}
use pop.Exchange.Worker.{
  TxResult, State, offer_back, offer_front, timer, result, goes, panics, unset, executing, received,
  select_first, select_cheapest, start, step, run,
}
use pop.Exchange.Worker.Kept.{taken_in, run-Perm}
use pop.Exchange.Worker.Drained.{run-drained}
use pop.Exchange.Worker.Early.{NothingYet, step-panics_iff}
use pop.Exchange.Worker.Cheapest.{Waits, Least, starts-Least}

abbrev pub offer : ℕ → Offer
offer price = record {
  id = "offer";
  peer_addr = [];
  payload_cid = 5;
  size = 10;
  payment_address = 9;
  min_price_per_byte = pos price;
  max_payment_interval = 100;
  max_payment_interval_increase = 100;
  unseal_price = pos 0;
}

abbrev failure : TxResult
failure = record { error = some "DealStatusErrored"; size = 0; spent = pos 0; pay_ch = 0 }

-- The second offer waits for the first.
abbrev waiting : State
waiting = record {
  q = offer 2 ∷ [];
  exec_done = executing (offer 3);
  delay = false;
  executed = offer 3 ∷ [];
  finished = [];
}

two_offers :
    run select_first (offer_back (offer 3) ∷ offer_back (offer 2) ∷ []) (start select_first)
    ≡ goes waiting
unfolding run start select_first ◌-ℤ◌
two_offers = refl

run-Perm_example :
    Perm
      ((offer 3 ∷ []) ++ (offer 2 ∷ []))
      (taken_in select_first (offer_back (offer 3) ∷ offer_back (offer 2) ∷ []))
run-Perm_example =
    run-Perm select_first (offer_back (offer 3) ∷ offer_back (offer 2) ∷ []) waiting two_offers

abbrev over : List Offer → State
over q = record {
  q = q;
  exec_done = received;
  delay = false;
  executed = offer 3 ∷ [];
  finished = failure ∷ [];
}

one_failure :
    run select_first (offer_back (offer 3) ∷ result (some failure) ∷ []) (start select_first)
    ≡ goes (over [])
unfolding run start select_first ◌-ℤ◌
one_failure = refl

one_later : run select_first (offer_front (offer 2) ∷ []) (over []) ≡ goes (over (offer 2 ∷ []))
unfolding run
one_later = refl

run-drained_example :
    (◌≡◌ {A = ℕ} (length (over []).finished) 1)
    × ((over (offer 2 ∷ [])).executed ≡ (over []).executed)
    × ((over (offer 2 ∷ [])).finished ≡ (over []).finished)
run-drained_example =
    run-drained select_first (offer_back (offer 3) ∷ result (some failure) ∷ [])
      (offer_front (offer 2) ∷ []) (over []) (over (offer 2 ∷ [])) one_failure (λ h. cc) one_later

step-panics_iff_example :
    (step (select_cheapest (pos 3) (pos 1)) timer (start (select_cheapest (pos 3) (pos 1)))
      ≡ panics)
    ↔ ((timer ≡ timer) × NothingYet (start (select_cheapest (pos 3) (pos 1))))
step-panics_iff_example =
    step-panics_iff (select_cheapest (pos 3) (pos 1)) timer
      (start (select_cheapest (pos 3) (pos 1)))

abbrev gathered : State
gathered = record {
  q = offer 3 ∷ offer 2 ∷ [];
  exec_done = unset;
  delay = true;
  executed = [];
  finished = [];
}

abbrev started : State
started = record {
  q = offer 3 ∷ offer 4 ∷ [];
  exec_done = executing (offer 2);
  delay = true;
  executed = offer 2 ∷ [];
  finished = [];
}

third_offer : step (select_cheapest (pos 3) (pos 1)) (offer_back (offer 4)) gathered ≡ goes started
unfolding step select_cheapest ◌-ℤ◌
third_offer = refl

waits : Waits (select_cheapest (pos 3) (pos 1))
unfolding select_cheapest
waits = refl

starts-Least_example : Least (offer 2) (offer 3 ∷ offer 4 ∷ [])
starts-Least_example =
    starts-Least (select_cheapest (pos 3) (pos 1)) (offer_back (offer 4)) gathered started (offer 2)
      waits refl (λ p h. cc) third_offer refl
