-- ===== src/Retrieval/Tests.antt =====
-- The theorems on payment intervals and on the two sides together at concrete deals: a small file at 2 a byte, paid for every 100 bytes.
pub mod Client
pub mod Provider
use pop.Common.{
  ℕ, suc, ◌≡◌, ◌≢◌, refl, ◌↔◌, ◌⊎◌, ◌≤◌, ◌<◌, Bool, true, false, List, [], ◌∷◌, Option, none, some,
  arith,
}
use pop.Common.Int.{ℤ, pos, negsuc, ◌+ℤ◌, ◌*ℤ◌, to_int64, ◌≤ℤ◌, ◌<ℤ◌}
use pop.Common.Result.{Result, ok, err}
use pop.Retrieval.Status.{Status}
use pop.Retrieval.Deal.{
  Params, Proposal, PaymentInfo, ClientState, ProviderState, Payment, DealIdentifier, Offer,
  next_interval, interval_lower_bound, identifier, next_from,
}
use pop.Retrieval.Deal.Schedule.{
  schedule, next_interval-schedule, interval_lower_bound-schedule, lower_bound-next_interval,
  next_from_diverges,
}
use pop.Retrieval.Client.Handlers.{calc_amount_to_send, price_of}
use pop.Retrieval.Client.Price.{Terms}
use pop.Retrieval.Revalidator.State.{RevalidatorEnvironment, resume}
use pop.Retrieval.Revalidator.Pay.{Processed, process_payment}
use pop.Retrieval.Provider.Event.{Event, payment_received}
use pop.Retrieval.Client.Event.{payment_sent}
use pop.Retrieval.Client.Action.{action}
use pop.Retrieval.Provider.Machine.{action as provider_action}
use pop.Retrieval.Lockstep.{Level, lockstep_resumes, lockstep_advances}

abbrev pub terms : Params
terms = record {
  selector = none;
  piece_cid = none;
  price_per_byte = pos 2;
  payment_interval = 100;
  payment_interval_increase = 10;
  unseal_price = pos 5;
}

abbrev pub proposal : Proposal
proposal = record { payload_cid = 7; id = 1; params = terms }

-- The client has 120 bytes and owes the first interval.
abbrev pub client : ClientState
client = record {
  proposal = proposal;
  store_id = none;
  channel_id = 9;
  last_payment_requested = false;
  all_blocks_received = false;
  total_funds = pos 1000;
  client_wallet = 21;
  miner_wallet = 22;
  payment_info = some (record { pay_ch = 31; lane = 0 });
  status = Status.send_funds;
  sender = 41;
  total_received = 120;
  message = "";
  bytes_paid_for = 0;
  current_interval = 100;
  payment_requested = pos 200;
  funds_spent = pos 5;
  unseal_funds_paid = pos 5;
  wait_msg_cid = none;
  voucher_shortfall = pos 0;
}

abbrev pub provider : ProviderState
provider = record {
  proposal = proposal;
  store_id = 0;
  channel_id = 9;
  status = Status.funds_needed;
  receiver = 42;
  total_sent = 120;
  funds_received = pos 5;
  message = "";
  current_interval = 100;
  pay_ch = some 31;
}

abbrev pub payment : Payment
payment = record { id = 1; payment_channel = 31; payment_voucher = none }

-- A store that has the deal, a machine that takes every event and vouchers of 200.
abbrev pub services : RevalidatorEnvironment
services = record {
  get = λ _. ok provider;
  send_event = λ _ _. none;
  add_voucher_inbound = λ _ _ _. ok (pos 200);
}

client-Terms : Terms client 2 5
client-Terms = record { price = refl; unseal = refl; small = omega arith }

level : Level client provider 2 5
level = record {
  terms = client-Terms;
  params = refl;
  interval = refl;
  fits = record { positive = omega arith; room = omega arith };
  positive = omega arith;
  reached = omega arith;
  unsealed = refl;
  waiting = refl;
}

amount_due : pos 5 +ℤ pos 200 ≡ calc_amount_to_send client
unfolding calc_amount_to_send ◌+ℤ◌ price_of ◌*ℤ◌ to_int64
amount_due = refl

lockstep_resumes_example :
    (r : Processed) × (process_payment services (identifier provider) payment ≡ some r)
    × (r.error ≡ resume)
    × (r.sent ≡ some (Event.payment_received (pos 200) 31))
lockstep_resumes_example =
    lockstep_resumes services client provider 2 5 (identifier provider) payment (pos 200) level refl
      refl amount_due

lockstep_advances_example :
    (d' : ClientState) × (q' : ProviderState) × (action
        (payment_sent (calc_amount_to_send client))
        client
      ≡ some d')
    × (provider_action (payment_received (pos 200) 31) provider ≡ some q')
    × (d'.current_interval ≡ q'.current_interval)
    × (client.current_interval < d'.current_interval)
lockstep_advances_example = lockstep_advances client provider 2 5 (pos 200) 31 level (omega arith)

next_interval-schedule_example :
    (n : ℕ) × (next_interval terms 150 ≡ some (schedule terms (suc n)))
    × (schedule terms n ≤ 150)
    × (150 < schedule terms (suc n))
next_interval-schedule_example =
    next_interval-schedule terms 150 (record { positive = omega arith; room = omega arith })

next_from_diverges_example : next_from 50 0 7 0 0 ≡ none
next_from_diverges_example = next_from_diverges 50 7
