-- ===== src/Retrieval/Tests/Provider.antt =====
-- The theorems on the provider, the validation of requests and the table of tracked channels.
use pop.Common.{ℕ, ◌==◌, if◌then◌else◌, arith, ◌≡◌, refl, false, [], ◌∷◌, none, some}
use pop.Common.Int.{pos}
use pop.Common.Result.{ok}
use pop.Retrieval.Status.{Status}
use pop.Retrieval.Deal.{ProviderState, Offer, bytes_equal}
use pop.Retrieval.Validation.{
  ValidationEnvironment, Acceptable, validate_pull, validate_pull-tracked,
}
use pop.Retrieval.Revalidator.State.{ChannelData, Tracked, lookup}
use pop.Retrieval.Revalidator.Gate.{Answers, AllGated, checks, on_pull_data_sent-gate}
use pop.Retrieval.Tests.{proposal, provider, services}

abbrev fresh : ProviderState
fresh = record provider { status = Status.new }

abbrev ongoing : ProviderState
ongoing = record fresh { status = Status.ongoing }

abbrev completing : ProviderState
completing = record provider { status = Status.completing }

abbrev offer : Offer
offer = record {
  id = "offer";
  peer_addr = [];
  payload_cid = 7;
  size = 500;
  payment_address = 50;
  min_price_per_byte = pos 2;
  max_payment_interval = 100;
  max_payment_interval_increase = 10;
  unseal_price = pos 5;
}

abbrev requests : ValidationEnvironment
requests = record { offer_for = λ _. offer; begin_tracking = λ _. ok tt }

abbrev opened : ProviderState
opened = record {
  proposal = proposal;
  store_id = 0;
  channel_id = 9;
  status = Status.new;
  receiver = 42;
  total_sent = 0;
  funds_received = pos 0;
  message = "";
  current_interval = 100;
  pay_ch = none;
}

opens :
    (validate_pull requests (1 ∷ []) false 9 42 (some proposal) 7 (ok (1 ∷ []))).tracked
    ≡ some opened
unfolding validate_pull bytes_equal
opens = refl

validate_pull-tracked_example : Acceptable offer opened
validate_pull-tracked_example =
    (validate_pull-tracked requests (1 ∷ []) false 9 42 (some proposal) 7 (ok (1 ∷ [])) opened
      opens).0

abbrev channel : ChannelData
channel = record {
  deal_id = record { peer = 42; deal_id = 1 };
  total_sent = 90;
  total_paid_for = 0;
  interval = 100;
  price_per_byte = pos 2;
  reload = false;
}

abbrev table : Tracked
table = (9, channel) ∷ (10, channel) ∷ []

found : lookup 9 table ≡ some channel
unfolding lookup
found = refl

on_pull_data_sent-gate_example :
    (t' : Tracked) × (answers : Answers) × (checks services 9 (5 ∷ 10 ∷ []) table
      ≡ some (t', answers))
    × ((j : ℕ)
        → lookup j t'
          ≡ (if 9 == j then some (record channel { total_sent = 105 }) else lookup j table))
    × AllGated services channel.deal_id (pos 2) 100 90 (5 ∷ 10 ∷ []) answers
on_pull_data_sent-gate_example =
    on_pull_data_sent-gate services 9 (5 ∷ 10 ∷ []) table channel found refl (omega arith)
