-- ===== src/Exchange/Tests/Network.antt =====
-- The theorems on peers, replication, routing and queries, at a node with two peers.
use pop.Common.{ℕ, ◌≤◌, ◌<◌, ◌≡◌, refl, arith, true, false, List, [], ◌∷◌, none, some, length, All}
use pop.Common.Int.{pos}
use pop.Common.Result.{ok, err}
use pop.Retrieval.Deal.{Offer, ProviderState}
use pop.Retrieval.Status.{Status}
use pop.Retrieval.Offers.{get_offer_for_cid}
use pop.Retrieval.Validation.{check_deal_params}
use pop.Exchange.Index.{peek_ref, not_found, set_ref}
use pop.Exchange.Peers.{Region, PeerMgr, peers}
use pop.Exchange.Peers.Chosen.{Chosen, peers-le}
use pop.Exchange.Replication.{
  Replication, Request, dispatch, Services, completed, received, transfer_end, is_dispatch,
}
use pop.Exchange.Replication.Handler.{ref_for, handle_request}
use pop.Exchange.Replication.Handler.Stored.{handle_request-idx}
use pop.Exchange.Replication.Dispatch
use pop.Exchange.Replication.Dispatch.{DispatchOptions, timer, confirms}
use pop.Exchange.Replication.Dispatch.Bounds.{timers, dispatch-ends}
use pop.Exchange.Replication.Dispatch.Authorized.{Admitted, sent-Admitted}
use pop.Exchange.Replication.Pump
use pop.Exchange.Replication.Pump.{
  Pump, fetching, hey, result, held, announced, run-announced, fetches-drained,
}
use pop.Exchange.Routing.{
  deliver_message, publish_message, trace, was_published, sender, new_tracer,
}
use pop.Exchange.Routing.Relay.{
  Net, at, knows, Spread, published, delivered, relay, relay-publisher,
}
use pop.Exchange.Query.{Provider, handle_query, params_from, handle_query-accepted}
use pop.Exchange.Tests.Offers.{offer}
use pop.Exchange.Tests.Transfers.{storage, empty_index, mgr}

abbrev region : ℕ → Region
region code = record { name = "Europe"; code = code; bootstrap = [] }

abbrev two_peers : PeerMgr
two_peers = record {
  regions = region 5 ∷ [];
  peers =
      (21, record { regions = 5 ∷ []; latency = 0 })
      ∷ (22, record { regions = 4 ∷ 5 ∷ []; latency = 0 })
      ∷ [];
  emitted = [];
}

peers-le_example :
    All (Chosen two_peers.peers (21 ∷ [])) (peers (pos 1) (region 5 ∷ []) (21 ∷ []) [] two_peers)
    × (length (peers (pos 1) (region 5 ∷ []) (21 ∷ []) [] two_peers) ≤ 1)
unfolding peers
peers-le_example =
    peers-le 1 (region 5 ∷ []) (21 ∷ []) [] two_peers ((omega arith, (omega arith, tt)), tt)
      (omega arith)

abbrev options : DispatchOptions
options = record { root = 5; backoff_attempts = 4; rf = 2; targets = []; rgs = region 5 ∷ [] }

abbrev events : List Dispatch.Event
events = confirms (record { provider = 21; payload_cid = 5 }) ∷ timer two_peers ∷ []

dispatch-ends_example :
    (length (Dispatch.run options events (Dispatch.start options two_peers [])).out ≤ 2)
    × (length (Dispatch.run options events (Dispatch.start options two_peers [])).out
        ≡ (Dispatch.run options events (Dispatch.start options two_peers [])).n)
    × (4 < timers events
        → (Dispatch.run options events (Dispatch.start options two_peers [])).done ≡ true)
dispatch-ends_example = dispatch-ends options two_peers [] events (omega arith)

abbrev request : Request
request = record { method = dispatch; payload_cid = 5; size = 30; seed = [] }

sent-Admitted_example :
    All
      (Admitted (Dispatch.run options events (Dispatch.start options two_peers [])).pulls request 5)
      (Dispatch.run options events (Dispatch.start options two_peers [])).sent
sent-Admitted_example = sent-Admitted options two_peers [] events request

run-announced_example :
    held (Pump.run (hey (some 31) ∷ hey (some 32) ∷ []) Pump.start)
    ≡ announced (hey (some 31) ∷ hey (some 32) ∷ [])
run-announced_example = run-announced (hey (some 31) ∷ hey (some 32) ∷ [])

abbrev one_fetch : Pump
one_fetch = record { q = []; fetch_done = fetching 31; fetched = 31 ∷ []; loaded = [] }

fetches-drained_example :
    ((Pump.run (result true ∷ hey (some 32) ∷ []) one_fetch).fetched ≡ 31 ∷ [])
    × ((Pump.run (result true ∷ hey (some 32) ∷ []) one_fetch).loaded ≡ 31 ∷ [])
fetches-drained_example = fetches-drained 31 true (hey (some 32) ∷ []) one_fetch refl refl

abbrev services : Services
services = record {
  next_store = 3;
  get_error = none;
  open_error = none;
  polls = completed ∷ [];
  write_error = none;
  loadable_keys = ok (7 ∷ []);
  migrate_error = none;
}

abbrev replication : Replication
replication = record { stores = []; pulls = []; idx = empty_index }

handle_request-idx_example :
    let h = handle_request storage services (ok request) replication in
    (h.deleted ≡ true
      → (is_dispatch request.method ≡ true)
        × (peek_ref empty_index 5 ≡ err not_found)
        × (services.write_error ≡ none)
        × (services.get_error ≡ none)
        × (services.open_error ≡ none)
        × (transfer_end services.polls ≡ received)
        × (services.migrate_error ≡ none)
        × (h.state.idx ≡ (set_ref storage empty_index (ref_for request services.loadable_keys)).0))
    × (h.deleted ≡ false → h.state.idx ≡ empty_index)
handle_request-idx_example = handle_request-idx storage services request replication

-- Host 1 publishes message 9, host 2 gets it from it.
abbrev quiet : Net
quiet q = new_tracer

abbrev heard : Net
heard = at 2 (deliver_message 9 1) (at 1 (publish_message 9) quiet)

unheard : (q : ℕ) → knows (quiet q) 9 ≡ false
unfolding was_published new_tracer sender
unheard q = refl

spread : Spread 9 1 quiet heard
unfolding was_published trace new_tracer sender
spread = delivered 2 1 published refl refl

relay-publisher_example : (n : ℕ) × (relay n heard 9 (offer 2) 2 ≡ some (1, offer 2))
unfolding was_published trace new_tracer sender
relay-publisher_example = relay-publisher 9 1 (offer 2) quiet heard 2 unheard spread refl

abbrev provider : Provider
provider = record {
  Selector = ℕ;
  all = 0;
  decode = λ raw. ok 0;
  encode = λ s. ok (1 ∷ []);
  stat = λ root s. ok 10;
  storage = storage;
  address = 9;
  ppb = pos 2;
}

abbrev quoted : Offer
quoted = record {
  id = "";
  peer_addr = [];
  payload_cid = 5;
  size = 10;
  payment_address = 9;
  min_price_per_byte = pos 2;
  max_payment_interval = 1048576;
  max_payment_interval_increase = 1048576;
  unseal_price = pos 0;
}

abbrev deal : ProviderState
deal = record {
  proposal = record {
    payload_cid = 5;
    id = 1;
    params = record {
      selector = some (1 ∷ []);
      piece_cid = none;
      price_per_byte = pos 2;
      payment_interval = 1048576;
      payment_interval_increase = 1048576;
      unseal_price = pos 0;
    };
  };
  store_id = 0;
  channel_id = 1;
  status = Status.new;
  receiver = 4;
  total_sent = 0;
  funds_received = pos 0;
  message = "";
  current_interval = 1048576;
  pay_ch = none;
}

answered :
    handle_query provider 5 (some (1 ∷ [])) empty_index mgr
    ≡ (empty_index, record mgr { offers = (5, quoted) ∷ [] }, ok quoted)
unfolding handle_query
answered = refl

proposed : params_from provider quoted 0 ≡ ok deal.params
unfolding params_from
proposed = refl

handle_query-accepted_example :
    (get_offer_for_cid (record mgr { offers = (5, quoted) ∷ [] }) 5 ≡ quoted)
    × (check_deal_params (get_offer_for_cid (record mgr { offers = (5, quoted) ∷ [] }) 5) deal
        ≡ ok tt)
handle_query-accepted_example =
    handle_query-accepted provider 5 (some (1 ∷ [])) empty_index empty_index mgr
      (record mgr { offers = (5, quoted) ∷ [] }) quoted 0 deal answered proposed refl
