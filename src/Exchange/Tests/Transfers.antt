-- ===== src/Exchange/Tests/Transfers.antt =====
-- The theorems on executions, at a transaction with two paths whose entries come with the first
-- transfer.
use pop.Common.{
  ℕ, ◌≡◌, ◌≢◌, refl, arith, Bool, true, false, List, [], ◌∷◌, none, some, ◌==◌, if◌then◌else◌,
  Bool-cases, inl, inr,
}
use pop.Common.Int.{pos, ◌-ℤ◌, ◌+ℤ◌}
use pop.Common.Result.{Result, ok, err, ◌>>=◌}
use pop.Retrieval.Status.{Status}
use pop.Retrieval.Deal.{ClientState}
use pop.Retrieval.Offers.{Mgr}
use pop.Exchange.Index.{Index, Storage, DataRef, get_ref}
use pop.Exchange.Dag.{Entry, Node, LinkSystem, links_of, find_entry}
use pop.Exchange.Worker.{TxResult}
use pop.Exchange.Tx.{Tx, star, root_for, source, get_entry}
use pop.Exchange.Tx.Execute.{
  Session, Run, entries_only, all_nodes, first_choice, path_root, deal_params, execute,
}
use pop.Exchange.Tx.Execute.Funds.{Defined}
use pop.Exchange.Tx.Execute.Paths.{
  Whole, execute-unknown_path, execute-known_path, execute-no_paths,
}
use pop.Exchange.Tests.Offers.{offer}

abbrev pub storage : Storage
storage = record {
  set_error = λ _. none;
  delete_error = λ _. none;
  flush_error = none;
  walk = λ k. k ∷ [];
  walk_error = λ _. none;
}

abbrev pub empty_index : Index
empty_index = record { root = []; ub = 0; lb = 0; gc_set = []; size = 0; blist = []; refs = [] }

abbrev pub tx_with : List ℕ → List Entry → Tx
tx_with paths entries = record {
  store_id = 1;
  entries = entries;
  client_addr = 3;
  root = 5;
  size = pos 0;
  codec = 0x71;
  paths = paths;
  committed = false;
  error = none;
  closed = false;
}

-- The transaction's store has the node of the root after this many transfers.
abbrev pub entries : List Entry
entries =
    record { key = 7; value = 70; size = pos 2 } ∷ record { key = 8; value = 80; size = pos 3 } ∷ []

abbrev node : Node
node = record { links = ok (links_of entries) }

abbrev nowhere : LinkSystem
nowhere = record { choose_error = λ _. none; load = λ _. err "not found" }

abbrev loads_after : ℕ → ℕ → LinkSystem
loads_after k i = record {
  choose_error = λ _. none;
  load = λ c. if k == 0 then ok node else if i == 0 then err "not found" else ok node;
}

abbrev finished : ClientState
finished = record {
  proposal = record {
    payload_cid = 5;
    id = 1;
    params = record {
      selector = none;
      piece_cid = none;
      price_per_byte = pos 2;
      payment_interval = 100;
      payment_interval_increase = 100;
      unseal_price = pos 0;
    };
  };
  store_id = some 1;
  channel_id = 1;
  last_payment_requested = true;
  all_blocks_received = true;
  total_funds = pos 20;
  client_wallet = 3;
  miner_wallet = 9;
  payment_info = none;
  status = Status.completed;
  sender = 4;
  total_received = 2;
  message = "";
  bytes_paid_for = 2;
  current_interval = 100;
  payment_requested = pos 0;
  funds_spent = pos 4;
  unseal_funds_paid = pos 0;
  wait_msg_cid = none;
  voucher_shortfall = pos 0;
}

abbrev session : ℕ → Session
session k = record {
  addr_error = λ _. none;
  storage = storage;
  global = nowhere;
  own = loads_after k;
  encode = λ _. ok (1 ∷ []);
  retrieve = λ i. ok i;
  states = λ _. finished ∷ [];
}

in_node : (p r : ℕ) → (find_entry p (links_of entries) >>= λ e. ok e.value) ≡ ok r → r ≢ 0
unfolding find_entry
in_node p r h = ground arith

in_own :
    (k i p r : ℕ)
    → (get_entry (tx_with [] []) p (loads_after k i) >>= λ e. ok e.value) ≡ ok r
    → r ≢ 0
unfolding get_entry
in_own k i p r h = elim (Bool-cases (k == 0)) [
  | inl e ↦ in_node p r (rw e at h)
  | inr e ↦ elim (Bool-cases (i == 0)) [
    | inl f ↦ cc (rw (e, f) at h)
    | inr f ↦ in_node p r (rw (e, f) at h)
  ]
]

in_source :
    (k i p r : ℕ) (found : Result DataRef)
    → (get_entry (tx_with [] []) p (elim found [ ok _ ↦ nowhere | err _ ↦ loads_after k i ])
        >>= λ e. ok e.value)
      ≡ ok r
    → r ≢ 0
unfolding get_entry
in_source k i p r (ok x) h = cc h
in_source k i p r (err x) h = in_own k i p r h

-- Every path of these sessions leads to 70, 80 or the root, 5.
path_defined : (k : ℕ) (paths : List ℕ) → Defined (session k) (tx_with paths []) (offer 2)
unfolding path_root root_for source get_entry
path_defined k paths i p idx r h = elim (Bool-cases (p == star)) [
  | inl e ↦ λ z. cc (rw e at h, z)
  | inr e ↦ in_source k i p r (get_ref storage idx 5).1 (rw e at h)
]

abbrev pub mgr : Mgr
mgr = record { provider_price = pos 2; offers = []; funds = [] }

run_of : ℕ → List ℕ → Run × TxResult × Bool
unfolding execute
run_of k paths = execute (session k) (tx_with paths []) (offer 2) mgr empty_index

ended :
    (k : ℕ) (paths : List ℕ)
    → (run_of k paths).2 ≡ true
    → execute (session k) (tx_with paths []) (offer 2) mgr empty_index
      ≡ ((run_of k paths).0, (run_of k paths).1, true)
unfolding run_of
ended k paths h = λ i. ((run_of k paths).0, (run_of k paths).1, h i)

execute-unknown_path_example :
    Whole
      (session 1)
      (tx_with (7 ∷ 8 ∷ []) [])
      (offer 2)
      (first_choice (session 1) (tx_with (7 ∷ 8 ∷ []) []) (offer 2) entries_only)
      2
      (run_of 1 (7 ∷ 8 ∷ [])).0
      (run_of 1 (7 ∷ 8 ∷ [])).1
unfolding run_of deal_params path_root ◌-ℤ◌ ◌+ℤ◌
execute-unknown_path_example =
    execute-unknown_path (session 1) (tx_with (7 ∷ 8 ∷ []) []) (offer 2) 7 (8 ∷ []) "not found" mgr
      empty_index (run_of 1 (7 ∷ 8 ∷ [])).0 (run_of 1 (7 ∷ 8 ∷ [])).1 (path_defined 1 (7 ∷ 8 ∷ []))
      (λ h. cc) refl refl refl (ended 1 (7 ∷ 8 ∷ []) refl)

execute-known_path_example :
    Whole
      (session 0)
      (tx_with (7 ∷ 8 ∷ []) [])
      (offer 2)
      (record { root = 70; selector = all_nodes; funds = pos 0 })
      1
      (run_of 0 (7 ∷ 8 ∷ [])).0
      (run_of 0 (7 ∷ 8 ∷ [])).1
unfolding run_of deal_params path_root ◌-ℤ◌ ◌+ℤ◌
execute-known_path_example =
    execute-known_path (session 0) (tx_with (7 ∷ 8 ∷ []) []) (offer 2) 7 8 [] 70 mgr empty_index
      (run_of 0 (7 ∷ 8 ∷ [])).0 (run_of 0 (7 ∷ 8 ∷ [])).1 (path_defined 0 (7 ∷ 8 ∷ [])) refl refl
      refl (ended 0 (7 ∷ 8 ∷ []) refl)

execute-no_paths_example :
    Whole
      (session 0)
      (tx_with [] [])
      (offer 2)
      (first_choice (session 0) (tx_with [] []) (offer 2) entries_only)
      0
      (run_of 0 []).0
      (run_of 0 []).1
unfolding run_of deal_params ◌-ℤ◌ ◌+ℤ◌
execute-no_paths_example =
    execute-no_paths (session 0) (tx_with [] []) (offer 2) mgr empty_index (run_of 0 []).0
      (run_of 0 []).1 (path_defined 0 []) (λ h. cc) refl (ended 0 [] refl)
