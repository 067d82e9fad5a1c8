-- ===== src/Exchange/Tx/Execute.antt =====
-- Execute of exchange/tx.go: the transfers that retrieve the paths of a transaction from the provider
-- of an offer, one after the other. The answers of the retrieval client, the stores that the transfers
-- fill and the encoding of selectors are a Session; the parameters of a deal that a user chose are not
-- read. An access beyond the paths is a panic, here an error of its own text.
pub mod Rounds
pub mod Funds
pub mod Paths
use pop.Common.{
  ℕ, zero, suc, ◌+◌, Bool, true, false, not, ◌&&◌, List, [], ◌∷◌, ◌++◌, Option, none, some, length,
  get_elem?, ltb, ◌==◌, u64, if◌then◌else◌,
}
use pop.Common.Int.{ℤ, pos, ◌+ℤ◌, ◌-ℤ◌}
use pop.Common.Result.{Result, ok, err}
use pop.Common.Text.{String}
use pop.Retrieval.Status.{Status, name}
use pop.Retrieval.Deal.{Params, Offer, ClientState, PaymentInfo, retrieval_price}
use pop.Retrieval.Offers.{Mgr, set_offer_for_cid, get_funds_for_cid, set_funds_for_cid, new_params}
use pop.Exchange.Index.{Index, Storage}
use pop.Exchange.Dag.{LinkSystem}
use pop.Exchange.Worker.{TxResult}
use pop.Exchange.Tx.{Tx, star, root_for}

pub data Selector : Type 0 where
  all_nodes entries_only hamt : Selector

pub record Session : Type 0 where
  pub addr_error : Offer → Option String
  pub storage : Storage
  pub global : LinkSystem
  -- the store of the transaction after so many transfers
  pub own : ℕ → LinkSystem
  pub encode : Selector → Result (List ℕ)
  -- the ID of a deal that was started, and the states that the client then reports
  pub retrieve : ℕ → Result ℕ
  pub states : ℕ → List ClientState

pub record Request : Type 0 where
  pub root : ℕ
  pub params : Params
  pub total_funds : ℤ

pub record Run : Type 0 where
  pub idx : Index
  pub deals : Mgr
  pub root : ℕ
  pub results : List TxResult
  pub final : TxResult
  pub requests : List Request
  pub ongoing : List ℕ

pub data Outcome : Type 0 where
  continues : Run → Outcome
  returns : Run → TxResult → Outcome

abbrev pub failure : String → TxResult
failure e = record { error = some e; size = 0; spent = pos 0; pay_ch = 0 }

-- The subscriber: a state that ends a deal gives a result.
unfoldable pub result_of : ClientState → Option TxResult
unfolding name
result_of s = elim s.status [
  | Status.completed ↦ some (record {
    error = none;
    size = s.total_received;
    spent = s.funds_spent;
    pay_ch = elim s.payment_info [ none ↦ 0 | some info ↦ info.pay_ch ];
  })
  | Status.cancelled ↦ some (failure (name Status.cancelled))
  | Status.errored ↦ some (failure (name Status.errored))
  | _ ↦ none
]

-- The channel of results has room for so many; what does not fit is dropped.
unfoldable pub deliver : ℕ → List TxResult → List ClientState → List TxResult
unfolding result_of
deliver count buffer [] = buffer
deliver count buffer (s ∷ states) =
    deliver count
      (elim (result_of s) [
        | none ↦ buffer
        | some r ↦ if ltb (length buffer) count then buffer ++ (r ∷ []) else buffer
      ])
      states

pub record Choice : Type 0 where
  pub root : ℕ
  pub selector : Selector
  pub funds : ℤ

module _ (session : Session) (tx : Tx) (of : Offer) where
  unfoldable pub path_root : ℕ → ℕ → Index → Index × Result ℕ
  unfolding root_for
  path_root i p idx = root_for session.storage session.global (session.own i) tx p idx

  abbrev pub first_choice : Selector → Choice
  first_choice sel = record { root = tx.root; selector = sel; funds = retrieval_price of }

  -- The root of the transaction, with all its nodes only for the path `*`.
  unfoldable pub from_root : ℕ → List ℕ → Result Choice
  from_root i [] = ok (first_choice entries_only)
  from_root i (q ∷ ps) = elim (get_elem? (q ∷ ps) i) [
    | none ↦ err "index out of range"
    | some p ↦ ok (first_choice (if p == star then all_nodes else entries_only))
  ]

  unfoldable pub choose : ℕ → Run → Result Choice
  unfolding from_root get_funds_for_cid
  choose i st =
      if st.root == 0
      then from_root i tx.paths
      else ok (record {
        root = st.root;
        selector = all_nodes;
        funds = get_funds_for_cid st.deals tx.root;
      })

  -- Every transfer but the first is for the path before its own place.
  unfoldable pub next_root : ℕ → ℕ → Index → Index × Result ℕ
  unfolding path_root
  next_root zero root idx = (idx, ok root)
  next_root (suc j) root idx = elim (get_elem? tx.paths j) [
    | none ↦ (idx, err "index out of range")
    | some p ↦ path_root (suc j) p idx
  ]

  unfoldable pub settle : Choice → ℕ → TxResult → Run → Outcome
  unfolding set_offer_for_cid set_funds_for_cid
  settle c root r st = elim r.error [
    | some e ↦ returns st (record st.final { error = some e })
    | none ↦
        let deals = if root == tx.root then set_offer_for_cid root of st.deals else st.deals in
        continues (record st {
          deals = set_funds_for_cid tx.root (c.funds -ℤ r.spent) deals;
          final = record st.final {
            size = u64 (st.final.size + r.size);
            spent = st.final.spent +ℤ r.spent;
            pay_ch = r.pay_ch;
          };
        })
  ]

  unfoldable pub await : ℕ → ℕ → Choice → ℕ → Run → Outcome
  unfolding deliver settle
  await count i c root st = elim (deliver count st.results (session.states i)) [
    | [] ↦ returns st (record st.final { error = some "context canceled" })
    | r ∷ rest ↦ settle c root r (record st { results = rest })
  ]

  unfoldable pub deal_params : Choice → Result Params
  unfolding new_params
  deal_params c =
      new_params Selector session.encode of.min_price_per_byte of.max_payment_interval
        of.max_payment_interval_increase (some c.selector) none of.unseal_price

  unfoldable pub launch : ℕ → ℕ → Choice → ℕ → Run → Result Params → Result ℕ → Outcome
  unfolding await
  launch count i c root st (err e) started = returns st (failure e)
  launch count i c root st (ok params) (err e) = returns st (record st.final { error = some e })
  launch count i c root st (ok params) (ok id) = await count i c root (record st {
    requests = st.requests ++ (record { root = root; params = params; total_funds = c.funds } ∷ []);
    ongoing = st.ongoing ++ (id ∷ []);
  })

  unfoldable pub ask : ℕ → ℕ → Choice → ℕ → Run → Outcome
  unfolding launch deal_params
  ask count i c root st = launch count i c root st (deal_params c) (session.retrieve i)

  unfoldable pub proceed : ℕ → ℕ → Choice → Run → Index × Result ℕ → Outcome
  unfolding ask
  proceed count i c st (idx, err e) = returns (record st { idx = idx }) (failure e)
  proceed count i c st (idx, ok root) = ask count i c root (record st { idx = idx; root = root })

  unfoldable pub from_choice : ℕ → ℕ → Run → Result Choice → Outcome
  unfolding next_root proceed
  from_choice count i st (err e) = returns st (failure e)
  from_choice count i st (ok c) = proceed count i c st (next_root i c.root st.idx)

  unfoldable pub round : ℕ → ℕ → Run → Outcome
  unfolding choose from_choice
  round count i st = from_choice count i st (choose i st)

  -- The rounds that are left, from round i on. The last part says whether the loop went through, so that
  -- the transaction counts as committed.
  unfoldable pub rounds : ℕ → ℕ → ℕ → Run → Run × TxResult × Bool
  unfolding round
  rounds count zero i st = (st, st.final, true)
  rounds count (suc n) i st = elim (round count i st) [
    | returns st' r ↦ (st', r, false)
    | continues st' ↦ rounds count n (suc i) st'
  ]

  abbrev pub begin : Mgr → Index → ℕ → Run
  begin deals idx root = record {
    idx = idx;
    deals = deals;
    root = root;
    results = [];
    final = record { error = none; size = 0; spent = pos 0; pay_ch = 0 };
    requests = [];
    ongoing = [];
  }

  -- How many transfers there are, and the root of the first path, 0 if it is not known yet.
  unfoldable pub count_of : ℕ → Index × Result ℕ → Index × ℕ × ℕ
  count_of n (idx, ok root) = (idx, n, root)
  count_of n (idx, err _) = (idx, suc n, 0)

  unfoldable pub plan_of : List ℕ → Index → Index × ℕ × ℕ
  unfolding path_root count_of
  plan_of [] idx = (idx, 1, 0)
  plan_of (p ∷ ps) idx =
      if p == star then (idx, 1, 0) else count_of (suc (length ps)) (path_root 0 p idx)

  unfoldable pub plan : Index → Index × ℕ × ℕ
  unfolding plan_of
  plan idx = plan_of tx.paths idx

  unfoldable pub follow : Mgr → Index → Option String → Index × ℕ × ℕ → Run × TxResult × Bool
  unfolding rounds
  follow deals idx (some e) planned = (begin deals idx 0, failure e, false)
  follow deals idx none (idx', count, root) = rounds count count 0 (begin deals idx' root)

  unfoldable pub execute : Mgr → Index → Run × TxResult × Bool
  unfolding plan follow
  execute deals idx = follow deals idx (session.addr_error of) (plan idx)
