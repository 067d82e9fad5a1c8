-- ===== src/Exchange/Tx/Execute/Rounds.antt =====
-- Which content the transfers of Execute (exchange/tx.go) ask for.
use mathlib.Core.Path.{subst}
use pop.Common.{
  ℕ, ◌≡◌, refl, sym, ap, ◌∙◌, arith, List, [], ◌∷◌, ◌++◌, some, ◌==◌, if◌then◌else◌, Option-cases,
  inl, inr,
}
use pop.Common.Assoc.{find-put_same}
use pop.Common.Int.{ℤ, ◌+ℤ◌, ◌-ℤ◌, int_laws}
use pop.Common.Result.{Result, ok, err, Result-cases}
use pop.Retrieval.Deal.{Params, Offer}
use pop.Retrieval.Offers.{Mgr, set_offer_for_cid, get_funds_for_cid, set_funds_for_cid}
use pop.Exchange.Index.{Index}
use pop.Exchange.Worker.{TxResult}
use pop.Exchange.Tx.{Tx}
use pop.Exchange.Tx.Execute.{
  Session, Request, Run, Outcome, continues, returns, Choice, deliver, choose, next_root, settle,
  await, ask, proceed, round, deal_params, launch, from_choice,
}

abbrev pub OnContinue : (Run → Type 0) → Outcome → Type 0
OnContinue P (continues s) = P s
OnContinue P (returns _ _) = Unit

OnContinue-map :
    (P Q : Run → Type 0) → ((s : Run) → P s → Q s) → (o : Outcome) → OnContinue P o → OnContinue Q o
OnContinue-map P Q f (continues s) h = f s h
OnContinue-map P Q f (returns _ _) h = tt

module _ (session : Session) (tx : Tx) (of : Offer) where
  -- The funds that are left for the content of the transaction.
  abbrev pub left : Run → ℤ
  left s = get_funds_for_cid s.deals tx.root

  -- What a transfer leaves alone, and how it books what it spent.
  abbrev pub Booked : ℤ → Run → Run → Type 0
  Booked funds s s' =
      (s'.requests ≡ s.requests)
      × (s'.root ≡ s.root)
      × (left s' +ℤ s'.final.spent ≡ funds +ℤ s.final.spent)

  books : (funds spent before : ℤ) → (funds -ℤ spent) +ℤ (before +ℤ spent) ≡ funds +ℤ before
  books funds spent before = omega int_laws

  funds-set :
      (k : ℕ) (amount : ℤ) (mgr : Mgr)
      → get_funds_for_cid (set_funds_for_cid k amount mgr) k ≡ amount
  unfolding get_funds_for_cid set_funds_for_cid
  funds-set k amount mgr = ground (arith, find-put_same k amount mgr.funds)

  settle-Booked :
      (c : Choice) (root : ℕ) (r : TxResult) (s : Run)
      → OnContinue (Booked c.funds s) (settle session tx of c root r s)
  unfolding settle
  settle-Booked c root r s = elim (Option-cases r.error) [
    | inr (e, h) ↦ rw h tt
    | inl h ↦
        let deals = if root == tx.root then set_offer_for_cid root of s.deals else s.deals in
        rw h (
          refl,
          refl,
          rw (funds-set tx.root (c.funds -ℤ r.spent) deals) (books c.funds r.spent s.final.spent),
        )
  ]

  await-Booked :
      (count i : ℕ) (c : Choice) (root : ℕ) (s : Run)
      → OnContinue (Booked c.funds s) (await session tx of count i c root s)
  unfolding await
  await-Booked count i c root s = by_results (deliver count s.results (session.states i))
    where
      by_results :
          (rs : List TxResult)
          → OnContinue (Booked c.funds s) (elim rs [
            | [] ↦ returns s (record s.final { error = some "context canceled" })
            | r ∷ rest ↦ settle session tx of c root r (record s { results = rest })
          ])
      by_results [] = tt
      by_results (r ∷ rest) = settle-Booked c root r (record s { results = rest })

  -- The request that a transfer made: for this root, with this choice's selector and funds.
  abbrev pub IsFor : ℕ → Choice → Request → Type 0
  IsFor root c q =
      (q.root ≡ root)
      × (q.total_funds ≡ c.funds)
      × ((raw : List ℕ) × (session.encode c.selector ≡ ok raw) × (q.params.selector ≡ some raw))

  abbrev pub Asked : Choice → ℕ → Run → Run → Type 0
  Asked c root s s' =
      (q : Request) × IsFor root c q
      × (s'.requests ≡ s.requests ++ (q ∷ []))
      × (s'.root ≡ s.root)
      × (left s' +ℤ s'.final.spent ≡ c.funds +ℤ s.final.spent)

  deal_params-selector :
      (c : Choice) (params : Params)
      → deal_params session tx of c ≡ ok params
      → (raw : List ℕ) × (session.encode c.selector ≡ ok raw) × (params.selector ≡ some raw)
  unfolding deal_params
  deal_params-selector c params h = elim (Result-cases (session.encode c.selector)) [
    | inl (e, p) ↦ cc (p, h)
    | inr (raw, p) ↦ (raw, p, ground (arith, p, h))
  ]

  launch-Asked :
      (count i : ℕ) (c : Choice) (root : ℕ) (s : Run) (params : Result Params) (started : Result ℕ)
      → deal_params session tx of c ≡ params
      → OnContinue (Asked c root s) (launch session tx of count i c root s params started)
  unfolding launch
  launch-Asked count i c root s (err e) started h = tt
  launch-Asked count i c root s (ok params) (err e) h = tt
  launch-Asked count i c root s (ok params) (ok id) h =
      let q : Request = record { root = root; params = params; total_funds = c.funds } in
      let s' = record s { requests = s.requests ++ (q ∷ []); ongoing = s.ongoing ++ (id ∷ []) } in
      let is_for : IsFor root c q = (refl, refl, deal_params-selector c params h) in
      OnContinue-map (Booked c.funds s') (Asked c root s) (λ s'' b. (q, is_for, b.0, b.1, b.2))
        (await session tx of count i c root s') (await-Booked count i c root s')

  -- A whole round: the choice, the root that it ends up with, and the request for it.
  abbrev pub Round : ℕ → Run → Run → Type 0
  Round i s s' =
      (c : Choice) × (choose session tx of i s ≡ ok c)
      × ((next_root session tx of i c.root s.idx).1 ≡ ok s'.root)
      × (q : Request) × IsFor s'.root c q
      × (s'.requests ≡ s.requests ++ (q ∷ []))
      × (left s' +ℤ s'.final.spent ≡ c.funds +ℤ s.final.spent)

  proceed-Round :
      (count i : ℕ) (c : Choice) (s : Run) (next : Index × Result ℕ)
      → choose session tx of i s ≡ ok c
      → next_root session tx of i c.root s.idx ≡ next
      → OnContinue (Round i s) (proceed session tx of count i c s next)
  unfolding proceed
  proceed-Round count i c s (idx, err e) h g = tt
  proceed-Round count i c s (idx, ok root) h g =
      let s' = record s { idx = idx; root = root } in
      OnContinue-map (Asked c root s') (Round i s)
        (λ s'' a.
          let same : root ≡ s''.root = sym a.3 in
          (c, h, ap (λ p. p.1) g ∙ ap ok same, a.0, subst (λ x. IsFor x c a.0) same a.1, a.2, a.4))
        (ask session tx of count i c root s')
        (unfold ask in
          launch-Asked count i c root s' (deal_params session tx of c) (session.retrieve i) refl)

  from_choice-Round :
      (count i : ℕ) (s : Run) (r : Result Choice)
      → choose session tx of i s ≡ r
      → OnContinue (Round i s) (from_choice session tx of count i s r)
  unfolding from_choice
  from_choice-Round count i s (err e) h = tt
  from_choice-Round count i s (ok c) h =
      proceed-Round count i c s (next_root session tx of i c.root s.idx) h refl

  pub round-Round : (count i : ℕ) (s : Run) → OnContinue (Round i s) (round session tx of count i s)
  unfolding round
  round-Round count i s = from_choice-Round count i s (choose session tx of i s) refl
