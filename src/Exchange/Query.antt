-- ===== src/Exchange/Query.antt =====
-- handleQuery of exchange/exchange.go: the offer that a node makes for content that it has. The walk of
-- the DAG by utils.Stat is a parameter, for the selector that the query names or that of everything.
use pop.Common.{
  ℕ, ◌≡◌, ap, ◌∙◌, arith, List, [], Option, none, some, ◌==◌, if◌then◌else◌, Bool-cases, inl, inr,
}
use pop.Common.Assoc.{find, find-put_same}
use pop.Common.Int.{ℤ, pos}
use pop.Common.Result.{Result, ok, err, Result-cases}
use pop.Common.Text.{◌+++◌}
use pop.Retrieval.Deal.{Offer, Params, ProviderState}
use pop.Retrieval.Offers.{
  Mgr, set_offer_for_cid, get_offer_for_cid, default_payment_interval,
  default_payment_interval_increase, new_params,
}
use pop.Retrieval.Validation.{check_deal_params}
use pop.Exchange.Index.{Index, Storage, get_ref}

-- The node's own address and price per byte, its storage, and the size of the DAG under a root.
pub record Provider : Type 1 where
  pub Selector : Type 0
  pub all : Selector
  pub decode : List ℕ → Result Selector
  pub encode : Selector → Result (List ℕ)
  pub stat : ℕ → Selector → Result ℕ
  pub storage : Storage
  pub address : ℕ
  pub ppb : ℤ

module _ (provider : Provider) where
  open provider use {Selector, all, decode, encode, stat, storage, address, ppb}

  unfoldable pub asked_for : List ℕ → Selector
  asked_for raw = elim (decode raw) [ ok sel ↦ sel | err _ ↦ all ]

  unfoldable pub offer_of : ℕ → ℕ → Offer
  offer_of cid size = record {
    id = "";
    peer_addr = [];
    payload_cid = cid;
    size = size;
    payment_address = address;
    min_price_per_byte = ppb;
    max_payment_interval = default_payment_interval;
    max_payment_interval_increase = default_payment_interval_increase;
    unseal_price = pos 0;
  }

  unfoldable pub quote : ℕ → Mgr → Result ℕ → Mgr × Result Offer
  unfolding offer_of set_offer_for_cid
  quote cid deals (err e) = (deals, err ("content unavailable: " +++ e))
  quote cid deals (ok size) =
      if size == 0
      then (deals, err "content unavailable")
      else (set_offer_for_cid cid (offer_of cid size) deals, ok (offer_of cid size))

  -- The read of the index only counts the query.
  unfoldable pub handle_query : ℕ → Option (List ℕ) → Index → Mgr → Index × Mgr × Result Offer
  unfolding get_ref asked_for quote
  handle_query cid selector idx deals =
      let counted = (get_ref storage idx cid).0 in
      elim selector [
        | none ↦ (counted, deals, err "no selector provided")
        | some raw ↦
            let (deals', r) = quote cid deals (stat cid (asked_for raw)) in (counted, deals', r)
      ]

  -- The terms that NewParams takes from an offer, as Execute passes them.
  unfoldable pub params_from : Offer → Selector → Result Params
  unfolding new_params
  params_from o sel =
      new_params Selector encode o.min_price_per_byte o.max_payment_interval
        o.max_payment_interval_increase (some sel) none o.unseal_price

  params_from-terms :
      (o : Offer) (sel : Selector) (p : Params)
      → params_from o sel ≡ ok p
      → (p.price_per_byte ≡ o.min_price_per_byte)
        × (p.payment_interval ≡ o.max_payment_interval)
        × (p.payment_interval_increase ≡ o.max_payment_interval_increase)
  unfolding params_from
  params_from-terms o sel p h = elim (Result-cases (encode sel)) [
    | inl (e, q) ↦ cc (q, h)
    | inr (raw, q) ↦ ground (arith, q, h)
  ]

  own_terms :
      (o : Offer) (sel : Selector) (d : ProviderState)
      → params_from o sel ≡ ok d.params
      → check_deal_params o d ≡ ok tt
  unfolding check_deal_params
  own_terms o sel d h = ground (arith, params_from-terms o sel d.params h)

  quote-kept :
      (cid : ℕ) (deals deals' : Mgr) (r : Result ℕ) (o : Offer)
      → quote cid deals r ≡ (deals', ok o)
      → get_offer_for_cid deals' cid ≡ o
  unfolding quote get_offer_for_cid
  quote-kept cid deals deals' (err e) o h = cc (ap (λ x. x.1) h)
  quote-kept cid deals deals' (ok size) o h = elim (Bool-cases (size == 0)) [
    | inl z ↦ cc (ap (λ x. x.1) (rw z at h))
    | inr z ↦
        let made = rw z at h in
        let here = find-put_same cid (offer_of cid size) deals.offers in
        let stored = ap (λ x. find cid x.0.offers) made in
        ground (arith, here, stored, ap (λ x. x.1) made)
  ]

  -- A query that is answered leaves the very offer with the deal manager, so that a deal for this
  -- content on the terms of the offer, with any selector, passes the check of its parameters.
  pub handle_query-accepted :
      (cid : ℕ) (selector : Option (List ℕ)) (idx idx' : Index) (deals deals' : Mgr) (o : Offer)
      (sel : Selector) (d : ProviderState)
      → handle_query cid selector idx deals ≡ (idx', deals', ok o)
      → params_from o sel ≡ ok d.params
      → d.payload_cid ≡ cid
      → (get_offer_for_cid deals' d.payload_cid ≡ o)
        × (check_deal_params (get_offer_for_cid deals' d.payload_cid) d ≡ ok tt)
  unfolding handle_query
  handle_query-accepted cid none idx idx' deals deals' o sel d h p c = cc (ap (λ x. x.2) h)
  handle_query-accepted cid (some raw) idx idx' deals deals' o sel d h p c =
      let quoted : quote cid deals (stat cid (asked_for raw)) ≡ (deals', ok o) =
        ap (λ x. (x.1, x.2)) h in
      let kept =
        ap (get_offer_for_cid deals') c
        ∙ quote-kept cid deals deals' (stat cid (asked_for raw)) o quoted in
      (kept, ap (λ x. check_deal_params x d) kept ∙ own_terms o sel d p)
