-- ===== src/Exchange/Routing/Relay.antt =====
-- How an offer finds its way back (exchange/routing.go): every host passes it on to the host from which it
-- got the query, by GossipTracer, until it reaches the one that published the query.
use pop.Common.{
  ℕ, zero, suc, ◌≡◌, refl, sym, ap, ◌∙◌, arith, Bool, true, false, Option, none, some, ◌==◌, ==_iff,
  if◌then◌else◌, Bool-cases, inl, inr,
}
use pop.Common.Assoc.{find-put_same}
use pop.Common.Result.{ok, err}
use pop.Retrieval.Deal.{Offer}
use pop.Exchange.Buckets.Entries.{is_in-add}
use pop.Exchange.Routing.{
  GossipTracer, OfferStream, OfferEnd, taken, forwarded, dropped, handle_offer, receive, pass_on,
  TraceEvent, publish_message, deliver_message, trace, was_published, sender,
}

-- The tracer of every host.
abbrev pub Net : Type 0
Net = ℕ → GossipTracer

-- An event at one host.
abbrev pub at : ℕ → TraceEvent → Net → Net
at p e net q = if q == p then trace e (net q) else net q

abbrev pub knows : GossipTracer → ℕ → Bool
knows gt id =
    if was_published gt id then true else elim (sender gt id) [ ok _ ↦ true | err _ ↦ false ]

-- A message spreads: one host publishes it, and every other host gets it once, from one that has it.
pub data Spread (id publisher : ℕ) (net₀ : Net) : Net → Type 0 where
  published : Spread id publisher net₀ (at publisher (publish_message id) net₀)
  delivered :
      {net : Net} (p from : ℕ)
      → Spread id publisher net₀ net
      → knows (net from) id ≡ true
      → knows (net p) id ≡ false
      → Spread id publisher net₀ (at p (deliver_message id from) net)

-- A stream with this offer on which nothing fails.
abbrev pub carries : ℕ → Offer → OfferStream
carries id offer = record {
  peeked_id = ok id;
  decoded = ok offer;
  open_next = λ to. ok to;
  copy_error = none;
  has_receiver = true;
}

unfoldable pub arrive : ℕ → OfferEnd → (ℕ → Option (ℕ × Offer)) → Option (ℕ × Offer)
arrive p (taken o) next = some (p, o)
arrive p (forwarded to) next = next to
arrive p (dropped e) next = none

-- The host whose receiver gets the offer, and the offer, after at most so many hops.
unfoldable pub relay : ℕ → Net → ℕ → Offer → ℕ → Option (ℕ × Offer)
unfolding arrive handle_offer
relay zero net id o p = none
relay (suc n) net id o p = arrive p (handle_offer (net p) (carries id o)) (relay n net id o)

unknown-handle_offer :
    (gt : GossipTracer) (id p : ℕ) (o : Offer) (next : ℕ → Option (ℕ × Offer))
    → knows gt id ≡ false
    → arrive p (handle_offer gt (carries id o)) next ≡ none
unfolding arrive handle_offer
unknown-handle_offer gt id p o next h = ground arith

arrive-keeps :
    (x : ℕ) (end : OfferEnd) (f g : ℕ → Option (ℕ × Offer)) (r : ℕ × Offer)
    → ((y : ℕ) → f y ≡ some r → g y ≡ some r)
    → arrive x end f ≡ some r
    → arrive x end g ≡ some r
unfolding arrive
arrive-keeps x (taken o) f g r k h = h
arrive-keeps x (forwarded to) f g r k h = k to h
arrive-keeps x (dropped e) f g r k h = h

-- An event at a host that does not have the message changes no way that arrives.
relay-keeps :
    (n : ℕ) (net : Net) (id p : ℕ) (e : TraceEvent) (o : Offer) (x : ℕ) (r : ℕ × Offer)
    → knows (net p) id ≡ false
    → relay n net id o x ≡ some r
    → relay n (at p e net) id o x ≡ some r
unfolding relay
relay-keeps zero net id p e o x r u h = h
relay-keeps (suc n) net id p e o x r u h = elim (Bool-cases (x == p)) [
  | inl same ↦
      let here : net x ≡ net p = ap net ((==_iff x p).0 same) in
      let lost =
        unknown-handle_offer (net x) id x o (relay n net id o) (ap (λ t. knows t id) here ∙ u) in
      cc (lost, h)
  | inr other ↦
      let still : at p e net x ≡ net x = rw other refl in
      ap (λ t. arrive x (handle_offer t (carries id o)) (relay n (at p e net) id o)) still
      ∙ arrive-keeps x (handle_offer (net x) (carries id o)) (relay n net id o)
          (relay n (at p e net) id o) r (λ y. relay-keeps n net id p e o y r u) h
]

published-handle_offer :
    (gt : GossipTracer) (id : ℕ) (o : Offer)
    → handle_offer (trace (publish_message id) gt) (carries id o) ≡ taken o
unfolding handle_offer trace was_published receive
published-handle_offer gt id o = rw (is_in-add id gt.published) refl

delivered-handle_offer :
    (gt : GossipTracer) (id from : ℕ) (o : Offer)
    → knows gt id ≡ false
    → handle_offer (trace (deliver_message id from) gt) (carries id o) ≡ forwarded from
unfolding handle_offer trace was_published sender pass_on
delivered-handle_offer gt id from o h = ground (arith, find-put_same id from gt.senders)

at-here : (p q : ℕ) (e : TraceEvent) (net : Net) → (q == p) ≡ true → at p e net q ≡ trace e (net q)
at-here p q e net h = rw h refl

at-other : (p q : ℕ) (e : TraceEvent) (net : Net) → (q == p) ≡ false → at p e net q ≡ net q
at-other p q e net h = rw h refl

Spread-relay :
    (id publisher : ℕ) (o : Offer) {net₀ net : Net}
    → ((q : ℕ) → knows (net₀ q) id ≡ false)
    → Spread id publisher net₀ net
    → (q : ℕ) → knows (net q) id ≡ true
    → (n : ℕ) × (relay n net id o q ≡ some (publisher, o))
unfolding relay arrive
Spread-relay id publisher o {net₀} fresh published q k = elim (Bool-cases (q == publisher)) [
  | inl e ↦
      let ends =
        ap (λ t. handle_offer t (carries id o)) (at-here publisher q (publish_message id) net₀ e)
        ∙ published-handle_offer (net₀ q) id o in
      (1, ap (λ x. arrive q x (λ _. none)) ends ∙ ap (λ y. some (y, o)) ((==_iff q publisher).0 e))
  | inr e ↦
      let old = ap (λ t. knows t id) (at-other publisher q (publish_message id) net₀ e) in
      cc (old, k, fresh q)
]
Spread-relay id publisher o fresh (delivered {net} x from sp kf ku) q k =
    elim (Bool-cases (q == x)) [
      | inl e ↦
          let (n, way) = Spread-relay id publisher o fresh sp from kf in
          let here : net q ≡ net x = ap net ((==_iff q x).0 e) in
          let net' = at x (deliver_message id from) net in
          let ends =
            ap (λ t. handle_offer t (carries id o)) (at-here x q (deliver_message id from) net e)
            ∙ delivered-handle_offer (net q) id from o (ap (λ t. knows t id) here ∙ ku) in
          (
            suc n,
            ap (λ y. arrive q y (relay n net' id o)) ends
                ∙ relay-keeps n net id x (deliver_message id from) o from (publisher, o) ku way,
          )
      | inr e ↦
          let old = ap (λ t. knows t id) (at-other x q (deliver_message id from) net e) in
          let (n, way) = Spread-relay id publisher o fresh sp q (sym old ∙ k) in
          (n, relay-keeps n net id x (deliver_message id from) o q (publisher, o) ku way)
    ]

-- A query that no host knew spreads from its publisher. An offer for it that starts at any host that
-- has the query arrives, on streams that do not fail, at the receiver of the publisher.
pub relay-publisher :
    (id publisher : ℕ) (o : Offer) (net₀ net : Net) (p : ℕ)
    → ((q : ℕ) → knows (net₀ q) id ≡ false)
    → Spread id publisher net₀ net
    → knows (net p) id ≡ true
    → (n : ℕ) × (relay n net id o p ≡ some (publisher, o))
relay-publisher id publisher o net₀ net p fresh s h = Spread-relay id publisher o fresh s p h
