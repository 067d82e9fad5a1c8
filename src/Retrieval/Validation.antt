-- ===== src/Retrieval/Validation.antt =====
-- ProviderRequestValidator of retrieval/validators.go, with CheckDealParams of
-- retrieval/environments.go: which requests to pull data become deals.
use pop.Common.{
  ℕ, ◌≤◌, ◌≡◌, arith, Bool, false, not, List, Option, none, some, ltb, ◌==◌, if◌then◌else◌,
}
use pop.Common.Int.{pos, ltb_ℤ, ◌≤ℤ◌}
use pop.Common.Result.{Result, ok, err}
use pop.Common.Text.{String}
use pop.Retrieval.Status.{Status}
use pop.Retrieval.Deal.{Proposal, ProviderState, Response, Offer, selector_specified, bytes_equal}

-- The offer that the provider has for the content decides.
unfoldable pub check_deal_params : Offer → ProviderState → Result (Unit {0})
check_deal_params offer d =
    if ltb_ℤ d.price_per_byte offer.min_price_per_byte
    then err "price per byte too low"
    else if ltb offer.max_payment_interval d.payment_interval
    then err "payment interval too large"
    else if ltb offer.max_payment_interval_increase d.payment_interval_increase
    then err "payment interval increase too large"
    else ok tt

-- `offer_for` is the offer store's GetOfferForCid, `begin_tracking` the start of a state machine.
pub record ValidationEnvironment : Type 0 where
  pub offer_for : ℕ → Offer
  pub begin_tracking : ProviderState → Result (Unit {0})

-- `GetStoreID` answers 0 for every content.
unfoldable pub get_store_id : ℕ → Result ℕ
get_store_id cid = ok 0

-- What a validation returns: a response that is nil or not, an error that is nil or not.
pub record Verdict : Type 0 where
  pub response : Option Response
  pub error : Option String
  pub tracked : Option ProviderState

abbrev refuse : String → Verdict
refuse e = record { response = none; error = some e; tracked = none }

unfoldable pub validate_push : Verdict
validate_push = refuse "No pushes accepted"

-- The selector that the proposal names, or that of everything.
unfoldable pub expected_selector : List ℕ → Proposal → List ℕ
expected_selector all_selector proposal = elim proposal.selector [
  | none ↦ all_selector
  | some raw ↦ if selector_specified proposal.params then raw else all_selector
]

module _ (env : ValidationEnvironment) where
  unfoldable pub accept_deal : ProviderState → ProviderState × Status × Option String
  unfolding check_deal_params get_store_id
  accept_deal d = elim (check_deal_params (env.offer_for d.payload_cid) d) [
    | err e ↦ (d, Status.rejected, some e)
    | ok _ ↦ elim (get_store_id d.payload_cid) [
      | err e ↦ (d, Status.deal_not_found, some e)
      | ok id ↦ (record d { store_id = id }, Status.accepted, none)
    ]
  ]

  -- The deal that a proposal opens. A field that the code does not set has Go's zero value.
  unfoldable pub opening : ℕ → Proposal → ℕ → ProviderState
  opening channel proposal receiver = record {
    proposal = proposal;
    store_id = 0;
    channel_id = channel;
    status = Status.new;
    receiver = receiver;
    total_sent = 0;
    funds_received = pos 0;
    message = "";
    current_interval = proposal.payment_interval;
    pay_ch = none;
  }

  unfoldable pub decide : Proposal → ProviderState × Status × Option String → Verdict
  decide proposal (d, status, some e) = record {
    response =
        some (record { status = status; id = proposal.id; payment_owed = pos 0; message = e });
    error = some e;
    tracked = none;
  }
  decide proposal (d, status, none) = elim (env.begin_tracking d) [
    | err e ↦ refuse e
    | ok _ ↦ record {
      response =
          some (record { status = status; id = proposal.id; payment_owed = pos 0; message = "" });
      error = none;
      tracked = some d;
    }
  ]

  -- `selector` is the request's selector in CBOR, or why it has none; `all_selector` that of all.
  -- The voucher is a proposal or something else.
  unfoldable pub validate_pull :
      List ℕ → Bool → ℕ → ℕ → Option Proposal → ℕ → Result (List ℕ) → Verdict
  unfolding accept_deal opening decide expected_selector
  validate_pull all_selector is_restart channel receiver voucher base_cid selector = elim voucher [
    | none ↦ refuse "wrong voucher type"
    | some proposal ↦
        if not (proposal.payload_cid == base_cid)
        then refuse "incorrect CID for this proposal"
        else elim selector [
          | err e ↦ refuse e
          | ok encoded ↦
              if not (bytes_equal encoded (expected_selector all_selector proposal))
              then refuse "incorrect selector for this proposal"
              else if is_restart
              then record { response = none; error = none; tracked = none }
              else decide proposal (accept_deal (opening channel proposal receiver))
        ]
  ]

-- The terms that the offer asks for.
pub record Acceptable (o : Offer) (d : ProviderState) : Type 0 where
  pub price : o.min_price_per_byte ≤ℤ d.price_per_byte
  pub interval : d.payment_interval ≤ o.max_payment_interval
  pub increase : d.payment_interval_increase ≤ o.max_payment_interval_increase

-- A deal that a pull request opens meets the offer for its content and is the one that the request
-- names; it starts new, in its first interval, with nothing sent or received. No restart opens one.
pub validate_pull-tracked :
    (env : ValidationEnvironment) (all_selector : List ℕ) (is_restart : Bool) (channel receiver : ℕ)
    (voucher : Option Proposal) (base_cid : ℕ) (selector : Result (List ℕ)) (d : ProviderState)
    → (validate_pull env all_selector is_restart channel receiver voucher base_cid selector).tracked
      ≡ some d
    → Acceptable (env.offer_for base_cid) d
      × (voucher ≡ some d.proposal)
      × (d.payload_cid ≡ base_cid)
      × (is_restart ≡ false)
      × (d.status ≡ Status.new)
      × (d.current_interval ≡ d.payment_interval)
      × (d.total_sent ≡ 0)
      × (d.funds_received ≡ pos 0)
unfolding validate_pull
validate_pull-tracked env all is_restart channel receiver none base_cid selector d h = cc
validate_pull-tracked env all is_restart channel receiver (some p) base_cid (err e) d h =
    ground arith
validate_pull-tracked env all is_restart channel receiver (some p) base_cid (ok encoded) d h =
    ground arith
