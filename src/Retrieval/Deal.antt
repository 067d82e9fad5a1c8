-- ===== src/Retrieval/Deal.antt =====
-- retrieval/deal/types.go: the terms of a deal, the states of its two sides and the messages between
-- them. A CID, an address, a peer, a transfer channel and a store are numbers; 0 is `Undef`.
pub mod Schedule
use pop.Common.{
  ℕ, zero, suc, ◌+◌, Bool, true, false, not, ◌&&◌, List, [], ◌∷◌, Option, none, some, ltb, leb,
  ◌==◌, u64, if◌then◌else◌,
}
use pop.Common.Int.{ℤ, to_int64, ◌+ℤ◌, ◌*ℤ◌}
use pop.Common.Text.{String}
use pop.Payments.Voucher.{SignedVoucher}
use pop.Retrieval.Status.{Status}

-- `Selector` holds the raw CBOR of a selector, if one was given.
pub record Params : Type 0 where
  pub selector : Option (List ℕ)
  pub piece_cid : Option ℕ
  pub price_per_byte : ℤ
  pub payment_interval : ℕ
  pub payment_interval_increase : ℕ
  pub unseal_price : ℤ

unfoldable pub bytes_equal : List ℕ → List ℕ → Bool
bytes_equal [] [] = true
bytes_equal (x ∷ xs) (y ∷ ys) = x == y && bytes_equal xs ys
bytes_equal _ _ = false

-- The CBOR null is the byte 0xf6.
abbrev pub cbor_null : List ℕ
cbor_null = 0xf6 ∷ []

unfoldable pub selector_specified : Params → Bool
unfolding bytes_equal
selector_specified p = elim p.selector [ none ↦ false | some raw ↦ not (bytes_equal raw cbor_null) ]

-- The loops of `IntervalLowerBound` and `NextInterval` over uint64 words; `none` means that the
-- fuel ran out.
pub lower_bound_from : ℕ → ℕ → ℕ → ℕ → ℕ → ℕ → Option ℕ
lower_bound_from zero increase current lower target size = none
lower_bound_from (suc fuel) increase current lower target size =
    let rest =
      lower_bound_from fuel increase current target (u64 (target + size)) (u64 (size + increase)) in
    if ltb target current then rest else some lower

pub next_from : ℕ → ℕ → ℕ → ℕ → ℕ → Option ℕ
next_from zero increase current next size = none
next_from (suc fuel) increase current next size =
    let rest = next_from fuel increase current (u64 (next + size)) (u64 (size + increase)) in
    if leb next current then rest else some next

unfoldable pub interval_lower_bound : Params → ℕ → Option ℕ
unfolding lower_bound_from
interval_lower_bound p current =
    lower_bound_from (current + 3) p.payment_interval_increase current 0 0 p.payment_interval

unfoldable pub next_interval : Params → ℕ → Option ℕ
unfolding next_from
next_interval p current =
    next_from (current + 3) p.payment_interval_increase current 0 p.payment_interval

pub record Proposal : Type 0 where
  pub payload_cid : ℕ
  pub id : ℕ
  pub params : Params
  pub open params use *

pub record PaymentInfo : Type 0 where
  pub pay_ch : ℕ
  pub lane : ℕ

pub record ClientState : Type 0 where
  pub proposal : Proposal
  pub open proposal use *
  pub store_id : Option ℕ
  pub channel_id : ℕ
  pub last_payment_requested : Bool
  pub all_blocks_received : Bool
  pub total_funds : ℤ
  pub client_wallet : ℕ
  pub miner_wallet : ℕ
  pub payment_info : Option PaymentInfo
  pub status : Status
  pub sender : ℕ
  pub total_received : ℕ
  pub message : String
  pub bytes_paid_for : ℕ
  pub current_interval : ℕ
  pub payment_requested : ℤ
  pub funds_spent : ℤ
  pub unseal_funds_paid : ℤ
  pub wait_msg_cid : Option ℕ
  pub voucher_shortfall : ℤ

pub record DealIdentifier : Type 0 where
  pub peer : ℕ
  pub deal_id : ℕ

pub record ProviderState : Type 0 where
  pub proposal : Proposal
  pub open proposal use *
  pub store_id : ℕ
  pub channel_id : ℕ
  pub status : Status
  pub receiver : ℕ
  pub total_sent : ℕ
  pub funds_received : ℤ
  pub message : String
  pub current_interval : ℕ
  pub pay_ch : Option ℕ

unfoldable pub identifier : ProviderState → DealIdentifier
identifier d = record { peer = d.receiver; deal_id = d.id }

pub record Response : Type 0 where
  pub status : Status
  pub id : ℕ
  pub payment_owed : ℤ
  pub message : String

-- What a client sends to pay.
pub record Payment : Type 0 where
  pub id : ℕ
  pub payment_channel : ℕ
  pub payment_voucher : Option SignedVoucher

pub data QueryResponseStatus : Type 0 where
  response_available response_unavailable response_error : QueryResponseStatus

pub data QueryItemStatus : Type 0 where
  item_available item_unavailable item_unknown : QueryItemStatus

pub record QueryResponse : Type 0 where
  pub status : QueryResponseStatus
  pub piece_cid_found : QueryItemStatus
  pub size : ℕ
  pub payment_address : ℕ
  pub min_price_per_byte : ℤ
  pub max_payment_interval : ℕ
  pub max_payment_interval_increase : ℕ
  pub message : String
  pub unseal_price : ℤ

unfoldable pub piece_retrieval_price : QueryResponse → ℤ
piece_retrieval_price q = q.min_price_per_byte *ℤ to_int64 q.size +ℤ q.unseal_price

pub record Offer : Type 0 where
  pub id : String
  pub peer_addr : List ℕ
  pub payload_cid : ℕ
  pub size : ℕ
  pub payment_address : ℕ
  pub min_price_per_byte : ℤ
  pub max_payment_interval : ℕ
  pub max_payment_interval_increase : ℕ
  pub unseal_price : ℤ

unfoldable pub retrieval_price : Offer → ℤ
retrieval_price o = o.min_price_per_byte *ℤ to_int64 o.size

unfoldable pub as_query_response : Offer → QueryResponse
as_query_response o = record {
  status = response_available;
  piece_cid_found = item_available;
  size = o.size;
  payment_address = o.payment_address;
  min_price_per_byte = o.min_price_per_byte;
  max_payment_interval = o.max_payment_interval;
  max_payment_interval_increase = o.max_payment_interval_increase;
  message = "";
  unseal_price = o.unseal_price;
}
