-- ===== src/Retrieval/Revalidator/State.antt =====
-- The table of tracked channels of retrieval/validators.go, and the amounts that it computes.
use pop.Common.{
  ℕ, ◌+◌, ◌-◌, Bool, false, List, [], ◌∷◌, Option, none, some, ◌==◌, u64, if◌then◌else◌,
}
use pop.Common.Int.{ℤ, pos, ◌-ℤ◌, ◌*ℤ◌, div_ℤ, max_ℤ, to_int64, to_uint64, ltb_ℤ, is_zero}
use pop.Common.Result.{Result}
use pop.Common.Text.{String}
use pop.Payments.Voucher.{SignedVoucher}
use pop.Retrieval.Status.{Status}
use pop.Retrieval.Deal.{ProviderState, DealIdentifier, Response, identifier, interval_lower_bound}
use pop.Retrieval.Provider.Event.{Event}

pub record ChannelData : Type 0 where
  pub deal_id : DealIdentifier
  pub total_sent : ℕ
  pub total_paid_for : ℕ
  pub interval : ℕ
  pub price_per_byte : ℤ
  pub reload : Bool

-- The map `trackedChannels`.
abbrev pub Tracked : Type 0
Tracked = List (ℕ × ChannelData)

unfoldable pub lookup : ℕ → Tracked → Option ChannelData
lookup k [] = none
lookup k ((j, c) ∷ t) = if j == k then some c else lookup k t

unfoldable pub insert : ℕ → ChannelData → Tracked → Tracked
insert k c [] = (k, c) ∷ []
insert k c ((j, b) ∷ t) = if j == k then (k, c) ∷ t else (j, b) ∷ insert k c t

unfoldable pub delete : ℕ → Tracked → Tracked
delete k [] = []
delete k ((j, b) ∷ t) = if j == k then delete k t else (j, b) ∷ delete k t

-- `send_event` answers whether the deal's machine took the event.
pub record RevalidatorEnvironment : Type 0 where
  pub get : DealIdentifier → Result ProviderState
  pub send_event : DealIdentifier → Event → Option String
  pub add_voucher_inbound : ℕ → Option SignedVoucher → ℤ → Result ℤ

-- `pause` and `resume` are the errors ErrPause and ErrResume of the data transfer.
pub data Error : Type 0 where
  nil pause resume : Error
  failed : String → Error

abbrev pub from_send : Option String → Error
from_send none = nil
from_send (some e) = failed e

pub record Reply : Type 0 where
  pub handled : Bool
  pub response : Option Response
  pub error : Error

-- The bytes that the money received has paid for.
unfoldable pub write_deal_state : ProviderState → ChannelData → ChannelData
write_deal_state d c =
    let paid =
      if is_zero d.price_per_byte
      then c.total_paid_for
      else to_uint64
          (div_ℤ (max_ℤ (d.funds_received -ℤ d.unseal_price) (pos 0)) d.price_per_byte) in
    record c {
      total_sent = d.total_sent;
      total_paid_for = paid;
      interval = d.current_interval;
      price_per_byte = d.price_per_byte;
    }

unfoldable pub track_channel : ProviderState → Tracked → Tracked
unfolding write_deal_state identifier
track_channel d t = insert d.channel_id (write_deal_state d fresh) t
  where
    fresh : ChannelData
    fresh = record {
      deal_id = identifier d;
      total_sent = 0;
      total_paid_for = 0;
      interval = 0;
      price_per_byte = pos 0;
      reload = false;
    }

unfoldable pub untrack_channel : ProviderState → Tracked → Tracked
unfolding delete
untrack_channel d t = delete d.channel_id t

-- The price of the interval's lower bound, less what was paid for the data.
unfoldable pub owed_above : ProviderState → ℤ → Option ℕ → Option ℤ
owed_above d total_paid none = none
owed_above d total_paid (some lower) =
    some (to_int64 lower *ℤ d.price_per_byte -ℤ (total_paid -ℤ d.unseal_price))

-- What is still owed once `total_paid` is received; `none` where the interval loop does not return.
unfoldable pub payment_owed : ProviderState → ℤ → Option ℤ
unfolding owed_above
payment_owed d total_paid =
    if ltb_ℤ total_paid d.unseal_price
    then some (d.unseal_price -ℤ total_paid)
    else owed_above d total_paid (interval_lower_bound d.params d.current_interval)

unfoldable pub error_deal_response : DealIdentifier → String → Response
error_deal_response id e = record {
  status = Status.errored;
  id = id.deal_id;
  payment_owed = pos 0;
  message = e;
}

-- The price of the bytes that were sent and not paid for; the difference is a uint64.
unfoldable pub unpaid : ChannelData → ℤ
unpaid c =
    to_int64 (u64 (c.total_sent + 18446744073709551616 - c.total_paid_for)) *ℤ c.price_per_byte
