-- ===== src/Exchange/Routing.antt =====
-- exchange/routing.go: opening streams, asking for offers, and the offers that come back. Streams,
-- topics and the messages on them are what they answer; a message ID is a number.
pub mod Opened
pub mod Relay
use pop.Common.{
  ℕ, zero, suc, ◌+◌, Bool, true, false, List, [], ◌∷◌, ◌++◌, Option, none, some, ◌==◌,
  if◌then◌else◌,
}
use pop.Common.Assoc.{find, put}
use pop.Common.Int.{ℤ}
use pop.Common.Result.{Result, ok, err, ◌>>=◌, wrap}
use pop.Common.Text.{String, ◌+++◌}
use pop.Exchange.Buckets.{is_in, add}
use pop.Retrieval.Deal.{Offer, QueryResponse}

abbrev pub max_stream_open_attempts : ℕ
max_stream_open_attempts = 5

-- After a try, the counter of the backoff being `attempt`: the number of tries so far with their result,
-- or what the next tries give.
unfoldable pub after_try : ℕ → Result ℕ → Option (ℕ × Result ℕ) → Option (ℕ × Result ℕ)
after_try attempt (ok s) rest = some (attempt + 1, ok s)
after_try attempt (err e) rest =
    if attempt == max_stream_open_attempts
    then some (attempt + 1, err ("exhausted 5 attempts but failed to open stream, err: " +++ e))
    else rest

-- The loop of OpenStream; `none` means that the fuel ran out.
unfoldable pub open_from : (ℕ → Result ℕ) → ℕ → ℕ → Option (ℕ × Result ℕ)
unfolding after_try
open_from tries zero attempt = none
open_from tries (suc fuel) attempt =
    after_try attempt (tries attempt) (open_from tries fuel (attempt + 1))

unfoldable pub open_stream : (ℕ → Result ℕ) → Option (ℕ × Result ℕ)
unfolding open_from
open_stream tries = open_from tries 6 0

-- Which messages this host published, and from whom it got the others.
pub record GossipTracer : Type 0 where
  pub published : List ℕ
  pub senders : List (ℕ × ℕ)

pub data TraceEvent : Type 0 where
  publish_message : ℕ → TraceEvent
  deliver_message : ℕ → ℕ → TraceEvent
  other_event : TraceEvent

unfoldable pub new_tracer : GossipTracer
new_tracer = record { published = []; senders = [] }

unfoldable pub trace : TraceEvent → GossipTracer → GossipTracer
unfolding add put
trace (publish_message id) gt = record gt { published = add id gt.published }
trace (deliver_message id from) gt = record gt { senders = put id from gt.senders }
trace other_event gt = gt

unfoldable pub was_published : GossipTracer → ℕ → Bool
unfolding is_in
was_published gt id = is_in id gt.published

unfoldable pub sender : GossipTracer → ℕ → Result ℕ
unfolding find
sender gt id = elim (find id gt.senders) [ none ↦ err "no sender found" | some p ↦ ok p ]

-- What becomes of an offer that arrives: it is forwarded, it goes to the receiver, or it is dropped.
pub data OfferEnd : Type 0 where
  forwarded : ℕ → OfferEnd
  taken : Offer → OfferEnd
  dropped : String → OfferEnd

-- The stream with the offer, the stream to the next host, and whether a receiver is set.
pub record OfferStream : Type 0 where
  pub peeked_id : Result ℕ
  pub decoded : Result Offer
  pub open_next : ℕ → Result ℕ
  pub copy_error : Option String
  pub has_receiver : Bool

unfoldable pub pass_on : OfferStream → ℕ → OfferEnd
pass_on s to = elim (s.open_next to) [
  | err e ↦ dropped e
  | ok w ↦ elim s.copy_error [ some e ↦ dropped e | none ↦ forwarded to ]
]

unfoldable pub receive : OfferStream → OfferEnd
receive s =
    if s.has_receiver
    then elim s.decoded [ err e ↦ dropped e | ok o ↦ taken o ]
    else dropped "no receiver"

unfoldable pub handle_offer : GossipTracer → OfferStream → OfferEnd
unfolding was_published sender pass_on receive
handle_offer meta s = elim s.peeked_id [
  | err e ↦ dropped e
  | ok id ↦
      if was_published meta id
      then receive s
      else elim (sender meta id) [ err e ↦ dropped e | ok to ↦ pass_on s to ]
]

-- The fields of an encoded offer: the ID is the value of the last field of this name.
unfoldable pub peek_offer_id : List (Bool × Result String) → String → Result String
peek_offer_id [] msg = ok msg
peek_offer_id ((is_id, value) ∷ fields) msg =
    let skipped = peek_offer_id fields msg in
    if is_id then (value >>= λ v. peek_offer_id fields v) else skipped

-- One message of a subscription, and the offer that is sent back for it, if one is.
pub record GossipMessage : Type 0 where
  pub from : ℕ
  pub id : String
  pub offer : Result Offer
  pub stream : Result ℕ
  pub addrs : Result (List (List ℕ))
  pub write_error : Option String

unfoldable pub respond : ℕ → GossipMessage → Option Offer
respond self msg = if msg.from == self then none else elim msg.offer [
  | err _ ↦ none
  | ok offer ↦ elim msg.stream [
    | err _ ↦ none
    | ok _ ↦ elim msg.addrs [
      | err _ ↦ none
      | ok [] ↦ none
      | ok (a ∷ _) ↦ elim msg.write_error [
        | some _ ↦ none
        | none ↦ some (record offer { id = msg.id; peer_addr = a })
      ]
    ]
  ]
]

-- The answers to a query that is sent to one provider.
pub record QueryStream : Type 0 where
  pub params : Result (List ℕ)
  pub stream : Result ℕ
  pub write_error : Option String
  pub response : Result QueryResponse
  pub addr : Result (List ℕ)

-- The error of NewQueryStream is not tested, so that a stream that is nil is used.
unfoldable pub query_provider : QueryStream → ℕ → Result Offer
query_provider q root = q.params >>= λ params. elim q.stream [
  | err _ ↦ err "invalid memory address or nil pointer dereference"
  | ok _ ↦ elim q.write_error [
    | some e ↦ err e
    | none ↦ q.response >>= λ res. q.addr >>= λ addr. ok (record {
      id = "";
      peer_addr = addr;
      payload_cid = root;
      size = res.size;
      payment_address = res.payment_address;
      min_price_per_byte = res.min_price_per_byte;
      max_payment_interval = res.max_payment_interval;
      max_payment_interval_increase = res.max_payment_interval_increase;
      unseal_price = res.unseal_price;
    })
  ]
]

-- The topics to which the query was published, up to one that refuses it.
unfoldable pub publish : (ℕ → Option String) → List ℕ → List ℕ × Option String
publish refuses [] = ([], none)
publish refuses (t ∷ ts) =
    let (rest, error) = publish refuses ts in
    elim (refuses t) [ some e ↦ ([], some e) | none ↦ (t ∷ rest, error) ]

unfoldable pub query : Result (List ℕ) → (ℕ → Option String) → List ℕ → List ℕ × Option String
unfolding publish
query params refuses tops = elim params [ err e ↦ ([], some e) | ok _ ↦ publish refuses tops ]
