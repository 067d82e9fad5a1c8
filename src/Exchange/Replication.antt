-- ===== src/Exchange/Replication.antt =====
-- exchange/replication.go: the stores and the authorizations that a node keeps for content, the
-- validation of pulls, and the handler of requests. A stream's messages, the data transfer and the
-- multistore are what they answer: the states of a transfer come as a list of polls.
pub mod Dispatch
pub mod Pump
pub mod Handler
use pop.Common.{
  ℕ, Bool, true, false, ◌&&◌, ◌||◌, List, [], ◌∷◌, ◌++◌, Option, none, some, ◌==◌, if◌then◌else◌,
}
use pop.Common.Assoc.{find, put}
use pop.Common.Result.{Result, ok, err}
use pop.Common.Text.{String}
use pop.Exchange.Buckets.{is_in, add}
use pop.Exchange.Index.{Index, Storage, DataRef, peek_ref, set_ref}
use pop.Exchange.Interest.{Interests, interesting, drop_interest}

pub data Method : Type 0 where
  dispatch fetch_index : Method
  unknown : ℕ → Method

pub record Request : Type 0 where
  pub method : Method
  pub payload_cid : ℕ
  pub size : ℕ
  pub seed : List ℕ

pub record PRecord : Type 0 where
  pub provider : ℕ
  pub payload_cid : ℕ

-- The store of each root, the peers that may pull it, and the index.
pub record Replication : Type 0 where
  pub stores : List (ℕ × ℕ)
  pub pulls : List (ℕ × List ℕ)
  pub idx : Index

-- `get_error` is the multistore's answer for the store.
unfoldable pub add_store : Option String → ℕ → ℕ → Replication → Replication × Option String
unfolding put
add_store get_error k sid r = elim get_error [
  | some e ↦ (r, some e)
  | none ↦ (record r { stores = put k sid r.stores }, none)
]

-- `none` is the global store.
unfoldable pub get_store : Replication → ℕ → Option ℕ
unfolding find
get_store r k = find k r.stores

-- The keys of a map are distinct.
unfoldable pub delete_key : ℕ → List (ℕ × ℕ) → List (ℕ × ℕ)
delete_key k [] = []
delete_key k ((j, s) ∷ rest) =
    let later = delete_key k rest in if j == k then rest else (j, s) ∷ later

unfoldable pub rm_store : ℕ → Replication → Replication
unfolding delete_key
rm_store k r = record r { stores = delete_key k r.stores }

unfoldable pub authorize_pull : ℕ → ℕ → List (ℕ × List ℕ) → List (ℕ × List ℕ)
unfolding find put add
authorize_pull k p pulls = elim (find k pulls) [
  | some set ↦ put k (add p set) pulls
  | none ↦ put k (p ∷ []) pulls
]

unfoldable pub validate_push : Result (Unit {0})
validate_push = err "no pushed accepted"

-- `none` is a voucher of another type.
unfoldable pub validate_pull : List (ℕ × List ℕ) → Option Request → ℕ → ℕ → Result (Unit {0})
unfolding find is_in
validate_pull pulls voucher base_cid receiver = elim voucher [
  | none ↦ err "bad voucher"
  | some request ↦ elim request.method [
    | fetch_index ↦ ok tt
    | _ ↦ elim (find base_cid pulls) [
      | none ↦ err "unknown CID"
      | some set ↦ if is_in receiver set then ok tt else err "not authorized"
    ]
  ]
]

-- What TransportConfigurer has a transfer use.
pub data UseStore : Type 0 where
  no_store : UseStore
  root_store : Option ℕ → UseStore
  index_store : UseStore

abbrev pub is_fetch : Method → Bool
is_fetch dispatch = false
is_fetch fetch_index = true
is_fetch (unknown _) = false

abbrev pub is_dispatch : Method → Bool
is_dispatch dispatch = true
is_dispatch fetch_index = false
is_dispatch (unknown _) = false

unfoldable pub configure : Replication → ℕ → ℕ → Option Request → Bool → UseStore
unfolding get_store
configure r self initiator voucher configurable = elim voucher [
  | none ↦ no_store
  | some request ↦
      if configurable
      then if (is_fetch request.method && (initiator == self)) || is_dispatch request.method
        then root_store (get_store r request.payload_cid)
        else if is_fetch request.method
        then index_store
        else no_store
      else no_store
]

-- One look at the state of a transfer.
pub data Poll : Type 0 where
  poll_error : String → Poll
  failed cancelled completed under_way : Poll

pub data TransferEnd : Type 0 where
  given_up : String → TransferEnd
  received : TransferEnd
  polling : TransferEnd

-- The loop looks again until the transfer ends; `polling` means that it has not yet. The state's message
-- is left out of the error.
unfoldable pub transfer_end : List Poll → TransferEnd
transfer_end [] = polling
transfer_end (poll_error e ∷ polls) = given_up e
transfer_end (failed ∷ polls) = given_up "data transfer failed"
transfer_end (cancelled ∷ polls) = given_up "data transfer cancelled"
transfer_end (completed ∷ polls) = received
transfer_end (under_way ∷ polls) = transfer_end polls

-- The answers that a handler or a fetch gets.
pub record Services : Type 0 where
  pub next_store : ℕ
  pub get_error : Option String
  pub open_error : Option String
  pub polls : List Poll
  pub write_error : Option String
  pub loadable_keys : Result (List ℕ)
  pub migrate_error : Option String

-- The fetch of a peer's index, and how it ends.
unfoldable pub fetch : Services → ℕ → Replication → Replication × TransferEnd
unfolding add_store transfer_end
fetch services root r =
    let (r', error) = add_store services.get_error root services.next_store r in
    elim error [
      | some e ↦ (r', given_up e)
      | none ↦ elim services.open_error [
        | some e ↦ (r', given_up e)
        | none ↦ (r', transfer_end services.polls)
      ]
    ]

-- What a peer does with a request: no stream opens, the request cannot be written, or a response comes,
-- which has no proof if it cannot be read.
pub data PeerAnswer : Type 0 where
  no_stream no_write : PeerAnswer
  responds : Result (Option ℕ) → PeerAnswer

abbrev pub proves : PeerAnswer → Bool
proves no_stream = false
proves no_write = false
proves (responds (err _)) = false
proves (responds (ok none)) = false
proves (responds (ok (some _))) = true

unfoldable pub send_all_requests : (ℕ → PeerAnswer) → ℕ → List ℕ → List PRecord
send_all_requests answers root [] = []
send_all_requests answers root (p ∷ ps) =
    let rest = send_all_requests answers root ps in
    if proves (answers p) then record { provider = p; payload_cid = root } ∷ rest else rest

-- One tick of refreshIndex over the refs that are of interest: what was retrieved leaves the interests, and an
-- event is emitted for it. `retrieve` is FindAndRetrieve.
unfoldable pub refresh : (ℕ → Option String) → List ℕ → Interests → List ℕ → Interests × List ℕ
unfolding drop_interest
refresh retrieve [] i emitted = (i, emitted)
refresh retrieve (k ∷ ks) i emitted =
    let dropped : Interests = elim (drop_interest k i) [ ok i' ↦ i' | err _ ↦ i ] in
    let skipped = refresh retrieve ks i emitted in
    let taken = refresh retrieve ks dropped (emitted ++ (k ∷ [])) in
    elim (retrieve k) [ some _ ↦ skipped | none ↦ taken ]

unfoldable pub refresh_index : (ℕ → Option String) → Index → Interests → Interests × List ℕ
unfolding interesting refresh
refresh_index retrieve idx i = elim (interesting idx i) [
  | err _ ↦ (i, [])
  | ok refs ↦ refresh retrieve refs i []
]
