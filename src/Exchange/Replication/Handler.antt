-- ===== src/Exchange/Replication/Handler.antt =====
-- The handler of requests in exchange/replication.go: what it writes, pulls and stores.
pub mod Stored
use pop.Common.{
  ℕ, Bool, true, false, ◌&&◌, ◌||◌, List, [], ◌∷◌, ◌++◌, Option, none, some, ◌==◌, if◌then◌else◌,
}
use pop.Common.Assoc.{find, put}
use pop.Common.Result.{Result, ok, err}
use pop.Common.Text.{String}
use pop.Exchange.Buckets.{is_in, add}
use pop.Exchange.Index.{Index, Storage, DataRef, peek_ref, set_ref}
use pop.Exchange.Interest.{Interests, interesting, drop_interest}
use pop.Exchange.Replication.{
  Request, Replication, Services, TransferEnd, given_up, received, polling, transfer_end, add_store,
  fetch, is_dispatch,
}

-- What the handler of a stream wrote, the state that it left, and whether it deleted the new store.
pub record Handling : Type 0 where
  pub response : Option (Option ℕ)
  pub state : Replication
  pub deleted : Bool

abbrev pub ref_for : Request → Result (List ℕ) → DataRef
ref_for req loadable = record {
  payload_cid = req.payload_cid;
  payload_size = req.size;
  keys = elim loadable [ ok ks ↦ ks | err _ ↦ [] ];
  freq = 0;
  bucket_id = 0;
  bucket_node = none;
}

module _ (storage : Storage) (services : Services) where
  -- The transfer is complete: the blocks go to the global store, then the ref to the index.
  unfoldable pub take_over : Request → Replication → Replication × Bool
  take_over req r = elim services.migrate_error [
    | some e ↦ (r, false)
    | none ↦
        (record r { idx = (set_ref storage r.idx (ref_for req services.loadable_keys)).0 }, true)
  ]

  unfoldable pub pull : Request → Replication → Replication × Bool
  unfolding fetch take_over
  pull req r =
      let (r', ended) = fetch services req.payload_cid r in
      elim ended [ given_up _ ↦ (r', false) | polling ↦ (r', false) | received ↦ take_over req r' ]

  -- A request that is known has a proof for an answer and is not pulled.
  unfoldable pub answer : Request → Replication → Handling
  unfolding peek_ref pull
  answer req r = elim (peek_ref r.idx req.payload_cid) [
    | ok _ ↦ record { response = some (some req.payload_cid); state = r; deleted = false }
    | err _ ↦ elim services.write_error [
      | some _ ↦ record { response = some none; state = r; deleted = false }
      | none ↦
          let (r', deleted) = pull req r in
          record { response = some none; state = r'; deleted = deleted }
    ]
  ]

  -- Only dispatches are sent by stream.
  unfoldable pub handle_request : Result Request → Replication → Handling
  unfolding answer
  handle_request (err _) r = record { response = none; state = r; deleted = false }
  handle_request (ok req) r =
      if is_dispatch req.method
      then answer req r
      else record { response = none; state = r; deleted = false }
