-- ===== src/Exchange/Replication/Handler/Stored.antt =====
-- When the handler of requests (exchange/replication.go) changes the index.
use pop.Common.{◌≡◌, arith, true, false, none}
use pop.Common.Result.{ok, err}
use pop.Exchange.Index.{Storage, peek_ref, set_ref, not_found}
use pop.Exchange.Replication.{Request, Replication, Services, received, transfer_end, is_dispatch}
use pop.Exchange.Replication.Handler.{ref_for, handle_request}

module _ (storage : Storage) (services : Services) where
  -- The handler deletes the store that it opened only when a dispatch of content that the index does
  -- not have was answered, the transfer is complete and its blocks are in the global store; then it has
  -- set the ref of the content. In every other case the index is as it was.
  pub handle_request-idx :
      (req : Request) (r : Replication)
      → let h = handle_request storage services (ok req) r in
        (h.deleted ≡ true
          → (is_dispatch req.method ≡ true)
            × (peek_ref r.idx req.payload_cid ≡ err not_found)
            × (services.write_error ≡ none)
            × (services.get_error ≡ none)
            × (services.open_error ≡ none)
            × (transfer_end services.polls ≡ received)
            × (services.migrate_error ≡ none)
            × (h.state.idx ≡ (set_ref storage r.idx (ref_for req services.loadable_keys)).0))
        × (h.deleted ≡ false → h.state.idx ≡ r.idx)
  unfolding handle_request
  handle_request-idx req r = ground arith
