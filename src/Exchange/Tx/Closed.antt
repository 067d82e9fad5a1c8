-- ===== src/Exchange/Tx/Closed.antt =====
-- What Close of exchange/tx.go does to the blocks and to the context.
use pop.Common.{ℕ, Bool, true, ◌||◌, List, [], ◌∷◌, ◌++◌, none, some, if◌then◌else◌}
use pop.Exchange.Buckets.{is_in}
use pop.Exchange.Tx.{
  Tx, Effect, close_worker, unsubscribe, migrate_blocks, delete_store, cancel_context, Parts,
}

-- The blocks of the transaction's store and of the global one, and whether the context is cancelled.
pub record Blocks : Type 0 where
  pub own : List ℕ
  pub global : List ℕ
  pub cancelled : Bool

-- MigrateBlocks of internal/utils/stat.go copies every block, unless it returns an error; then it may
-- have copied none. A deletion that returns an error may have deleted all blocks.
unfoldable pub perform : Parts → Effect → Blocks → Blocks
perform parts close_worker b = b
perform parts unsubscribe b = b
perform parts migrate_blocks b = elim parts.migrate_error [
  | none ↦ record b { global = b.own ++ b.global }
  | some _ ↦ b
]
perform parts delete_store b = record b { own = [] }
perform parts cancel_context b = record b { cancelled = true }

unfoldable pub perform_all : Parts → List Effect → Blocks → Blocks
unfolding perform
perform_all parts [] b = b
perform_all parts (x ∷ xs) b = perform_all parts xs (perform parts x b)

-- Which stores have a block.
abbrev pub has : ℕ → Blocks → Bool
has k b = is_in k b.own || is_in k b.global

-- What is left after the store was deleted, with or without an error.
abbrev deleted : Parts → Blocks → Blocks
deleted parts b = record b {
  own = [];
  cancelled = elim parts.delete_error [ none ↦ true | some _ ↦ b.cancelled ];
}

abbrev dumped : Parts → Tx → Blocks → Blocks
dumped parts tx b =
    if tx.committed
    then if parts.is_gc_store
      then elim parts.migrate_error [
        | none ↦ deleted parts (record b { global = b.own ++ b.global })
        | some _ ↦ b
      ]
      else b
    else deleted parts b
