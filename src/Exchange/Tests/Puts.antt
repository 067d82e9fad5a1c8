-- ===== src/Exchange/Tests/Puts.antt =====
-- The theorems on the entries and the end of a transaction, at one with an entry.
use pop.Common.{
  ℕ, ◌+◌, ◌≡◌, refl, arith, true, false, List, [], ◌∷◌, none, ◌==◌, if◌then◌else◌, length,
}
use pop.Common.Int.{pos}
use pop.Common.Result.{Result, ok, err}
use pop.Exchange.Dag.{Entry, LinkSystem, links_of}
use pop.Exchange.Tx.{Tx, put_entry, sort_entries, get_entry, put, Parts}
use pop.Exchange.Tx.Built.{put-get_entry}
use pop.Exchange.Tx.Closed.{Blocks}
use pop.Exchange.Tests.Transfers.{tx_with, entries}

abbrev parts : Parts
parts = record {
  has_worker = true;
  has_unsub = false;
  is_gc_store = true;
  migrate_error = none;
  delete_error = none;
}

abbrev committed : Tx
committed = record (tx_with [] entries) { committed = true }

abbrev blocks : Blocks
blocks = record { own = 20 ∷ 21 ∷ []; global = 7 ∷ []; cancelled = false }

-- The CID is 100 more than the number of entries; the store loads the node that was put, with the two
-- entries that the transaction has then.
abbrev store_node : ℕ → List Entry → Result ℕ
store_node codec es = ok (100 + length es)

abbrev first_entry : Entry
first_entry = record { key = 9; value = 21; size = pos 4 }

abbrev put_entries : List Entry
put_entries = record { key = 7; value = 20; size = pos 5 } ∷ first_entry ∷ []

abbrev own : LinkSystem
own = record {
  choose_error = λ _. none;
  load =
      λ c. if c == 102 then ok (record { links = ok (links_of put_entries) }) else err "not found";
}

loads_stored :
    (c : ℕ)
    → store_node 113
        (sort_entries (put_entry (record { key = 7; value = 20; size = pos 5 }) (first_entry ∷ [])))
      ≡ ok c
    → own.load c ≡ ok (record { links = ok (links_of put_entries) })
unfolding put_entry sort_entries
loads_stored c h = ground (arith, h)

abbrev before_put : Tx
before_put = tx_with [] (first_entry ∷ [])

abbrev after_put : Tx
after_put = record (tx_with [] (first_entry ∷ record { key = 7; value = 20; size = pos 5 } ∷ [])) {
  root = 102;
  size = pos 9;
}

one_put : put store_node 7 20 (pos 5) before_put ≡ (after_put, none)
unfolding put
one_put = refl

put-get_entry_example : get_entry after_put 9 own ≡ ok first_entry
unfolding sort_entries put_entry
put-get_entry_example =
    put-get_entry store_node own 7 20 (pos 5) before_put after_put loads_stored one_put after_put 9
      refl refl
