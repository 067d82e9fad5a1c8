-- ===== src/Exchange/Tx.antt =====
-- A transaction of exchange/tx.go: its entries and the root that is built of them, what it reads of
-- its root, committing and closing it. A read of the index by GetRef moves the ref up, so every
-- operation that calls it also returns the index. The global block store and the store of the
-- transaction are two link systems.
pub mod Built
pub mod Closed
pub mod Execute
use pop.Common.{
  ℕ, Bool, true, false, not, ◌&&◌, List, [], ◌∷◌, ◌++◌, Option, none, some, ltb, ◌==◌,
  if◌then◌else◌, map,
}
use pop.Common.Int.{ℤ, pos, pos_part, ltb_ℤ}
use pop.Common.Result.{Result, ok, err, ◌>>=◌, wrap}
use pop.Common.Text.{String, ◌+++◌}
use pop.Exchange.Buckets.{is_in}
use pop.Exchange.Index.{Index, Storage, DataRef, get_ref}
use pop.Exchange.Dag.{
  Entry, Node, LinkSystem, add_int64, find_entry, read_entries, map_loadable_keys, links_of,
}

-- The text "" and the text "*".
abbrev pub no_key : ℕ
no_key = 0

abbrev pub star : ℕ
star = 42

pub record Tx : Type 0 where
  pub store_id : ℕ
  pub entries : List Entry
  pub client_addr : ℕ
  pub root : ℕ
  pub size : ℤ
  pub codec : ℕ
  pub paths : List ℕ
  pub committed : Bool
  pub error : Option String
  pub closed : Bool

-- A map assignment: one entry for a key.
unfoldable pub put_entry : Entry → List Entry → List Entry
put_entry e [] = e ∷ []
put_entry e (x ∷ es) = let later = put_entry e es in if x.key == e.key then e ∷ es else x ∷ later

unfoldable pub insert_entry : Entry → List Entry → List Entry
insert_entry e [] = e ∷ []
insert_entry e (x ∷ es) =
    let later = insert_entry e es in if ltb x.key e.key then x ∷ later else e ∷ x ∷ es

unfoldable pub sort_entries : List Entry → List Entry
unfolding insert_entry
sort_entries [] = []
sort_entries (e ∷ es) = insert_entry e (sort_entries es)

unfoldable pub root_proto : ℕ → Result (Unit {0})
root_proto codec =
    if codec == 0x70 then ok tt else if codec == 0x71 then ok tt else err "codec invalid"

unfoldable pub total_size : List Entry → ℤ
unfolding add_int64
total_size [] = pos 0
total_size (e ∷ es) = add_int64 e.size (total_size es)

unfoldable pub get_entry : Tx → ℕ → LinkSystem → Result Entry
unfolding root_proto find_entry
get_entry tx key lsys =
    root_proto tx.codec >>= λ _. lsys.load tx.root >>= λ nd. nd.links >>= find_entry key

-- An empty text is left out.
unfoldable pub append_paths : List ℕ → Tx → Tx
append_paths [] tx = tx
append_paths (p ∷ ps) tx =
    append_paths ps (if p == no_key then tx else record tx { paths = tx.paths ++ (p ∷ []) })

module _ (storage : Storage) (global own : LinkSystem) where
  -- Where the root is read: from the global store if the index has it.
  unfoldable pub source : Tx → Index → Index × LinkSystem
  unfolding get_ref
  source tx idx =
      let (idx', found) = get_ref storage idx tx.root in
      (idx', elim found [ ok _ ↦ global | err _ ↦ own ])

  unfoldable pub root_for : Tx → ℕ → Index → Index × Result ℕ
  unfolding source get_entry
  root_for tx key idx =
      let (idx', lsys) = source tx idx in
      if key == star then (idx, ok tx.root) else (idx', get_entry tx key lsys >>= λ e. ok e.value)

  unfoldable pub entries : Tx → Index → Index × Result (List Entry)
  unfolding source sort_entries root_proto read_entries
  entries tx idx =
      let (idx', lsys) = source tx idx in
      elim tx.entries [
        | [] ↦ (
          idx',
          root_proto tx.codec >>= λ _. lsys.load tx.root >>= λ nd. nd.links >>= read_entries,
        )
        | e ∷ es ↦ (idx, ok (sort_entries (e ∷ es)))
      ]

  -- The keys of a map come in the order in which the map gives them.
  unfoldable pub keys : Tx → Index → Index × Result (List ℕ)
  unfolding source map_loadable_keys
  keys tx idx =
      let (idx', lsys) = source tx idx in
      elim tx.entries [
        | [] ↦ (idx', wrap (λ e. "failed to get keys: " +++ e) (map_loadable_keys lsys tx.root))
        | e ∷ es ↦ (idx, ok (map Entry.key (e ∷ es)))
      ]

  unfoldable pub has_entry : ℕ → List Entry → Bool
  has_entry k [] = false
  has_entry k (e ∷ es) = let later = has_entry k es in if e.key == k then true else later

  -- The last part says whether the blocks of the root node are copied to the transaction's store.
  unfoldable pub is_local : Tx → ℕ → Index → Index × Bool × Bool
  unfolding has_entry get_ref is_in
  is_local tx key idx =
      let (idx', found) = get_ref storage idx tx.root in
      if has_entry key tx.entries then (idx, true, false) else elim found [
        | err _ ↦ (idx', false, false)
        | ok ref ↦
            if key == no_key
            then (idx', true, false)
            else if is_in key ref.keys
            then (idx', true, false)
            else (idx', false, true)
      ]

-- The ref of the transaction, whose size is not negative, and the error that it notes when the keys
-- cannot be read.
unfoldable pub ref_of : LinkSystem → Tx → Tx × DataRef
unfolding map_loadable_keys
ref_of own tx =
    let with_keys : List ℕ → DataRef = λ ks. record {
      payload_cid = tx.root;
      payload_size = pos_part tx.size;
      keys = ks;
      freq = 0;
      bucket_id = 0;
      bucket_node = none;
    } in
    elim tx.entries [
      | e ∷ es ↦ (tx, with_keys (map Entry.key (e ∷ es)))
      | [] ↦ elim (map_loadable_keys own tx.root) [
        | ok ks ↦ (tx, with_keys ks)
        | err x ↦ (record tx { error = some x }, with_keys [])
      ]
    ]

unfoldable pub settle_root : Tx → Result ℕ → Tx × Option String
unfolding total_size
settle_root tx (err x) = (tx, some x)
settle_root tx (ok c) = (record tx { root = c; size = total_size tx.entries }, none)

-- The entries in order, in a node of the codec, which the link system stores under its CID.
module _ (store_node : ℕ → List Entry → Result ℕ) where
  unfoldable pub build_root : Tx → Tx × Option String
  unfolding root_proto sort_entries settle_root
  build_root tx =
      settle_root tx (root_proto tx.codec >>= λ _. store_node tx.codec (sort_entries tx.entries))

  unfoldable pub put : ℕ → ℕ → ℤ → Tx → Tx × Option String
  unfolding put_entry build_root
  put key value size tx = build_root (record tx {
    entries = put_entry (record { key = key; value = value; size = size }) tx.entries;
  })

-- `dispatch` is what Replication.Dispatch answers; without replication the records are those of a closed
-- channel.
unfoldable pub commit : ℤ → Option String → Tx → Tx × Option String
commit rf dispatch tx = elim tx.error [
  | some e ↦ (tx, some e)
  | none ↦ (record tx { committed = true }, if ltb_ℤ (pos 0) rf then dispatch else none)
]

-- What closing does, in this order.
pub data Effect : Type 0 where
  close_worker unsubscribe migrate_blocks delete_store cancel_context : Effect

-- The parts that a transaction has, and what its stores refuse.
pub record Parts : Type 0 where
  pub has_worker : Bool
  pub has_unsub : Bool
  pub is_gc_store : Bool
  pub migrate_error : Option String
  pub delete_error : Option String

unfoldable pub dump_store : Parts → Tx → List Effect × Option String
dump_store parts tx =
    let deleted = delete_store ∷ [] in
    if not tx.committed
    then (deleted, parts.delete_error)
    else if not parts.is_gc_store
    then ([], some "blockstore is not a GCBlockstore")
    else elim parts.migrate_error [
      | some e ↦ (migrate_blocks ∷ [], some ("migrating blocks: " +++ e))
      | none ↦ (migrate_blocks ∷ deleted, parts.delete_error)
    ]

unfoldable pub close : Parts → Tx → Tx × List Effect × Option String
unfolding dump_store
close parts tx =
    let (dumped, error) = dump_store parts tx in
    let before =
      (if parts.has_worker then close_worker ∷ [] else [])
      ++ (if parts.has_unsub then unsubscribe ∷ [] else []) in
    if tx.closed then (tx, [], tx.error) else elim error [
      | some e ↦ (record tx { closed = true }, before ++ dumped, some e)
      | none ↦ (record tx { closed = true }, before ++ (dumped ++ (cancel_context ∷ [])), tx.error)
    ]
