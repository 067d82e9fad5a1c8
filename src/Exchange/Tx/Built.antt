-- ===== src/Exchange/Tx/Built.antt =====
-- What Put and buildRoot of exchange/tx.go write, getEntry and Entries read.
use pop.Common.{
  ℕ, ◌≡◌, refl, sym, ap, ◌∙◌, arith, List, [], ◌∷◌, none, ◌==◌, if◌then◌else◌, Bool-cases, inl, inr,
}
use pop.Common.Int.{ℤ}
use pop.Common.Result.{Result, ok, err, >>=-ok}
use pop.Exchange.Dag.{Entry, LinkSystem, find_entry, read_entries, links_of}
use pop.Exchange.Tx.{
  Tx, put_entry, insert_entry, sort_entries, total_size, root_proto, get_entry, build_root, put,
  settle_root,
}

-- The entry that a map of entries has for a key.
abbrev pub entry_at : ℕ → List Entry → Result Entry
entry_at k [] = err "entry not found"
entry_at k (e ∷ es) =
    if e.key == k then ok (record { key = k; value = e.value; size = e.size }) else entry_at k es

find_entry-links_of : (k : ℕ) (es : List Entry) → find_entry k (links_of es) ≡ entry_at k es
unfolding find_entry
find_entry-links_of k [] = refl
find_entry-links_of k (e ∷ es) = elim (Bool-cases (e.key == k)) [
  | inl h ↦ rw h refl
  | inr h ↦ rw h (find_entry-links_of k es)
]

read_entries-links_of : (es : List Entry) → read_entries (links_of es) ≡ ok es
unfolding read_entries
read_entries-links_of [] = refl
read_entries-links_of (e ∷ es) = rw (read_entries-links_of es) refl

abbrev first_or : ℕ → Entry → Result Entry → Result Entry
first_or k e r = if e.key == k then ok (record { key = k; value = e.value; size = e.size }) else r

entry_at-put_entry :
    (k : ℕ) (e : Entry) (es : List Entry)
    → entry_at k (put_entry e es) ≡ first_or k e (entry_at k es)
unfolding put_entry
entry_at-put_entry k e [] = refl
entry_at-put_entry k e (x ∷ es) = ground (arith, entry_at-put_entry k e es)

entry_at-insert_entry :
    (k : ℕ) (e : Entry) (es : List Entry)
    → entry_at k (insert_entry e es) ≡ first_or k e (entry_at k es)
unfolding insert_entry
entry_at-insert_entry k e [] = refl
entry_at-insert_entry k e (x ∷ es) = ground (arith, entry_at-insert_entry k e es)

entry_at-sort_entries : (k : ℕ) (es : List Entry) → entry_at k (sort_entries es) ≡ entry_at k es
unfolding sort_entries
entry_at-sort_entries k [] = refl
entry_at-sort_entries k (e ∷ es) =
    entry_at-insert_entry k e (sort_entries es) ∙ ap (first_or k e) (entry_at-sort_entries k es)

settle_root-inv :
    (tx tx' : Tx) (r : Result ℕ)
    → settle_root tx r ≡ (tx', none)
    → (c : ℕ) × (r ≡ ok c) × (tx' ≡ record tx { root = c; size = total_size tx.entries })
unfolding settle_root
settle_root-inv tx tx' (ok c) h = (c, refl, sym (ap (λ x. x.0) h))
settle_root-inv tx tx' (err x) h = cc (ap (λ p. p.1) h)

module _ (store_node : ℕ → List Entry → Result ℕ) where
  -- A root that was built is the CID of the sorted entries under a codec that exists.
  build_root-inv :
      (tx tx' : Tx)
      → build_root store_node tx ≡ (tx', none)
      → (root_proto tx'.codec ≡ ok tt)
        × (store_node tx.codec (sort_entries tx.entries) ≡ ok tx'.root)
        × (tx'.codec ≡ tx.codec)
        × (tx'.size ≡ total_size tx.entries)
  unfolding build_root
  build_root-inv tx tx' h =
      let (c, built, e) = settle_root-inv tx tx' _ h in
      let (u, q, p) = >>=-ok _ (root_proto tx.codec) built in (rw e p, rw e q, rw e refl, rw e refl)

  -- After a Put without an error, each transaction with the new root and its codec reads the new entry
  -- under its key and, under every other key, what the entries of the transaction had there, and no
  -- more: entries under the old root that are not among them are gone, as in a transaction that was
  -- opened with a root. The store loads the node that was put, sorted, under the CID that it gave it.
  pub put-get_entry :
      (own : LinkSystem) (key value : ℕ) (size : ℤ) (tx tx' : Tx)
      → let es =
          sort_entries (put_entry (record { key = key; value = value; size = size }) tx.entries) in
        ((c : ℕ)
          → store_node tx.codec es ≡ ok c
          → own.load c ≡ ok (record { links = ok (links_of es) }))
        → put store_node key value size tx ≡ (tx', none)
        → (t : Tx) (k : ℕ) → t.root ≡ tx'.root
        → t.codec ≡ tx'.codec
        → get_entry t k own ≡ (
            if key == k
            then ok (record { key = k; value = value; size = size })
            else entry_at k tx.entries)
  unfolding put get_entry
  put-get_entry own key value size tx tx' law h t k r c =
      let e : Entry = record { key = key; value = value; size = size } in
      let es = put_entry e tx.entries in
      let (proto, stored, _, _) = build_root-inv (record tx { entries = es }) tx' h in
      rw (c, proto, r, law tx'.root stored)
        (find_entry-links_of k (sort_entries es)
          ∙ entry_at-sort_entries k es
          ∙ entry_at-put_entry k e tx.entries)
