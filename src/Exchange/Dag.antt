-- ===== src/Exchange/Dag.antt =====
-- The root node of a transaction as it is read: the entries of exchange/tx.go and the keys of
-- internal/utils/stat.go. A key is a number; the order of the numbers is that of the texts.
use pop.Common.{
  ℕ, ◌+◌, ◌-◌, ◌%◌, Bool, true, false, List, [], ◌∷◌, Option, none, some, ◌==◌, if◌then◌else◌,
}
use pop.Common.Int.{ℤ, pos, pos_part, neg_part, to_int64, ◌+ℤ◌}
use pop.Common.Result.{Result, ok, err, ◌>>=◌}
use pop.Common.Text.{String}

pub record Entry : Type 0 where
  pub key : ℕ
  pub value : ℕ
  pub size : ℤ

-- One element of "Links" with its fields "Name", "Hash" and "Tsize", each as a lookup and a conversion
-- give it.
pub record Link : Type 0 where
  pub name : Result ℕ
  pub hash : Result ℕ
  pub tsize : Result ℤ

pub record Node : Type 0 where
  pub links : Result (List (Result Link))

-- Loading of a block by its CID, after the prototype for its node was chosen.
pub record LinkSystem : Type 0 where
  pub choose_error : ℕ → Option String
  pub load : ℕ → Result Node

-- The sum of two int64.
unfoldable pub add_int64 : ℤ → ℤ → ℤ
unfolding ◌+ℤ◌ to_int64
add_int64 a b =
    let s = a +ℤ b in
    to_int64 (
      (pos_part s + 18446744073709551616 - neg_part s % 18446744073709551616)
      % 18446744073709551616)

-- The first entry with the key: what is read after it does not matter.
unfoldable pub find_entry : ℕ → List (Result Link) → Result Entry
find_entry key [] = err "entry not found"
find_entry key (l ∷ ls) =
    let rest = find_entry key ls in
    l >>= λ v. v.name >>= λ name.
    if name == key
    then (v.hash >>= λ value.
        v.tsize >>= λ size. ok (record { key = key; value = value; size = size }))
    else rest

abbrev pub size_or_zero : Result ℤ → ℤ
size_or_zero (ok s) = s
size_or_zero (err _) = pos 0

-- All entries; one without a size has size 0, any other failure is one of the whole.
unfoldable pub read_entries : List (Result Link) → Result (List Entry)
read_entries [] = ok []
read_entries (l ∷ ls) =
    let rest = read_entries ls in
    l >>= λ v. v.name >>= λ name. v.hash >>= λ value. rest >>= λ entries.
    ok (record { key = name; value = value; size = size_or_zero v.tsize } ∷ entries)

module _ (lsys : LinkSystem) where
  -- Chooser and Load, for the root and for each link.
  unfoldable pub load_chosen : ℕ → Result Node
  load_chosen c = elim (lsys.choose_error c) [ some e ↦ err e | none ↦ lsys.load c ]

  abbrev pub loads : ℕ → Bool
  loads c = elim (lsys.load c) [ ok _ ↦ true | err _ ↦ false ]

  unfoldable pub loadable : List (Result Link) → Result (List ℕ)
  loadable [] = ok []
  loadable (l ∷ ls) =
      let rest = loadable ls in
      l >>= λ v. v.hash >>= λ c. elim (lsys.choose_error c) [
        | some e ↦ err e
        | none ↦ if loads c then (v.name >>= λ name. rest >>= λ keys. ok (name ∷ keys)) else rest
      ]

  unfoldable pub missing : List (Result Link) → Result (List ℕ)
  missing [] = ok []
  missing (l ∷ ls) =
      let rest = missing ls in
      l >>= λ v. v.hash >>= λ c. elim (lsys.choose_error c) [
        | some e ↦ err e
        | none ↦ if loads c then rest else (v.name >>= λ name. rest >>= λ keys. ok (name ∷ keys))
      ]

  unfoldable pub map_loadable_keys : ℕ → Result (List ℕ)
  unfolding load_chosen loadable
  map_loadable_keys root = load_chosen root >>= λ nd. nd.links >>= loadable

  unfoldable pub map_missing_keys : ℕ → Result (List ℕ)
  unfolding load_chosen missing
  map_missing_keys root = load_chosen root >>= λ nd. nd.links >>= missing

-- The node that holds these entries.
abbrev pub link_of : Entry → Result Link
link_of e = ok (record { name = ok e.key; hash = ok e.value; tsize = ok e.size })

abbrev pub links_of : List Entry → List (Result Link)
links_of [] = []
links_of (e ∷ es) = link_of e ∷ links_of es
