-- ===== src/Exchange/Buckets.antt =====
-- The list of buckets of exchange/index.go, from the least read refs on, with the steps that move an
-- entry. A ref is known by the number of its payload CID.
pub mod Entries
pub mod Order
pub mod Origin
use pop.Common.{
  ℕ, zero, suc, ◌+◌, ◌-◌, Bool, true, false, ◌&&◌, List, [], ◌∷◌, ◌++◌, Option, none, some, length,
  ltb, leb, u64, ◌==◌, if◌then◌else◌,
}
use pop.Common.Assoc.{find, put}
use pop.Common.Result.{Result, ok, err}
use pop.Common.Text.{String}

pub record Bucket : Type 0 where
  pub id : ℕ
  pub entries : List ℕ

unfoldable pub is_in : ℕ → List ℕ → Bool
is_in k [] = false
is_in k (x ∷ xs) = let later = is_in k xs in if x == k then true else later

unfoldable pub add : ℕ → List ℕ → List ℕ
unfolding is_in
add k xs = if is_in k xs then xs else xs ++ (k ∷ [])

unfoldable pub without : ℕ → List ℕ → List ℕ
without k [] = []
without k (x ∷ xs) = let rest = without k xs in if x == k then rest else x ∷ rest

-- A bucket that has no entries leaves the list.
abbrev pub unless_empty : Bucket → List Bucket → List Bucket
unless_empty b rest = elim b.entries [ [] ↦ rest | _ ∷ _ ↦ b ∷ rest ]

unfoldable pub rem_blist_entry : ℕ → ℕ → List Bucket → List Bucket
unfolding without
rem_blist_entry place k [] = []
rem_blist_entry place k (b ∷ bs) =
    let later = rem_blist_entry place k bs in
    if b.id == place
    then unless_empty (record b { entries = without k b.entries }) bs
    else b ∷ later

-- A new entry goes to the bucket at the back, or to the first one, with ID 1.
unfoldable pub push_back : ℕ → List Bucket → ℕ × List Bucket
unfolding add
push_back k [] = (1, record { id = 1; entries = k ∷ [] } ∷ [])
push_back k (b ∷ []) = (b.id, record b { entries = add k b.entries } ∷ [])
push_back k (b ∷ c ∷ bs) = let (id, rest) = push_back k (c ∷ bs) in (id, b ∷ rest)

-- The bucket with this ID at the front of a list, made if it is not there.
unfoldable pub raise : ℕ → ℕ → List Bucket → List Bucket
unfolding add
raise n k [] = record { id = n; entries = k ∷ [] } ∷ []
raise n k (b ∷ bs) =
    if b.id == n
    then record b { entries = add k b.entries } ∷ bs
    else record { id = n; entries = k ∷ [] } ∷ b ∷ bs

-- From the bucket of this ID to the next one.
unfoldable pub move_up : ℕ → ℕ → List Bucket → List Bucket
unfolding raise without
move_up place k [] = []
move_up place k (b ∷ bs) =
    let later = move_up place k bs in
    if b.id == place
    then unless_empty (record b { entries = without k b.entries }) (raise (place + 1) k bs)
    else b ∷ later
