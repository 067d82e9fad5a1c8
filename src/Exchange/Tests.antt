-- ===== src/Exchange/Tests.antt =====
-- The theorems on the index, at an index with two refs in two buckets that is full.
mod Offers
mod Transfers
mod Puts
mod Network
use pop.Common.{ℕ, ◌≡◌, ◌↔◌, refl, ap, arith, false, List, [], ◌∷◌, none, some, Option, inl, inr}
use pop.Exchange.Buckets.{Bucket, is_in}
use pop.Exchange.Buckets.Order.{Stands}
use pop.Exchange.Index.{DataRef, Index, Storage, increment, set_ref}
use pop.Exchange.Index.Size.{Accounted, set_ref-Accounted}
use pop.Exchange.Index.Total.{total}
use pop.Exchange.Index.Order.{Moved, increment-Moved}

abbrev storage : Storage
storage = record {
  set_error = λ _. none;
  delete_error = λ _. none;
  flush_error = none;
  walk = λ k. k ∷ [];
  walk_error = λ _. none;
}

abbrev ref : ℕ → ℕ → Option ℕ → DataRef
ref k size node = record {
  payload_cid = k;
  payload_size = size;
  keys = [];
  freq = 0;
  bucket_id = 1;
  bucket_node = node;
}

abbrev buckets : List Bucket
buckets = record { id = 1; entries = 41 ∷ [] } ∷ record { id = 2; entries = 42 ∷ [] } ∷ []

abbrev full : Index
full = record {
  root = [];
  ub = 100;
  lb = 50;
  gc_set = [];
  size = 90;
  blist = buckets;
  refs = (41, ref 41 10 (some 1)) ∷ (42, ref 42 80 (some 2)) ∷ [];
}

not_first : is_in 43 (41 ∷ []) ≡ false
unfolding is_in
not_first = refl

accounted : Accounted full
unfolding total
accounted = (refl, omega arith)

set_ref-Accounted_example : Accounted (set_ref storage full (ref 43 30 none)).0
set_ref-Accounted_example =
    set_ref-Accounted storage full (ref 43 30 none) not_first (omega arith) accounted

stands : (place : ℕ) → Stands 41 place buckets ↔ (◌≡◌ {A = Option ℕ} (some 1) (some place))
unfolding is_in
stands place = (
  λ h. elim h [
    | inl (i, x) ↦ ap some i
    | inr later ↦ elim later [ inl (i, x) ↦ cc x | inr none_left ↦ cc none_left ]
  ],
  λ h. inl (ground (arith, h), refl),
)

increment-Moved_example :
    Moved (ref 41 10 (some 1)) buckets (increment (ref 41 10 (some 1)) buckets)
increment-Moved_example =
    increment-Moved (ref 41 10 (some 1)) buckets (omega arith, (omega arith, tt)) stands
