-- ===== src/Exchange/Index/Order.antt =====
-- A read of exchange/index.go moves a ref to the next bucket and nothing else.
use mathlib.Core.Path.{subst}
use pop.Common.{
  ℕ, ◌+◌, ◌≡◌, ◌≢◌, ◌↔◌, refl, sym, ◌∙◌, arith, List, none, some, Option-cases, inl, inr,
}
use pop.Exchange.Buckets.{Bucket, push_back, move_up}
use pop.Exchange.Index.{DataRef, increment}
use pop.Exchange.Buckets.Order.{
  SortedFrom, Stands, move_up-SortedFrom, move_up-Stands, move_up-Stands_other,
  push_back-SortedFrom, push_back-Stands, push_back-Stands_other,
}
use pop.Exchange.Buckets.Origin.{last_id, push_back-last_id, push_back-from, move_up-from}

-- The ref stands in the bucket that it names and in no other; a ref that names none stands nowhere.
abbrev pub Placed : DataRef → List Bucket → Type 0
Placed ref bs = (place : ℕ) → Stands ref.payload_cid place bs ↔ (ref.bucket_node ≡ some place)

-- A read counts if the ref was in the list already.
abbrev pub reads_after : DataRef → ℕ
reads_after ref = elim ref.bucket_node [ none ↦ ref.freq | some _ ↦ ref.freq + 1 ]

-- The bucket at the back for a ref that is not in the list, the next one for a ref that is.
abbrev pub target : DataRef → List Bucket → ℕ
target ref bs = elim ref.bucket_node [ none ↦ last_id bs | some place ↦ place + 1 ]

abbrev pub Moved : DataRef → List Bucket → DataRef × List Bucket → Type 0
Moved ref bs p =
    SortedFrom 0 p.1
    × (p.0 ≡ record ref {
      freq = reads_after ref;
      bucket_id = target ref bs;
      bucket_node = some (target ref bs);
    })
    × ((id : ℕ) → Stands ref.payload_cid id p.1 ↔ (id ≡ target ref bs))
    × ((j id : ℕ) → j ≢ ref.payload_cid → Stands j id p.1 ↔ Stands j id bs)

increment_new :
    (ref : DataRef) (bs : List Bucket)
    → ref.bucket_node ≡ none
    → increment ref bs ≡ (
      record ref {
        bucket_id = (push_back ref.payload_cid bs).0;
        bucket_node = some (push_back ref.payload_cid bs).0;
      },
      (push_back ref.payload_cid bs).1,
    )
unfolding increment
increment_new ref bs h = ground (arith, h)

increment_read :
    (ref : DataRef) (bs : List Bucket) (place : ℕ)
    → ref.bucket_node ≡ some place
    → increment ref bs ≡ (
      record ref { freq = ref.freq + 1; bucket_id = place + 1; bucket_node = some (place + 1) },
      move_up place ref.payload_cid bs,
    )
unfolding increment
increment_read ref bs place h = ground (arith, h)

increment_new-Moved :
    (ref : DataRef) (bs : List Bucket)
    → ref.bucket_node ≡ none
    → SortedFrom 0 bs
    → Placed ref bs
    → Moved ref bs (increment ref bs)
increment_new-Moved ref bs h s p =
    let k = ref.payload_cid in
    let back = push_back-last_id k bs in
    let goal : target ref bs ≡ last_id bs = rw h refl in
    subst (Moved ref bs) (sym (increment_new ref bs h)) (
      push_back-SortedFrom 0 k bs s (inl refl),
      ground (arith, h, back),
      λ id. (
        λ at. elim (push_back-from k k id bs at) [
          | inl old ↦ absurd (ground (arith, h, (p id).0 old))
          | inr new ↦ new.1 ∙ sym goal
        ],
        λ e.
            subst (λ x. Stands k x (push_back k bs).1) (back ∙ sym goal ∙ sym e)
              (push_back-Stands k bs),
      ),
      λ j id n. (
        λ at. elim (push_back-from k j id bs at) [ inl old ↦ old | inr new ↦ absurd (n new.0) ],
        push_back-Stands_other k j id bs,
      ),
    )

increment_read-Moved :
    (ref : DataRef) (bs : List Bucket) (place : ℕ)
    → ref.bucket_node ≡ some place
    → SortedFrom 0 bs
    → Placed ref bs
    → Moved ref bs (increment ref bs)
increment_read-Moved ref bs place h s p =
    let k = ref.payload_cid in
    let goal : target ref bs ≡ place + 1 = rw h refl in
    subst (Moved ref bs) (sym (increment_read ref bs place h)) (
      move_up-SortedFrom 0 place k bs s,
      ground (arith, h),
      λ id. (
        λ at. elim (move_up-from 0 place k k id bs s at) [
          | inl (old, inl n) ↦ absurd (n refl)
          | inl (old, inr n) ↦ absurd (n (ground (arith, h, (p id).0 old)))
          | inr new ↦ new.1 ∙ sym goal
        ],
        λ e.
            subst (λ x. Stands k x (move_up place k bs)) (sym goal ∙ sym e)
              (move_up-Stands place k bs ((p place).1 h)),
      ),
      λ j id n. (
        λ at. elim (move_up-from 0 place k j id bs s at) [
          | inl old ↦ old.0
          | inr new ↦ absurd (n new.0)
        ],
        move_up-Stands_other place k j id bs n,
      ),
    )

-- The buckets are in order, and the ref is in the bucket that it names and in no other. Incrementing it
-- takes it to the next bucket and counts a read, or to the bucket at the back, without a read, if it
-- was not in the list. Then it is in that bucket alone and names it, every other ref is in the same
-- buckets as before, and the buckets are in order.
pub increment-Moved :
    (ref : DataRef) (bs : List Bucket)
    → SortedFrom 0 bs
    → Placed ref bs
    → Moved ref bs (increment ref bs)
increment-Moved ref bs s p = elim (Option-cases ref.bucket_node) [
  | inl h ↦ increment_new-Moved ref bs h s p
  | inr (place, h) ↦ increment_read-Moved ref bs place h s p
]
