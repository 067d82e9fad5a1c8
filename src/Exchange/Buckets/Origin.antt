-- ===== src/Exchange/Buckets/Origin.antt =====
-- Where the entries of the list of buckets of exchange/index.go come from once one was added or moved.
use pop.Common.{
  ℕ, ◌+◌, ◌≡◌, ◌≢◌, ◌<◌, ◌⊎◌, refl, sym, arith, true, List, [], ◌∷◌, ◌==◌, Bool-cases, inl, inr,
}
use pop.Exchange.Buckets.{Bucket, is_in, without, unless_empty, push_back, raise, move_up}
use pop.Exchange.Buckets.Entries.{is_in-of_add, is_in-of_without}
use pop.Exchange.Buckets.Order.{SortedFrom, Stands}

-- The ID of the last bucket, which a new entry goes to; 1 if there is none.
abbrev pub last_id : List Bucket → ℕ
last_id [] = 1
last_id (b ∷ []) = b.id
last_id (b ∷ c ∷ bs) = last_id (c ∷ bs)

pub push_back-last_id : (k : ℕ) (bs : List Bucket) → (push_back k bs).0 ≡ last_id bs
unfolding push_back
push_back-last_id k [] = refl
push_back-last_id k (b ∷ []) = refl
push_back-last_id k (b ∷ c ∷ bs) = push_back-last_id k (c ∷ bs)

-- Where an entry stands after it was added: where it stood, or in the bucket at the back.
pub push_back-from :
    (k j id : ℕ) (bs : List Bucket)
    → Stands j id (push_back k bs).1
    → Stands j id bs ⊎ ((j ≡ k) × (id ≡ last_id bs))
unfolding push_back is_in
push_back-from k j id [] (inl (i, m)) = inr (ground (arith, i, m))
push_back-from k j id [] (inr h) = cc h
push_back-from k j id (b ∷ []) (inl (i, m)) = elim (is_in-of_add j k b.entries m) [
  | inl old ↦ inl (inl (i, old))
  | inr new ↦ inr (new, sym i)
]
push_back-from k j id (b ∷ []) (inr h) = cc h
push_back-from k j id (b ∷ c ∷ bs) (inl h) = inl (inl h)
push_back-from k j id (b ∷ c ∷ bs) (inr h) = elim (push_back-from k j id (c ∷ bs) h) [
  | inl old ↦ inl (inr old)
  | inr new ↦ inr new
]

raise-from :
    (n k j id : ℕ) (bs : List Bucket)
    → Stands j id (raise n k bs)
    → Stands j id bs ⊎ ((j ≡ k) × (id ≡ n))
unfolding raise is_in
raise-from n k j id [] (inl (i, m)) = inr (ground (arith, i, m))
raise-from n k j id [] (inr h) = cc h
raise-from n k j id (b ∷ bs) h = elim (Bool-cases (b.id == n)) [
  | inl e ↦ elim (rw e at h) [
    | inl (i, m) ↦ elim (is_in-of_add j k b.entries m) [
      | inl old ↦ inl (inl (i, old))
      | inr new ↦ inr (new, ground (arith, e, i))
    ]
    | inr r ↦ inl (inr r)
  ]
  | inr e ↦ elim (rw e at h) [ inl (i, m) ↦ inr (ground (arith, i, m)) | inr r ↦ inl r ]
]

unless_empty-from :
    (k id : ℕ) (b : Bucket) (bs : List Bucket)
    → Stands k id (unless_empty b bs)
    → ((b.id ≡ id) × (is_in k b.entries ≡ true)) ⊎ Stands k id bs
unless_empty-from k id b bs h = by_entries b.entries h
  where
    by_entries :
        (es : List ℕ)
        → Stands k id (elim es [ [] ↦ bs | _ ∷ _ ↦ b ∷ bs ])
        → ((b.id ≡ id) × (is_in k b.entries ≡ true)) ⊎ Stands k id bs
    by_entries [] r = inr r
    by_entries (e ∷ es) r = r

Stands-above : (m k id : ℕ) (bs : List Bucket) → SortedFrom m bs → Stands k id bs → m < id
Stands-above m k id [] s h = cc h
Stands-above m k id (b ∷ bs) (l, s) (inl (i, x)) = omega (arith, l, i)
Stands-above m k id (b ∷ bs) (l, s) (inr h) = omega (arith, l, Stands-above b.id k id bs s h)

-- Where an entry stands after one was moved up: where it stood, without the one that was moved, or in
-- the next bucket.
pub move_up-from :
    (m place k j id : ℕ) (bs : List Bucket)
    → SortedFrom m bs
    → Stands j id (move_up place k bs)
    → (Stands j id bs × ((j ≢ k) ⊎ (id ≢ place))) ⊎ ((j ≡ k) × (id ≡ place + 1))
unfolding move_up
move_up-from m place k j id [] s h = cc h
move_up-from m place k j id (b ∷ bs) (l, s) h = elim (Bool-cases (b.id == place)) [
  | inr e ↦ elim (rw e at h) [
    | inl (i, x) ↦ inl (inl (i, x), inr (λ z. absurd (ground (arith, e, i, z))))
    | inr r ↦ elim (move_up-from b.id place k j id bs s r) [
      | inl (old, n) ↦ inl (inr old, n)
      | inr new ↦ inr new
    ]
  ]
  | inl e ↦
      let left : Bucket = record b { entries = without k b.entries } in
      let at : b.id ≡ place = ground (arith, e) in
      elim (unless_empty-from j id left (raise (place + 1) k bs) (rw e at h)) [
        | inl (i, x) ↦ let (old, n) = is_in-of_without j k b.entries x in inl (inl (i, old), inl n)
        | inr r ↦ elim (raise-from (place + 1) k j id bs r) [
          | inr new ↦ inr new
          | inl old ↦
              inl
                (inr old, inr (λ z. absurd (omega (arith, Stands-above b.id j id bs s old, z, at))))
        ]
      ]
]
