-- ===== src/Payments/Manager/Access/Same.antt =====
-- One accessor for each pair of addresses (payments/manager.go, channelByFromTo).
use pop.Common.{
  ℕ, ◌≡◌, ap, ◌∙◌, arith, ◌&&◌, List, [], ◌∷◌, ◌++◌, none, some, length, ◌==◌, Bool-cases,
  Option-cases, inl, inr,
}
use pop.Payments.Manager.Access.{Cache, index_of, channel_by_from_to}

index_of-append :
    (from to f t : ℕ) (cache : Cache) (i : ℕ)
    → index_of from to cache ≡ some i
    → index_of from to (cache ++ ((f, t) ∷ [])) ≡ some i
unfolding index_of
index_of-append from to f t [] i h = cc
index_of-append from to f t ((x, y) ∷ cache) i h = elim (Bool-cases (x == from && y == to)) [
  | inl e ↦ rw e (ground (arith, h, e))
  | inr e ↦ elim (Option-cases (index_of from to cache)) [
    | inl n ↦ ground (arith, h, e, n)
    | inr (j, n) ↦ ground (arith, h, e, n, index_of-append from to f t cache j n)
  ]
]

index_of-new :
    (from to : ℕ) (cache : Cache)
    → index_of from to cache ≡ none
    → index_of from to (cache ++ ((from, to) ∷ [])) ≡ some (length cache)
unfolding index_of
index_of-new from to [] h = ground arith
index_of-new from to ((x, y) ∷ cache) h = elim (Bool-cases (x == from && y == to)) [
  | inl e ↦ ground (arith, h, e)
  | inr e ↦ elim (Option-cases (index_of from to cache)) [
    | inl n ↦ ground (arith, h, e, n, index_of-new from to cache n)
    | inr (j, n) ↦ ground (arith, h, e, n)
  ]
]

index_of-injective :
    (from to f t : ℕ) (cache : Cache) (i : ℕ)
    → index_of from to cache ≡ some i
    → index_of f t cache ≡ some i
    → (from ≡ f) × (to ≡ t)
unfolding index_of
index_of-injective from to f t [] i h g = cc
index_of-injective from to f t ((x, y) ∷ cache) i h g = elim (Bool-cases (x == from && y == to)) [
  | inl e ↦ elim (Bool-cases (x == f && y == t)) [
    | inl e' ↦ (ground (arith, e, e'), ground (arith, e, e'))
    | inr e' ↦ elim (Option-cases (index_of f t cache)) [
      | inl n ↦ absurd (ground (arith, g, e', n))
      | inr (j, n) ↦ absurd (ground (arith, h, g, e, e', n))
    ]
  ]
  | inr e ↦ elim (Option-cases (index_of from to cache)) [
    | inl n ↦ absurd (ground (arith, h, e, n))
    | inr (j, n) ↦ elim (Bool-cases (x == f && y == t)) [
      | inl e' ↦ absurd (ground (arith, h, g, e, e', n))
      | inr e' ↦ elim (Option-cases (index_of f t cache)) [
        | inl n' ↦ absurd (ground (arith, g, e', n'))
        | inr (j', n') ↦
            index_of-injective from to f t cache j n
              (n' ∙ ap some (ground (arith, h, g, e, e', n, n')))
      ]
    ]
  ]
]

-- The cache after lookups of other pairs.
unfoldable pub look_up : List (ℕ × ℕ) → Cache → Cache
look_up [] cache = cache
look_up ((f, t) ∷ pairs) cache = look_up pairs (channel_by_from_to cache f t).0

kept :
    (from to f t : ℕ) (cache : Cache) (i : ℕ)
    → index_of from to cache ≡ some i
    → index_of from to (channel_by_from_to cache f t).0 ≡ some i
unfolding channel_by_from_to
kept from to f t cache i h = elim (Option-cases (index_of f t cache)) [
  | inl n ↦ ground (arith, n, index_of-append from to f t cache i h)
  | inr (j, n) ↦ ground (arith, n, h)
]

look_up-kept :
    (from to : ℕ) (pairs : List (ℕ × ℕ)) (cache : Cache) (i : ℕ)
    → index_of from to cache ≡ some i
    → index_of from to (look_up pairs cache) ≡ some i
unfolding look_up
look_up-kept from to [] cache i h = h
look_up-kept from to ((f, t) ∷ pairs) cache i h =
    look_up-kept from to pairs (channel_by_from_to cache f t).0 i (kept from to f t cache i h)

found :
    (cache : Cache) (from to : ℕ)
    → index_of from to (channel_by_from_to cache from to).0
      ≡ some (channel_by_from_to cache from to).1
unfolding channel_by_from_to
found cache from to = elim (Option-cases (index_of from to cache)) [
  | inl n ↦ ground (arith, n, index_of-new from to cache n)
  | inr (j, n) ↦ ground (arith, n)
]

again :
    (cache : Cache) (from to i : ℕ)
    → index_of from to cache ≡ some i
    → channel_by_from_to cache from to ≡ (cache, i)
unfolding channel_by_from_to
again cache from to i h = ground (arith, h)

-- The accessor of a pair of addresses stays the same through all later lookups, and two lookups give
-- the same accessor only for the same pair, in this order.
channel_by_from_to-same :
    (cache : Cache) (from to f t : ℕ) (pairs : List (ℕ × ℕ))
    → ((channel_by_from_to (look_up pairs (channel_by_from_to cache from to).0) from to).1
        ≡ (channel_by_from_to cache from to).1)
      × ((channel_by_from_to (look_up pairs (channel_by_from_to cache from to).0) f t).1
            ≡ (channel_by_from_to cache from to).1
          → (from ≡ f) × (to ≡ t))
channel_by_from_to-same cache from to f t pairs =
    let later = look_up pairs (channel_by_from_to cache from to).0 in
    let i = (channel_by_from_to cache from to).1 in
    let stays =
      look_up-kept from to pairs (channel_by_from_to cache from to).0 i (found cache from to) in
    (
      ap (λ x. x.1) (again later from to i stays),
      λ same.
          index_of-injective from to f t (channel_by_from_to later f t).0 i
            (kept from to f t later i stays) (found later f t ∙ ap some same),
    )
