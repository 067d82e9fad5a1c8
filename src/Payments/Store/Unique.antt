-- ===== src/Payments/Store/Unique.antt =====
-- A store of payments/store.go in which no key stands twice, and in which one channel at most passes a
-- filter: writing that channel, adding one and removing it.
use pop.Common.{
  ℕ, ◌≡◌, refl, sym, arith, Bool, true, List, [], ◌∷◌, ◌==◌, none, some, Bool-cases, inl, inr,
}
use pop.Common.Assoc.{put, find, find-put}
use pop.Payments.Info.{ChannelInfo, tracked, untracked}
use pop.Payments.Store.{unmarshall}
use pop.Payments.Store.Ops.{delete_key}
use pop.Payments.Store.First.{KeyedIn, read_all, first, filter, unmarshall-channel_id}

abbrev pub DistinctIn : List (ℕ × ChannelInfo) → Type 0
DistinctIn [] = Unit
DistinctIn ((k, c) ∷ xs) = (find k xs ≡ none) × DistinctIn xs

pub put-DistinctIn :
    (k : ℕ) (c : ChannelInfo) (xs : List (ℕ × ChannelInfo))
    → DistinctIn xs
    → DistinctIn (put k c xs)
unfolding put find
put-DistinctIn k c [] d = (refl, tt)
put-DistinctIn k c ((j, x) ∷ xs) (n, d) = elim (Bool-cases (j == k)) [
  | inl e ↦ rw e (ground (arith, e, n), d)
  | inr e ↦ rw e (ground (arith, e, n, find-put j k c xs), put-DistinctIn k c xs d)
]

find-delete_key :
    (j k : ℕ) (xs : List (ℕ × ChannelInfo)) → find j xs ≡ none → find j (delete_key k xs) ≡ none
unfolding find delete_key
find-delete_key j k [] h = refl
find-delete_key j k ((i, x) ∷ xs) h = elim (Bool-cases (i == j)) [
  | inl e ↦ ground (arith, e, h)
  | inr e ↦ ground (arith, e, find-delete_key j k xs (ground (arith, e, h)))
]

pub delete_key-DistinctIn :
    (k : ℕ) (xs : List (ℕ × ChannelInfo)) → DistinctIn xs → DistinctIn (delete_key k xs)
unfolding delete_key
delete_key-DistinctIn k [] d = tt
delete_key-DistinctIn k ((j, x) ∷ xs) (n, d) = elim (Bool-cases (j == k)) [
  | inl e ↦ rw e (delete_key-DistinctIn k xs d)
  | inr e ↦ rw e (find-delete_key j k xs n, delete_key-DistinctIn k xs d)
]

pub delete_key-KeyedIn :
    (k : ℕ) (xs : List (ℕ × ChannelInfo)) → KeyedIn xs → KeyedIn (delete_key k xs)
unfolding delete_key
delete_key-KeyedIn k [] d = tt
delete_key-KeyedIn k ((j, x) ∷ xs) (n, d) = elim (Bool-cases (j == k)) [
  | inl e ↦ rw e (delete_key-KeyedIn k xs d)
  | inr e ↦ rw e (n, delete_key-KeyedIn k xs d)
]

pub first-filter :
    (f : ChannelInfo → Bool) (cs : List ChannelInfo)
    → first f cs ≡ (elim (filter f cs) [ [] ↦ untracked | c ∷ _ ↦ tracked c ])
first-filter f [] = refl
first-filter f (c ∷ cs) = elim (Bool-cases (f c)) [
  | inl e ↦ rw e refl
  | inr e ↦ rw e (first-filter f cs)
]

-- The only channel that passes stands under its ID.
pub find-filter :
    (f : ChannelInfo → Bool) (xs : List (ℕ × ChannelInfo)) (ci : ChannelInfo)
    (rest : List ChannelInfo)
    → KeyedIn xs
    → DistinctIn xs
    → filter f (read_all xs) ≡ ci ∷ rest
    → (c : ChannelInfo) × (find ci.channel_id xs ≡ some c) × (unmarshall c ≡ ci)
unfolding find
find-filter f [] ci rest k d h = cc
find-filter f ((j, x) ∷ xs) ci rest ((i, z), k) (n, d) h = elim (Bool-cases (f (unmarshall x))) [
  | inl e ↦ (x, ground (arith, i, unmarshall-channel_id x, e, h), ground (arith, e, h))
  | inr e ↦
      let (c, g, u) = find-filter f xs ci rest k d (rw (sym h, e) refl) in
      (c, ground (arith, g, n), u)
]

-- A key that is not there holds no channel that passes.
pub filter-put_fresh :
    (f : ChannelInfo → Bool) (xs : List (ℕ × ChannelInfo)) (k : ℕ) (c : ChannelInfo)
    → filter f (read_all xs) ≡ []
    → f (unmarshall c) ≡ true
    → find k xs ≡ none
    → filter f (read_all (put k c xs)) ≡ unmarshall c ∷ []
unfolding put find
filter-put_fresh f [] k c h t n = rw t refl
filter-put_fresh f ((j, x) ∷ xs) k c h t n = elim (Bool-cases (f (unmarshall x))) [
  | inl e ↦ ground (arith, e, h)
  | inr e ↦ elim (Bool-cases (j == k)) [
    | inl g ↦ ground (arith, g, n)
    | inr g ↦ rw (g, e) (filter-put_fresh f xs k c (rw (sym h, e) refl) t (ground (arith, g, n)))
  ]
]

head_only :
    (f : ChannelInfo → Bool) (c : ChannelInfo) (cs : List ChannelInfo) (ci : ChannelInfo)
    → f c ≡ true
    → filter f (c ∷ cs) ≡ ci ∷ []
    → (c ≡ ci) × (filter f cs ≡ [])
head_only f c cs ci e h = (ground (arith, e, h), ground (arith, e, h))

pub filter-put :
    (f : ChannelInfo → Bool) (xs : List (ℕ × ChannelInfo)) (ci c : ChannelInfo)
    → KeyedIn xs
    → DistinctIn xs
    → filter f (read_all xs) ≡ ci ∷ []
    → f (unmarshall c) ≡ true
    → filter f (read_all (put ci.channel_id c xs)) ≡ unmarshall c ∷ []
unfolding put
filter-put f [] ci c k d h t = cc
filter-put f ((j, x) ∷ xs) ci c ((i, z), k) (n, d) h t = elim (Bool-cases (f (unmarshall x))) [
  | inl e ↦
      let (p, q) = head_only f (unmarshall x) (read_all xs) ci e h in
      let at : (j == ci.channel_id) ≡ true = ground (arith, p, i, unmarshall-channel_id x) in
      rw (at, t, q) refl
  | inr e ↦ elim (Bool-cases (j == ci.channel_id)) [
    | inl g ↦
        let (y, q, u) = find-filter f xs ci [] k d (rw (sym h, e) refl) in
        absurd (ground (arith, g, q, n))
    | inr g ↦ rw (g, e) (filter-put f xs ci c k d (rw (sym h, e) refl) t)
  ]
]

filter-delete_none :
    (f : ChannelInfo → Bool) (xs : List (ℕ × ChannelInfo)) (k : ℕ)
    → filter f (read_all xs) ≡ []
    → filter f (read_all (delete_key k xs)) ≡ []
unfolding delete_key
filter-delete_none f [] k h = refl
filter-delete_none f ((j, x) ∷ xs) k h = elim (Bool-cases (f (unmarshall x))) [
  | inl e ↦ ground (arith, e, h)
  | inr e ↦
      let rest = filter-delete_none f xs k (rw (sym h, e) refl) in
      elim (Bool-cases (j == k)) [ inl g ↦ rw g rest | inr g ↦ rw (g, e) rest ]
]

pub filter-delete_key :
    (f : ChannelInfo → Bool) (xs : List (ℕ × ChannelInfo)) (ci : ChannelInfo)
    → KeyedIn xs
    → filter f (read_all xs) ≡ ci ∷ []
    → filter f (read_all (delete_key ci.channel_id xs)) ≡ []
unfolding delete_key
filter-delete_key f [] ci k h = cc
filter-delete_key f ((j, x) ∷ xs) ci ((i, z), k) h = elim (Bool-cases (f (unmarshall x))) [
  | inl e ↦
      let (p, q) = head_only f (unmarshall x) (read_all xs) ci e h in
      let at : (j == ci.channel_id) ≡ true = ground (arith, p, i, unmarshall-channel_id x) in
      rw at (filter-delete_none f xs ci.channel_id q)
  | inr e ↦
      let rest = filter-delete_key f xs ci k (rw (sym h, e) refl) in
      elim (Bool-cases (j == ci.channel_id)) [ inl g ↦ rw g rest | inr g ↦ rw (g, e) rest ]
]
