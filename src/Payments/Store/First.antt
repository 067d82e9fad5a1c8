-- ===== src/Payments/Store/First.antt =====
-- What a query of payments/store.go finds: findChans, findChan and their filters, against the first
-- match of a list. Where all entries can be read, a channel that is written keeps its place.
use pop.Common.{
  ℕ, ◌≡◌, ◌≢◌, refl, arith, Bool, true, false, List, [], ◌∷◌, ◌++◌, none, length, ◌==◌,
  if◌then◌else◌, Bool-cases, All, inl, inr, sym, ◌∙◌, ap,
}
use pop.Common.Int.{pos}
use pop.Common.Assoc.{put}
use pop.Common.Result.{ok}
use pop.Payments.Info.{ChannelInfo, Found, tracked, untracked}
use pop.Payments.Store.{Store, Disk, unmarshall, collect, find_chans, find_chan, first_of}

-- The channels as they are read.
abbrev pub read_all : List (ℕ × ChannelInfo) → List ChannelInfo
read_all [] = []
read_all ((k, c) ∷ rest) = unmarshall c ∷ read_all rest

abbrev pub first : (ChannelInfo → Bool) → List ChannelInfo → Found
first f [] = untracked
first f (c ∷ cs) = if f c then tracked c else first f cs

abbrev pub filter : (ChannelInfo → Bool) → List ChannelInfo → List ChannelInfo
filter f [] = []
filter f (c ∷ cs) = let rest = filter f cs in if f c then c ∷ rest else rest

-- Nothing is refused.
abbrev pub Readable : Disk → Type 0
Readable disk = (disk.query_error ≡ none) × ((k : ℕ) → disk.entry_error k ≡ false)

abbrev pub Writable : Disk → Type 0
Writable disk = (k : ℕ) → disk.put_error k ≡ none

-- An entry stands under its channel's ID, which is not empty.
abbrev pub KeyedIn : List (ℕ × ChannelInfo) → Type 0
KeyedIn = All λ ((k, c) : ℕ × ChannelInfo). (c.channel_id ≡ k) × (k ≢ 0)

abbrev pub Keyed : Store → Type 0
Keyed st = KeyedIn st.channels

length_snoc : (ms : List ChannelInfo) (c : ChannelInfo) → (length (ms ++ (c ∷ [])) == 0) ≡ false
length_snoc [] c = refl
length_snoc (m ∷ ms) c = ground arith

append_cons :
    (ms : List ChannelInfo) (c : ChannelInfo) (cs : List ChannelInfo)
    → (ms ++ (c ∷ [])) ++ cs ≡ ms ++ (c ∷ cs)
append_cons [] c cs = refl
append_cons (m ∷ ms) c cs = rw (append_cons ms c cs) refl

append_nil : (ms : List ChannelInfo) → ms ++ [] ≡ ms
append_nil [] = refl
append_nil (m ∷ ms) = rw (append_nil ms) refl

module _ (disk : Disk) where
  collect-filter :
      ((k : ℕ) → disk.entry_error k ≡ false)
      → (f : ChannelInfo → Bool) (ms : List ChannelInfo) (xs : List (ℕ × ChannelInfo))
      → collect disk f 0 ms xs ≡ ok (ms ++ filter f (read_all xs))
  unfolding collect
  collect-filter r f ms [] = rw (append_nil ms) refl
  collect-filter r f ms ((k, c) ∷ xs) = elim (Bool-cases (f (unmarshall c))) [
    | inl e ↦
        rw (r k, e, length_snoc ms (unmarshall c))
          (collect-filter r f (ms ++ (unmarshall c ∷ [])) xs
            ∙ ap ok (append_cons ms (unmarshall c) (filter f (read_all xs))))
    | inr e ↦ rw (r k, e) (collect-filter r f ms xs)
  ]

  find_chans-collect :
      (st : Store) (f : ChannelInfo → Bool) (n : ℕ)
      → disk.query_error ≡ none
      → find_chans disk st f n ≡ collect disk f n [] st.channels
  unfolding find_chans
  find_chans-collect st f n q = ground (arith, q)

  -- Without a limit, a query gives the channels that pass the filter, in their order, where all
  -- entries can be read.
  pub find_chans-filter :
      (st : Store) (f : ChannelInfo → Bool)
      → Readable disk
      → find_chans disk st f 0 ≡ ok (filter f (read_all st.channels))
  find_chans-filter st f (q, r) = find_chans-collect st f 0 q ∙ collect-filter r f [] st.channels

  collect-first :
      ((k : ℕ) → disk.entry_error k ≡ false)
      → (f : ChannelInfo → Bool) (xs : List (ℕ × ChannelInfo))
      → first_of (collect disk f 1 [] xs) ≡ first f (read_all xs)
  unfolding collect
  collect-first r f [] = refl
  collect-first r f ((k, c) ∷ xs) = elim (Bool-cases (f (unmarshall c))) [
    | inl e ↦ rw (r k, e) refl
    | inr e ↦ rw (r k, e) (collect-first r f xs)
  ]

  -- A single channel is the first that passes the filter, where all entries can be read.
  pub find_chan-first :
      (st : Store) (f : ChannelInfo → Bool)
      → Readable disk
      → find_chan disk st f ≡ first f (read_all st.channels)
  unfolding find_chan
  find_chan-first st f (q, r) =
      ap first_of (find_chans-collect st f 1 q) ∙ collect-first r f st.channels

  collect-unreadable :
      (f : ChannelInfo → Bool) (xs ys : List (ℕ × ChannelInfo)) (k : ℕ) (c : ChannelInfo)
      → disk.entry_error k ≡ true
      → first f (read_all xs) ≡ untracked
      → collect disk f 1 [] (xs ++ ((k, c) ∷ ys)) ≡ ok []
  unfolding collect
  collect-unreadable f [] ys k c e h = rw e refl
  collect-unreadable f ((j, x) ∷ xs) ys k c e h = elim (Bool-cases (disk.entry_error j)) [
    | inl g ↦ rw g refl
    | inr g ↦ elim (Bool-cases (f (unmarshall x))) [
      | inl t ↦ ground (arith, t, h)
      | inr t ↦ rw (g, t) (collect-unreadable f xs ys k c e (rw (sym h, t) refl))
    ]
  ]

  -- An entry that cannot be read hides every channel behind it: unless an entry before it passes the
  -- filter, no channel is found and no error is reported, whatever the rest of the store holds.
  find_chan-unreadable :
      (st : Store) (f : ChannelInfo → Bool) (xs ys : List (ℕ × ChannelInfo)) (k : ℕ)
      (c : ChannelInfo)
      → disk.query_error ≡ none
      → disk.entry_error k ≡ true
      → st.channels ≡ xs ++ ((k, c) ∷ ys)
      → first f (read_all xs) ≡ untracked
      → find_chan disk st f ≡ untracked
  unfolding find_chan
  find_chan-unreadable st f xs ys k c q e s h = ap first_of (
      find_chans-collect st f 1 q ∙ ap (collect disk f 1 []) s ∙ collect-unreadable f xs ys k c e h)

pub unmarshall-channel_id : (c : ChannelInfo) → (unmarshall c).channel_id ≡ c.channel_id
unfolding unmarshall
unmarshall-channel_id c = ground arith

-- A channel that is written again stays the first match of a filter that it passes.
pub first-put :
    (f : ChannelInfo → Bool) (xs : List (ℕ × ChannelInfo)) (ci c : ChannelInfo)
    → KeyedIn xs
    → first f (read_all xs) ≡ tracked ci
    → f (unmarshall c) ≡ true
    → first f (read_all (put ci.channel_id c xs)) ≡ tracked (unmarshall c)
unfolding put
first-put f [] ci c keyed h t = cc
first-put f ((k, x) ∷ xs) ci c ((i, z), keyed) h t = elim (Bool-cases (k == ci.channel_id)) [
  | inl e ↦ rw (e, t) refl
  | inr e ↦ elim (Bool-cases (f (unmarshall x))) [
    | inl g ↦ ground (arith, i, unmarshall-channel_id x, g, h, e)
    | inr g ↦ rw (e, g) (first-put f xs ci c keyed (rw (sym h, g) refl) t)
  ]
]

pub put-KeyedIn :
    (xs : List (ℕ × ChannelInfo)) (k : ℕ) (c : ChannelInfo)
    → c.channel_id ≡ k
    → k ≢ 0
    → KeyedIn xs
    → KeyedIn (put k c xs)
unfolding put
put-KeyedIn [] k c e z keyed = ((e, z), tt)
put-KeyedIn ((j, x) ∷ xs) k c e z (h, keyed) = elim (Bool-cases (j == k)) [
  | inl g ↦ rw g ((e, z), keyed)
  | inr g ↦ rw g (h, put-KeyedIn xs k c e z keyed)
]

pub first-passes :
    (f : ChannelInfo → Bool) (xs : List ChannelInfo) (ci : ChannelInfo)
    → first f xs ≡ tracked ci
    → f ci ≡ true
first-passes f [] ci h = cc
first-passes f (x ∷ xs) ci h = elim (Bool-cases (f x)) [
  | inl e ↦ ground (arith, e, h)
  | inr e ↦ first-passes f xs ci (rw (sym h, e) refl)
]

pub first-KeyedIn :
    (f : ChannelInfo → Bool) (xs : List (ℕ × ChannelInfo)) (ci : ChannelInfo)
    → KeyedIn xs
    → first f (read_all xs) ≡ tracked ci
    → ci.channel_id ≢ 0
first-KeyedIn f [] ci keyed h = cc
first-KeyedIn f ((k, x) ∷ xs) ci ((i, z), keyed) h = elim (Bool-cases (f (unmarshall x))) [
  | inl e ↦ ground (arith, i, z, unmarshall-channel_id x, e, h)
  | inr e ↦ first-KeyedIn f xs ci keyed (rw (sym h, e) refl)
]

pub unmarshall-settling_at : (c : ChannelInfo) → (unmarshall c).settling_at ≡ pos 0
unfolding unmarshall
unmarshall-settling_at c = ground arith

pub first-settling_at :
    (f : ChannelInfo → Bool) (xs : List (ℕ × ChannelInfo)) (ci : ChannelInfo)
    → first f (read_all xs) ≡ tracked ci
    → ci.settling_at ≡ pos 0
first-settling_at f [] ci h = cc
first-settling_at f ((k, x) ∷ xs) ci h = elim (Bool-cases (f (unmarshall x))) [
  | inl e ↦ ground (arith, unmarshall-settling_at x, e, h)
  | inr e ↦ first-settling_at f xs ci (rw (sym h, e) refl)
]
