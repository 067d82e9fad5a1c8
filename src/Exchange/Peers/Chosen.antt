-- ===== src/Exchange/Peers/Chosen.antt =====
-- Which peers, and how many, Peers of exchange/peermgr.go gives.
use pop.Common.{
  ℕ, suc, ◌+◌, ◌≤◌, ◌<◌, ◌≡◌, ◌≢◌, arith, Bool, true, false, not, ◌&&◌, List, [], ◌∷◌, ◌++◌, none,
  some, length, length-append, ◌==◌, if◌then◌else◌, Bool-cases, inl, inr, All, All-append,
}
use pop.Common.Assoc.{find}
use pop.Common.Int.{ℤ, pos, is_zero, ◌-ℤ◌}
use pop.Exchange.Buckets.{is_in}
use pop.Exchange.Peers.{
  Region, Peer, PeerMgr, initial, in_region, is_count, add_region, add_regions, peers,
}

abbrev pub is_peer : ℕ → List (ℕ × Peer) → Bool
is_peer p known = elim (find p known) [ none ↦ false | some _ ↦ true ]

-- Connected, and not to be ignored.
abbrev pub Chosen : List (ℕ × Peer) → List ℕ → ℕ → Type 0
Chosen known ignore p = (is_peer p known ≡ true) × (is_in p ignore ≡ false)

initial-Chosen :
    (known : List (ℕ × Peer)) (ignore init : List ℕ)
    → All (Chosen known ignore) (initial known ignore init)
unfolding initial
initial-Chosen known ignore [] = tt
initial-Chosen known ignore (p ∷ ps) = elim (Bool-cases (is_peer p known && not (is_in p ignore))) [
  | inr h ↦ rw h (initial-Chosen known ignore ps)
  | inl h ↦ rw h ((ground (arith, h), ground (arith, h)), initial-Chosen known ignore ps)
]

in_region-Chosen :
    (known : List (ℕ × Peer)) (ignore : List ℕ) (code p : ℕ) (cs : List ℕ)
    → Chosen known ignore p
    → All (Chosen known ignore) (in_region code p cs)
unfolding in_region
in_region-Chosen known ignore code p [] h = tt
in_region-Chosen known ignore code p (c ∷ cs) h = elim (Bool-cases (c == code)) [
  | inl e ↦ rw e (h, in_region-Chosen known ignore code p cs h)
  | inr e ↦ rw e (in_region-Chosen known ignore code p cs h)
]

-- Every key of the second map is one of the first.
abbrev Within : List (ℕ × Peer) → List (ℕ × Peer) → Type 0
Within known part = (p : ℕ) → is_peer p part ≡ true → is_peer p known ≡ true

is_peer-here : (p : ℕ) (v : Peer) (rest : List (ℕ × Peer)) → is_peer p ((p, v) ∷ rest) ≡ true
unfolding find
is_peer-here p v rest = ground arith

is_peer-later :
    (q p : ℕ) (v : Peer) (rest : List (ℕ × Peer))
    → is_peer q rest ≡ true
    → is_peer q ((p, v) ∷ rest) ≡ true
unfolding find
is_peer-later q p v rest h = ground arith

add_region-Chosen :
    (n : ℤ) (code : ℕ) (ignore : List ℕ) (known part : List (ℕ × Peer)) (found : List ℕ)
    → Within known part
    → All (Chosen known ignore) found
    → All (Chosen known ignore) (add_region n code ignore part found).0
unfolding add_region
add_region-Chosen n code ignore known [] found w h = h
add_region-Chosen n code ignore known ((p, v) ∷ rest) found w h =
    let found' = found ++ in_region code p v.regions in
    let w' : Within known rest = λ q k. w q (is_peer-later q p v rest k) in
    elim (Bool-cases (is_in p ignore)) [
      | inl i ↦ rw i (add_region-Chosen n code ignore known rest found w' h)
      | inr i ↦
          let here : Chosen known ignore p = (w p (is_peer-here p v rest), i) in
          let all : All (Chosen known ignore) found' =
            All-append (Chosen known ignore) found (in_region code p v.regions)
              (h, in_region-Chosen known ignore code p v.regions here) in
          elim (Bool-cases (is_count n found')) [
            | inl e ↦ rw (i, e) all
            | inr e ↦ rw (i, e) (add_region-Chosen n code ignore known rest found' w' all)
          ]
    ]

add_regions-Chosen :
    (n : ℤ) (rl : List Region) (ignore : List ℕ) (known : List (ℕ × Peer)) (found : List ℕ)
    → All (Chosen known ignore) found
    → All (Chosen known ignore) (add_regions n rl ignore known found)
unfolding add_regions
add_regions-Chosen n [] ignore known found h = h
add_regions-Chosen n (r ∷ rs) ignore known found h =
    let all = add_region-Chosen n r.code ignore known known found (λ p k. k) h in
    elim (Bool-cases (add_region n r.code ignore known found).1) [
      | inl e ↦ rw e all
      | inr e ↦ rw e (add_regions-Chosen n rs ignore known _ all)
    ]

-- The map gives a peer at most one region of each code.
abbrev pub AtMostOnce : ℕ → List (ℕ × Peer) → Type 0
AtMostOnce code [] = Unit
AtMostOnce code ((p, v) ∷ rest) = (length (in_region code p v.regions) ≤ 1) × AtMostOnce code rest

is_count-eq : (n : ℕ) (ps : List ℕ) → is_count (pos n) ps ≡ true → length ps ≡ n
unfolding ◌-ℤ◌
is_count-eq n ps h = ground arith

is_count-ne : (n : ℕ) (ps : List ℕ) → is_count (pos n) ps ≡ false → length ps ≢ n
unfolding ◌-ℤ◌
is_count-ne n ps h e = ground arith

-- Enough means that the number is reached, not enough that it is not.
abbrev Counted : ℕ → List ℕ × Bool → Type 0
Counted n (found, true) = length found ≡ n
Counted n (found, false) = length found < n

add_region-Counted :
    (n code : ℕ) (ignore : List ℕ) (part : List (ℕ × Peer)) (found : List ℕ)
    → AtMostOnce code part
    → length found < n
    → Counted n (add_region (pos n) code ignore part found)
unfolding add_region
add_region-Counted n code ignore [] found o h = h
add_region-Counted n code ignore ((p, v) ∷ rest) found (one, o) h =
    let more = in_region code p v.regions in
    let sum : length (found ++ more) ≡ length found + length more = length-append found more in
    elim (Bool-cases (is_in p ignore)) [
      | inl i ↦ rw i (add_region-Counted n code ignore rest found o h)
      | inr i ↦ elim (Bool-cases (is_count (pos n) (found ++ more))) [
        | inl e ↦ rw (i, e) (is_count-eq n (found ++ more) e)
        | inr e ↦
            let other = is_count-ne n (found ++ more) e in
            rw (i, e)
              (add_region-Counted n code ignore rest (found ++ more) o (omega (arith, other)))
      ]
    ]

abbrev pub EachOnce : List Region → List (ℕ × Peer) → Type 0
EachOnce rl known = All (λ (r : Region). AtMostOnce r.code known) rl

add_regions-le :
    (n : ℕ) (rl : List Region) (ignore : List ℕ) (known : List (ℕ × Peer)) (found : List ℕ)
    → EachOnce rl known
    → length found < n
    → length (add_regions (pos n) rl ignore known found) ≤ n
unfolding add_regions
add_regions-le n [] ignore known found o h = omega arith
add_regions-le n (r ∷ rs) ignore known found (one, o) h =
    by_enough (add_region (pos n) r.code ignore known found)
      (add_region-Counted n r.code ignore known found one h)
      (λ f. add_regions-le n rs ignore known f o)
  where
    by_enough :
        (t : List ℕ × Bool)
        → Counted n t
        → ((f : List ℕ) → length f < n → length (add_regions (pos n) rs ignore known f) ≤ n)
        → length (if t.1 then t.0 else add_regions (pos n) rs ignore known t.0) ≤ n
    by_enough (f, true) c later = omega (arith, c)
    by_enough (f, false) c later = later f c

-- Peers gives only peers that are connected and not to be ignored. It gives at most n of them if at
-- most n of the peers that the caller named are of this kind, and no peer names one region twice.
pub peers-le :
    (n : ℕ) (rl : List Region) (ignore init : List ℕ) (pm : PeerMgr)
    → EachOnce rl pm.peers
    → length (initial pm.peers ignore init) ≤ n
    → All (Chosen pm.peers ignore) (peers (pos n) rl ignore init pm)
      × (length (peers (pos n) rl ignore init pm) ≤ n)
unfolding peers
peers-le n rl ignore init pm o h =
    let first = initial pm.peers ignore init in
    let chosen = initial-Chosen pm.peers ignore init in
    elim (Bool-cases (is_zero (pos n))) [
      | inl z ↦ rw z (tt, omega arith)
      | inr z ↦ elim (Bool-cases (is_count (pos n) first)) [
        | inl e ↦ rw (z, e) (chosen, h)
        | inr e ↦
            let other = is_count-ne n first e in
            rw (z, e)
              (
                add_regions-Chosen (pos n) rl ignore pm.peers first chosen,
                add_regions-le n rl ignore pm.peers first o (omega (arith, other)),
              )
      ]
    ]

-- A peer that is in two of the regions that are asked for is given twice.
peers_twice :
    (n p latency : ℕ) (r s : Region) (pm : PeerMgr)
    → (r.code == s.code) ≡ false
    → let v : Peer = record { regions = r.code ∷ s.code ∷ []; latency = latency } in
      peers (pos (suc (suc (suc n)))) (r ∷ s ∷ []) [] [] (record pm { peers = (p, v) ∷ [] })
      ≡ p ∷ p ∷ []
unfolding peers ◌-ℤ◌
peers_twice n p latency r s pm d = ground arith
