-- ===== src/Payments/Manager/Track.antt =====
-- The channel that payments/manager.go makes from the chain's state: its next lane is above every lane
-- of the actor, and it is stored once.
use mathlib.Core.Path.{subst}
use pop.Common.{
  ℕ, ◌+◌, ◌≡◌, ◌<◌, ◌≤◌, refl, sym, ap, ◌∙◌, arith, List, [], ◌∷◌, some, ltb, if◌then◌else◌, All,
  inl, inr, u64, length,
}
use pop.Common.Result.{ok, Result-cases}
use pop.Payments.Info.{ChannelInfo, inbound}
use pop.Payments.Manager.{
  ActorInfo, Chain, max_id, next_lane_from_state, load_state_channel_info, oriented,
}

abbrev pub Below : ℕ → List ℕ → Type 0
Below bound = All (λ i. i < bound)

max_id-best : (ids : List ℕ) (best : ℕ) → best ≤ max_id ids best
unfolding max_id
max_id-best [] best = omega arith
max_id-best (i ∷ is) best = ground (arith, max_id-best is (if ltb best i then i else best))

max_id-Below : (ids : List ℕ) (best : ℕ) → Below (max_id ids best + 1) ids
unfolding max_id
max_id-Below [] best = tt
max_id-Below (i ∷ is) best = (
  ground (arith, max_id-best is (if ltb best i then i else best)),
  max_id-Below is (if ltb best i then i else best),
)

max_id-bound :
    (ids : List ℕ) (best bound : ℕ) → best < bound → Below bound ids → max_id ids best < bound
unfolding max_id
max_id-bound [] best bound h b = h
max_id-bound (i ∷ is) best bound h (l, b) =
    max_id-bound is (if ltb best i then i else best) bound (ground (arith, h, l)) b

ok_inj : {a b : ℕ} → ok a ≡ ok b → a ≡ b
ok_inj h = cc

next_lane-eq :
    (actor : ActorInfo) (i : ℕ) (is : List ℕ)
    → actor.lane_ids ≡ ok (i ∷ is)
    → actor.lane_count ≡ ok (length (i ∷ is))
    → next_lane_from_state actor ≡ ok (u64 (max_id (i ∷ is) 0 + 1))
unfolding next_lane_from_state
next_lane-eq actor i is h c = ground (arith, h, c)

next_lane-Below :
    (actor : ActorInfo) (ids : List ℕ) (lane : ℕ)
    → actor.lane_ids ≡ ok ids
    → actor.lane_count ≡ ok (length ids)
    → Below 18446744073709551615 ids
    → next_lane_from_state actor ≡ ok lane
    → Below lane ids
next_lane-Below actor [] lane h c b n = tt
next_lane-Below actor (i ∷ is) lane h c b n =
    let small = max_id-bound (i ∷ is) 0 18446744073709551615 (omega arith) b in
    let eq : max_id (i ∷ is) 0 + 1 ≡ lane =
      ok_inj (ap ok (omega (arith, small)) ∙ sym (next_lane-eq actor i is h c) ∙ n) in
    subst (λ l. Below l (i ∷ is)) eq (max_id-Below (i ∷ is) 0)

module _ (chain : Chain) where
  -- The channel that is made from an actor's state has the address, the direction and the two ends
  -- that it should have, and a next lane above all lanes of the actor; the count of lanes is that of
  -- the list, and no lane is the last of 2^64.
  load_state_channel_info-Below :
      (ch : ℕ) (actor : ActorInfo) (ids : List ℕ) (ci : ChannelInfo)
      → chain.load_actor_state ch ≡ ok actor
      → actor.lane_ids ≡ ok ids
      → actor.lane_count ≡ ok (length ids)
      → Below 18446744073709551615 ids
      → load_state_channel_info chain ch inbound ≡ ok ci
      → Below ci.next_lane ids
        × (ci.channel ≡ some ch)
        × (chain.state_account_key actor.from ≡ ok ci.target)
        × (chain.state_account_key actor.to ≡ ok ci.control)
  unfolding load_state_channel_info
  load_state_channel_info-Below ch actor ids ci a l c b h =
      elim (Result-cases (chain.state_account_key actor.from)) [
        | inl (e, f) ↦ absurd (ground (arith, h, a, f))
        | inr (from, f) ↦ elim (Result-cases (chain.state_account_key actor.to)) [
          | inl (e, t) ↦ absurd (ground (arith, h, a, f, t))
          | inr (to, t) ↦ elim (Result-cases (next_lane_from_state actor)) [
            | inl (e, n) ↦ absurd (ground (arith, h, a, f, t, n))
            | inr (lane, n) ↦
                let same : oriented ch inbound from to lane ≡ ci = ground (arith, h, a, f, t, n) in
                subst
                  (λ x.
                    Below x.next_lane ids
                    × (x.channel ≡ some ch)
                    × (chain.state_account_key actor.from ≡ ok x.target)
                    × (chain.state_account_key actor.to ≡ ok x.control))
                  same (next_lane-Below actor ids lane l c b n, refl, f, t)
          ]
        ]
      ]
