-- ===== src/Retrieval/Fsm.antt =====
-- The charts that retrieval/client/fsm.go and retrieval/provider/fsm.go hand to the state machine
-- library, and what they rely on in it. The library (go-statemachine/fsm) is a parameter.
use pop.Common.{
  ◌≡◌, sym, ◌∙◌, inl, inr, Bool, true, false, ◌||◌, List, [], ◌∷◌, Option, none, some, Bool-cases,
  Option-cases, arith, if◌then◌else◌,
}
use pop.Retrieval.Status.{Status, same}

-- Where a row of the chart leads: `To`, `ToNoChange` or `ToJustRecord`.
pub data Dest : Type 0 where
  to : Status → Dest
  no_change just_record : Dest

-- A row `From(…)` or `FromMany(…)` with its destination, or one `FromAny()`.
pub data Row : Type 0 where
  from : List Status → Dest → Row
  from_any : Dest → Row

-- `action` is none where it dereferences nil; `well_typed` says that an event carries the arguments
-- that its action takes.
pub record Chart (E D : Type 0) : Type 0 where
  pub rows : E → List Row
  pub action : E → D → Option D
  pub well_typed : E → Bool
  pub status : D → Status
  pub set_status : D → Status → D
  pub is_final : Status → Bool

unfoldable pub among : Status → List Status → Bool
unfolding same
among s [] = false
among s (t ∷ ts) = same s t || among s ts

-- The destination of the rows that name the status.
unfoldable pub named : Status → List Row → Option Dest
unfolding among
named s [] = none
named s (from ts d ∷ rs) = let rest = named s rs in if among s ts then some d else rest
named s (from_any d ∷ rs) = named s rs

unfoldable pub fallback : List Row → Option Dest
fallback [] = none
fallback (from ts d ∷ rs) = fallback rs
fallback (from_any d ∷ rs) = some d

-- A row that names the status comes before one from any status.
unfoldable pub destination : List Row → Status → Option Dest
unfolding named fallback
destination rs s = elim (named s rs) [ some d ↦ some d | none ↦ fallback rs ]

-- `entered` is true where the entry function of the status is run afterwards.
pub data Reply (D : Type 0) : Type 0 where
  moved : D → Bool → Reply D
  refused panicked : Reply D

module _ {E D : Type 0} (c : Chart E D) where
  unfoldable pub arrive : D → Dest → Reply D
  arrive d (to s) = moved (c.set_status d s) true
  arrive d no_change = moved d true
  arrive d just_record = moved d false

-- The library, by its documented behaviour: a deal in a final status receives no event, an event
-- without a row for the status or with the wrong arguments is an error that changes nothing, and
-- otherwise the action runs first and the status is set after it.
pub record FsmLibrary : Type 1 where
  pub send : (E D : Type 0) → Chart E D → E → D → Reply D
  pub send_final :
      (E D : Type 0) (c : Chart E D) (e : E) (d : D)
      → c.is_final (c.status d) ≡ true
      → send E D c e d ≡ refused
  pub send_invalid :
      (E D : Type 0) (c : Chart E D) (e : E) (d : D)
      → destination (c.rows e) (c.status d) ≡ none
      → send E D c e d ≡ refused
  pub send_ill_typed :
      (E D : Type 0) (c : Chart E D) (e : E) (d : D)
      → c.well_typed e ≡ false
      → send E D c e d ≡ refused
  pub send_panics :
      (E D : Type 0) (c : Chart E D) (e : E) (d : D) (dst : Dest)
      → c.is_final (c.status d) ≡ false
      → destination (c.rows e) (c.status d) ≡ some dst
      → c.well_typed e ≡ true
      → c.action e d ≡ none
      → send E D c e d ≡ panicked
  pub send_moves :
      (E D : Type 0) (c : Chart E D) (e : E) (d : D) (dst : Dest) (d' : D)
      → c.is_final (c.status d) ≡ false
      → destination (c.rows e) (c.status d) ≡ some dst
      → c.well_typed e ≡ true
      → c.action e d ≡ some d'
      → send E D c e d ≡ arrive c d' dst

-- Those laws leave one reply to each event.
module _ {E D : Type 0} (c : Chart E D) where
  unfoldable pub acted : Dest → Option D → Reply D
  unfolding arrive
  acted dst none = panicked
  acted dst (some d) = arrive c d dst

  unfoldable pub routed : Option D → Option Dest → Reply D
  unfolding acted
  routed d none = refused
  routed d (some dst) = acted dst d

  unfoldable pub reply : E → D → Reply D
  unfolding routed
  reply e d =
      if c.is_final (c.status d)
      then refused
      else if c.well_typed e
      then routed (c.action e d) (destination (c.rows e) (c.status d))
      else refused

  pub send-reply : (lib : FsmLibrary) (e : E) (d : D) → lib.send E D c e d ≡ reply e d
  unfolding reply routed acted
  send-reply lib e d = elim (Bool-cases (c.is_final (c.status d))) [
    | inl final ↦ rw (final) (lib.send_final E D c e d final)
    | inr live ↦ elim (Bool-cases (c.well_typed e)) [
      | inr ill ↦ rw (live, ill) (lib.send_ill_typed E D c e d ill)
      | inl typed ↦ elim (Option-cases (destination (c.rows e) (c.status d))) [
        | inl missing ↦ rw (live, typed, missing, routed) (lib.send_invalid E D c e d missing)
        | inr (dst, found) ↦ elim (Option-cases (c.action e d)) [
          | inl nil ↦
              rw (live, typed, found, nil) (lib.send_panics E D c e d dst live found typed nil)
          | inr (d', done) ↦
              rw (live, typed, found, done) (lib.send_moves E D c e d dst d' live found typed done)
        ]
      ]
    ]
  ]

  pub reply_invalid :
      (e : E) (d : D) → destination (c.rows e) (c.status d) ≡ none → reply e d ≡ refused
  unfolding reply
  reply_invalid e d h = ground arith

  pub reply_ill_typed : (e : E) (d : D) → c.well_typed e ≡ false → reply e d ≡ refused
  unfolding reply
  reply_ill_typed e d h = ground arith

-- A library that does just that, which shows that the laws can hold.
unfoldable pub plain : FsmLibrary
unfolding reply
plain = record {
  send = λ E D c e d. reply c e d;
  send_final = λ E D c e d h. rw h;
  send_invalid = λ E D c e d h. reply_invalid c e d h;
  send_ill_typed = λ E D c e d h. reply_ill_typed c e d h;
  send_panics = λ E D c e d dst h k t a. rw (h, t, k, a);
  send_moves = λ E D c e d dst d' h k t a. rw (h, t, k, a);
}

-- What a move says of the chart.
pub record Moves {E D : Type 0} (c : Chart E D) (e : E) (d d' : D) (entered : Bool) : Type 0 where
  pub acts : D
  pub leads : Dest
  pub is_live : c.is_final (c.status d) ≡ false
  pub typed : c.well_typed e ≡ true
  pub acted_lem : c.action e d ≡ some acts
  pub leads_lem : destination (c.rows e) (c.status d) ≡ some leads
  pub arrives : arrive c acts leads ≡ moved d' entered

reply-moved :
    {E D : Type 0} (c : Chart E D) (e : E) (d d' : D) {entered : Bool}
    → reply c e d ≡ moved d' entered
    → Moves c e d d' entered
unfolding reply routed acted
reply-moved c e d d' h = elim (Bool-cases (c.is_final (c.status d))) [
  | inl final ↦ cc (rw final at h)
  | inr live ↦ elim (Bool-cases (c.well_typed e)) [
    | inr ill ↦ cc (rw (live, ill) at h)
    | inl typed ↦ elim (Option-cases (destination (c.rows e) (c.status d))) [
      | inl missing ↦ cc (rw (live, typed, missing, routed) at h)
      | inr (dst, found) ↦ elim (Option-cases (c.action e d)) [
        | inl nil ↦ cc (rw (live, typed, found, nil) at h)
        | inr (a, done) ↦ record {
          acts = a;
          leads = dst;
          is_live = live;
          typed = typed;
          acted_lem = done;
          leads_lem = found;
          arrives = rw (live, typed, found, done) at h;
        }
      ]
    ]
  ]
]

pub send-moved :
    {E D : Type 0} (c : Chart E D) (lib : FsmLibrary) (e : E) (d d' : D) {entered : Bool}
    → lib.send E D c e d ≡ moved d' entered
    → Moves c e d d' entered
send-moved c lib e d d' h = reply-moved c e d d' (sym (send-reply c lib e d) ∙ h)

-- A panic comes from an action that has a row.
pub send-panicked :
    {E D : Type 0} (c : Chart E D) (lib : FsmLibrary) (e : E) (d : D)
    → lib.send E D c e d ≡ panicked
    → (dst : Dest) × (destination (c.rows e) (c.status d) ≡ some dst) × (c.action e d ≡ none)
unfolding reply routed acted arrive
send-panicked {E} {D} c lib e d h = go (sym (send-reply c lib e d) ∙ h)
  where
    arrive-ne : (a : D) (dst : Dest) → arrive c a dst ≡ panicked → ⊥
    arrive-ne a (to s) p = cc
    arrive-ne a no_change p = cc
    arrive-ne a just_record p = cc

    go :
        reply c e d ≡ panicked
        → (dst : Dest) × (destination (c.rows e) (c.status d) ≡ some dst) × (c.action e d ≡ none)
    go p = elim (Bool-cases (c.is_final (c.status d))) [
      | inl final ↦ cc (rw final at p)
      | inr live ↦ elim (Bool-cases (c.well_typed e)) [
        | inr ill ↦ cc (rw (live, ill) at p)
        | inl typed ↦ elim (Option-cases (destination (c.rows e) (c.status d))) [
          | inl missing ↦ cc (rw (live, typed, missing, routed) at p)
          | inr (dst, found) ↦ elim (Option-cases (c.action e d)) [
            | inl nil ↦ (dst, found, nil)
            | inr (a, done) ↦ absurd (arrive-ne a dst (rw (live, typed, found, done) at p))
          ]
        ]
      ]
    ]
