-- ===== src/Retrieval/Revalidator/Gate.antt =====
-- The gate of retrieval/validators.go: how far a transfer runs ahead of its payments.
use pop.Common.{
  List, ap, ℕ, ◌+◌, ◌≤◌, ◌<◌, ◌≡◌, ◌≢◌, refl, ◌∙◌, ◌⊎◌, inl, inr, true, false, ◌||◌, Option, none,
  some, [], ◌∷◌, arith, ltb, ◌==◌, Bool-cases, u64, if◌then◌else◌,
}
use pop.Common.Int.{ℤ, is_zero}
use pop.Retrieval.Status.{Status}
use pop.Retrieval.Deal.{ProviderState, DealIdentifier}
use pop.Retrieval.Provider.Event.{Event}
use pop.Retrieval.Revalidator.State.{
  ChannelData, Tracked, lookup, insert, delete, untrack_channel, RevalidatorEnvironment, nil,
  from_send, Reply, unpaid,
}
use pop.Retrieval.Revalidator.Sent.{
  ask_payment, count_sent, on_pull_data_sent, load_deal_state, loaded,
}

lookup-insert :
    (j k : ℕ) (c : ChannelData) (t : Tracked)
    → lookup j (insert k c t) ≡ (if k == j then some c else lookup j t)
unfolding lookup insert
lookup-insert j k c [] = refl
lookup-insert j k c ((i, b) ∷ t) = ground (arith, lookup-insert j k c t)

lookup-insert_self : (k : ℕ) (c : ChannelData) (t : Tracked) → lookup k (insert k c t) ≡ some c
lookup-insert_self k c t = ground (arith, lookup-insert k k c t)

lookup-delete :
    (j k : ℕ) (t : Tracked) → lookup j (delete k t) ≡ (if k == j then none else lookup j t)
unfolding lookup delete
lookup-delete j k [] = ground arith
lookup-delete j k ((i, b) ∷ t) = ground (arith, lookup-delete j k t)

-- The checks of a transfer one after the other, with the sizes that were sent: what each sends as an event
-- and replies.
abbrev pub Answers : Type 0
Answers = List (Option Event × Reply)

abbrev pub with_answer :
    Option Event → Reply → Option (Tracked × Answers) → Option (Tracked × Answers)
with_answer e r none = none
with_answer e r (some (t, answers)) = some (t, (e, r) ∷ answers)

unfoldable pub checks : RevalidatorEnvironment → ℕ → List ℕ → Tracked → Option (Tracked × Answers)
checks env chid [] t = some (t, [])
checks env chid (b ∷ bs) t = elim (on_pull_data_sent env chid b t) [
  | none ↦ none
  | some (t', e, r) ↦ with_answer e r (checks env chid bs t')
]

abbrev pub sum : List ℕ → ℕ
sum [] = 0
sum (b ∷ bs) = b + sum bs

-- Once so many bytes were sent: the content is free or they are below the interval, the event reports
-- them, and the reply has no error but that of the event; or they have reached the interval, the event
-- asks for their payment, and the reply is an error, so that the transfer does not go on.
abbrev pub Gated :
    RevalidatorEnvironment → DealIdentifier → ℤ → ℕ → ℕ → Option Event → Reply → Type 0
Gated env id price interval sent e r =
    (((is_zero price ≡ true) ⊎ (sent < interval))
      × (e ≡ some (Event.block_sent sent))
      × (r.error ≡ from_send (env.send_event id (Event.block_sent sent))))
    ⊎ ((is_zero price ≡ false)
        × (interval ≤ sent)
        × (e ≡ some (Event.payment_requested sent))
        × (r.error ≢ nil))

-- Every check is gated by the bytes that were sent up to it.
abbrev pub AllGated :
    RevalidatorEnvironment → DealIdentifier → ℤ → ℕ → ℕ → List ℕ → Answers → Type 0
AllGated env id price interval sent [] [] = Unit
AllGated env id price interval sent [] (_ ∷ _) = false ≡ true
AllGated env id price interval sent (b ∷ bs) [] = false ≡ true
AllGated env id price interval sent (b ∷ bs) ((e, r) ∷ answers) =
    Gated env id price interval (sent + b) e r
    × AllGated env id price interval (sent + b) bs answers

load-fresh :
    (env : RevalidatorEnvironment) (chid : ℕ) (c : ChannelData) (t : Tracked)
    → c.reload ≡ false
    → load_deal_state env chid c t ≡ loaded t
unfolding load_deal_state
load-fresh env chid c t fresh = rw fresh

on_pull-count_sent :
    (env : RevalidatorEnvironment) (chid bytes : ℕ) (t : Tracked) (c : ChannelData)
    → lookup chid t ≡ some c
    → c.reload ≡ false
    → on_pull_data_sent env chid bytes t ≡ count_sent env chid bytes t c
unfolding on_pull_data_sent
on_pull-count_sent env chid bytes t c found fresh =
    rw (found, on_pull_data_sent, load-fresh env chid c t fresh, found)

count_sent-Gated :
    (env : RevalidatorEnvironment) (chid bytes : ℕ) (t : Tracked) (c : ChannelData)
    → c.total_sent + bytes < 18446744073709551616
    → (e : Option Event) × (r : Reply) × (count_sent env chid bytes t c
        ≡ some (insert chid (record c { total_sent = c.total_sent + bytes }) t, e, r))
      × Gated env c.deal_id c.price_per_byte c.interval (c.total_sent + bytes) e r
unfolding count_sent ask_payment
count_sent-Gated env chid bytes t c small =
    let sent = c.total_sent + bytes in
    let now : ChannelData = record c { total_sent = sent } in
    let fits : u64 sent ≡ sent = omega (arith, small) in
    let asked =
      ask_payment env c.deal_id (Event.payment_requested sent) Status.funds_needed (unpaid now) in
    elim (Bool-cases (is_zero c.price_per_byte || ltb sent c.interval)) [
      | inl below ↦ (
        some (Event.block_sent sent),
        record {
          handled = true;
          response = none;
          error = from_send (env.send_event c.deal_id (Event.block_sent sent));
        },
        rw (fits, below) refl,
        inl (ground (arith, below), refl, refl),
      )
      | inr reached ↦ (
        some (Event.payment_requested sent),
        asked,
        rw (fits, reached) refl,
        inr (ground (arith, reached), ground (arith, reached), refl, λ h. ground (arith, h)),
      )
    ]

checks-next :
    (env : RevalidatorEnvironment) (chid b : ℕ) (bs : List ℕ) (t t1 t' : Tracked) (e : Option Event)
    (r : Reply) (answers : Answers)
    → on_pull_data_sent env chid b t ≡ some (t1, e, r)
    → checks env chid bs t1 ≡ some (t', answers)
    → checks env chid (b ∷ bs) t ≡ some (t', (e, r) ∷ answers)
unfolding checks
checks-next env chid b bs t t1 t' e r answers one run = ground (arith, one, run)

-- A channel is tracked and needs no reload, and the bytes sent stay below 2^64. However much is sent
-- before the next payment, in whatever steps: each check reports all the bytes sent so far, with no
-- error but that of the event, exactly while the content is free or they are below the interval, and
-- asks for their payment, with an error, otherwise. In the end the table has all the bytes that were
-- sent, and is otherwise as it was.
pub on_pull_data_sent-gate :
    (env : RevalidatorEnvironment) (chid : ℕ) (sizes : List ℕ) (t : Tracked) (c : ChannelData)
    → lookup chid t ≡ some c
    → c.reload ≡ false
    → c.total_sent + sum sizes < 18446744073709551616
    → (t' : Tracked) × (answers : Answers) × (checks env chid sizes t ≡ some (t', answers))
      × ((j : ℕ)
          → lookup j t' ≡ (
              if chid == j
              then some (record c { total_sent = c.total_sent + sum sizes })
              else lookup j t))
      × AllGated env c.deal_id c.price_per_byte c.interval c.total_sent sizes answers
unfolding checks
on_pull_data_sent-gate env chid [] t c found fresh small = (
  t,
  [],
  refl,
  λ j. elim (Bool-cases (chid == j)) [
    | inl e ↦ rw e (
        ap (λ k. lookup k t) (ground (arith, e))
        ∙ found
        ∙ ap (λ n. some (record c { total_sent = n })) (omega arith))
    | inr e ↦ rw e refl
  ],
  tt,
)
on_pull_data_sent-gate env chid (b ∷ bs) t c found fresh small =
    let now : ChannelData = record c { total_sent = c.total_sent + b } in
    let t1 = insert chid now t in
    let (e, r, counted, gated) = count_sent-Gated env chid b t c (omega (arith, small)) in
    let one = on_pull-count_sent env chid b t c found fresh ∙ counted in
    let (t', answers, run, looks, later) =
      on_pull_data_sent-gate env chid bs t1 now (lookup-insert_self chid now t) fresh
        (omega (arith, small)) in
    (
      t',
      (e, r) ∷ answers,
      checks-next env chid b bs t t1 t' e r answers one run,
      λ j. looks j ∙ elim (Bool-cases (chid == j)) [
        | inl here ↦ rw here (ap (λ n. some (record c { total_sent = n })) (omega arith))
        | inr other ↦ rw other (lookup-insert j chid now t ∙ rw other refl)
      ],
      (gated, later),
    )

-- Untracking a deal takes the entry of its channel out of the table and leaves every other entry.
untrack_channel-lookup :
    (d : ProviderState) (t : Tracked) (j : ℕ)
    → lookup j (untrack_channel d t) ≡ (if d.channel_id == j then none else lookup j t)
unfolding untrack_channel
untrack_channel-lookup d t j = lookup-delete j d.channel_id t
