-- ===== src/Retrieval/Revalidator/Sent.antt =====
-- The checks of retrieval/validators.go on data that was sent. `none` as a result is a panic on a
-- nil pointer.
use pop.Common.{
  ℕ, ◌+◌, true, false, ◌||◌, List, [], ◌∷◌, Option, none, some, ltb, u64, if◌then◌else◌,
}
use pop.Common.Int.{ℤ, pos, is_zero}
use pop.Common.Result.{ok, err}
use pop.Common.Text.{String}
use pop.Retrieval.Status.{Status}
use pop.Retrieval.Deal.{DealIdentifier}
use pop.Retrieval.Provider.Event.{Event}
use pop.Retrieval.Revalidator.State.{
  ChannelData, Tracked, lookup, insert, RevalidatorEnvironment, nil, pause, failed, from_send,
  Reply, write_deal_state, unpaid,
}

-- `loadDealState`: the deal that the machine holds is written to the entry of its own channel.
pub data Loaded : Type 0 where
  loaded : Tracked → Loaded
  load_failed : String → Loaded
  load_panics : Loaded

module _ (env : RevalidatorEnvironment) where
  unfoldable pub settle_reload : ℕ → Tracked → Option ChannelData → Loaded
  settle_reload chid t none = load_panics
  settle_reload chid t (some c) = loaded (insert chid (record c { reload = false }) t)

  unfoldable pub load_deal_state : ℕ → ChannelData → Tracked → Loaded
  unfolding settle_reload
  load_deal_state chid c t =
      if c.reload
      then elim (env.get c.deal_id) [
        | err e ↦ load_failed e
        | ok d ↦ elim (lookup d.channel_id t) [
          | none ↦ load_panics
          | some own ↦
              let t' = insert d.channel_id (write_deal_state d own) t in
              settle_reload chid t' (lookup chid t')
        ]
      ]
      else loaded t

  -- The answer of a data-sent check: the new table, the event that was sent and the reply.
  abbrev pub Answer : Type 0
  Answer = Option (Tracked × Option Event × Reply)

  unfoldable pub ask_payment : DealIdentifier → Event → Status → ℤ → Reply
  ask_payment id e status owed = elim (env.send_event id e) [
    | some m ↦ record { handled = true; response = none; error = failed m }
    | none ↦ record {
      handled = true;
      response =
          some (record { status = status; id = id.deal_id; payment_owed = owed; message = "" });
      error = pause;
    }
  ]

  unfoldable pub count_sent : ℕ → ℕ → Tracked → ChannelData → Answer
  unfolding ask_payment
  count_sent chid bytes t c =
      let now = record c { total_sent = u64 (c.total_sent + bytes) } in
      let t' = insert chid now t in
      if is_zero now.price_per_byte || ltb now.total_sent now.interval
      then some (
        t',
        some (Event.block_sent now.total_sent),
        record {
          handled = true;
          response = none;
          error = from_send (env.send_event now.deal_id (Event.block_sent now.total_sent));
        },
      )
      else let e = Event.payment_requested now.total_sent in
        some (t', some e, ask_payment now.deal_id e Status.funds_needed (unpaid now))

  unfoldable pub count_if : ℕ → ℕ → Tracked → Option ChannelData → Answer
  unfolding count_sent
  count_if chid bytes t none = none
  count_if chid bytes t (some c) = count_sent chid bytes t c

  unfoldable pub count_loaded : ℕ → ℕ → Tracked → Loaded → Answer
  unfolding count_if
  count_loaded chid bytes t load_panics = none
  count_loaded chid bytes t (load_failed e) =
      some (t, none, record { handled = true; response = none; error = failed e })
  count_loaded chid bytes t (loaded t') = count_if chid bytes t' (lookup chid t')

  unfoldable pub on_pull_data_sent : ℕ → ℕ → Tracked → Answer
  unfolding load_deal_state count_loaded
  on_pull_data_sent chid bytes t = elim (lookup chid t) [
    | none ↦ some (t, none, record { handled = false; response = none; error = nil })
    | some c ↦ count_loaded chid bytes t (load_deal_state chid c t)
  ]

  -- Two events may be sent on completion.
  abbrev pub Final : Type 0
  Final = Option (Tracked × List Event × Reply)

  unfoldable pub settle_complete : Tracked → Option ChannelData → Final
  unfolding ask_payment
  settle_complete t none = none
  settle_complete t (some c) = elim (env.send_event c.deal_id Event.blocks_completed) [
    | some m ↦ some (
      t,
      Event.blocks_completed ∷ [],
      record { handled = true; response = none; error = failed m },
    )
    | none ↦
        let e = Event.payment_requested c.total_sent in
        if is_zero (unpaid c)
        then some (
          t,
          Event.blocks_completed ∷ [],
          record {
            handled = true;
            response = some (record {
              status = Status.completed;
              id = c.deal_id.deal_id;
              payment_owed = pos 0;
              message = "";
            });
            error = nil;
          },
        )
        else some (
          t,
          Event.blocks_completed ∷ e ∷ [],
          ask_payment c.deal_id e Status.funds_needed_last_payment (unpaid c),
        )
  ]

  unfoldable pub on_complete : ℕ → Tracked → Final
  unfolding load_deal_state settle_complete
  on_complete chid t = elim (lookup chid t) [
    | none ↦ some (t, [], record { handled = false; response = none; error = nil })
    | some c ↦ elim (load_deal_state chid c t) [
      | load_panics ↦ none
      | load_failed e ↦ some (t, [], record { handled = true; response = none; error = failed e })
      | loaded t' ↦ settle_complete t' (lookup chid t')
    ]
  ]
