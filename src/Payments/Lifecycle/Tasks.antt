-- ===== src/Payments/Lifecycle/Tasks.antt =====
-- processTask of payments/channel.go against the machine of phases, where the datastore works.
use mathlib.Core.Path.{subst}
use pop.Common.{ℕ, ◌≡◌, ◌⊎◌, refl, sym, ap, arith, [], ◌∷◌, Option, none, some, inl, inr}
use pop.Common.Int.{ℤ, pos}
use pop.Common.Result.{Result, ok, err, Result-cases}
use pop.Common.Text.{String}
use pop.Payments.Info.{ChannelInfo, tracked, untracked}
use pop.Payments.Queue.{FundsRes, failed_with}
use pop.Payments.Message.{Api, Message, SignedMessage, create_message, funds_message, mpool_push}
use pop.Payments.Store.{Store, Disk, create_channel, outbound_active_by_from_to, save_new_message}
use pop.Payments.Store.Ops.{nil_pointer}
use pop.Payments.Lifecycle.{
  create_wait, funds_wait, Sys, create, add_funds, create_task, add_task, process_task,
  mutate_channel_info, pend_funds,
}
use pop.Payments.Lifecycle.Only.{
  Working, outbound_active-none, outbound_active-tracked, mutate-active, active-passes,
  same_channels,
}
use pop.Payments.Lifecycle.Created.{
  save_new_message-channels, new_channel, create_channel-id, create-active,
}
use pop.Payments.Lifecycle.Phase.{Phase, absent, creating, open_at, adding, on_task, Shows}

module _ (disk : Disk) (working : Working disk) (from to : ℕ) where
  abbrev Shown : Sys → Phase → Type 0
  Shown = Shows disk working from to

  -- A task's outcome, with the message that it sent.
  abbrev Follows : Phase → ℤ → Sys × Option FundsRes → Type 0
  Follows phase amt p =
      (sent : Result (ℕ × ℕ)) × Shown p.0 (on_task phase amt sent).0
      × (p.1 ≡ (on_task phase amt sent).1)

  module _ (api : Api) where
    create-err :
        (sys : Sys) (amt : ℤ) (e : String)
        → outbound_active_by_from_to disk sys.store from to ≡ untracked
        → create disk api sys.store from to amt ≡ (sys.store, err e)
        → process_task disk api sys from to amt ≡ (sys, some (failed_with e))
    unfolding process_task create_task
    create-err sys amt e h c = ground (arith, h, c)

    create-ok :
        (sys : Sys) (amt : ℤ) (st : Store) (mcid id : ℕ)
        → outbound_active_by_from_to disk sys.store from to ≡ untracked
        → create disk api sys.store from to amt ≡ (st, ok (mcid, id))
        → process_task disk api sys from to amt ≡ (
          record { store = st; waiting = create_wait id mcid ∷ sys.waiting },
          some (record { channel = none; mcid = some mcid; error = none }),
        )
    unfolding process_task create_task
    create-ok sys amt st mcid id h c = ground (arith, h, c)

    create_unbuilt :
        (st : Store) (amt : ℤ) (e : String)
        → create_message api from to amt ≡ err e
        → create disk api st from to amt ≡ (st, err nil_pointer)
    unfolding create
    create_unbuilt st amt e h = ground (arith, h)

    create_unsent :
        (st : Store) (amt : ℤ) (msg : Message) (e : String)
        → create_message api from to amt ≡ ok msg
        → (mpool_push api msg).1 ≡ err e
        → create disk api st from to amt ≡ (st, err e)
    unfolding create
    create_unsent st amt msg e h p = ground (arith, h, p)

    create_sent :
        (st : Store) (amt : ℤ) (msg : Message) (smsg : SignedMessage)
        → create_message api from to amt ≡ ok msg
        → (mpool_push api msg).1 ≡ ok smsg
        → create disk api st from to amt ≡ (
          (create_channel disk st from to (api.signed_cid smsg) amt).0,
          ok (api.signed_cid smsg, disk.new_id st),
        )
    unfolding create
    create_sent st amt msg smsg h p =
        let (ci, c, i) = create_channel-id disk working from to st (api.signed_cid smsg) amt in
        ground (arith, h, p, c, i)

    sent-Follows :
        (sys : Sys) (amt : ℤ) (mcid : ℕ)
        → Shown sys absent
        → Follows absent amt (
          record {
            store = (create_channel disk sys.store from to mcid amt).0;
            waiting = create_wait (disk.new_id sys.store) mcid ∷ sys.waiting;
          },
          some (record { channel = none; mcid = some mcid; error = none }),
        )
    unfolding on_task new_channel
    sent-Follows sys amt mcid (s, h, w) =
        let (s', h') = create-active disk working from to sys.store mcid amt s h in
        (
          ok (mcid, disk.new_id sys.store),
          (
            s',
            (
              new_channel disk working from to sys.store mcid amt,
              h',
              (refl, refl, refl, refl, refl, refl),
            ),
            ap (λ ws. create_wait (disk.new_id sys.store) mcid ∷ ws) w,
          ),
          refl,
        )

    absent-Follows :
        (sys : Sys) (amt : ℤ)
        → Shown sys absent
        → Follows absent amt (process_task disk api sys from to amt)
    unfolding on_task
    absent-Follows sys amt (s, h, w) =
        let none_found = outbound_active-none disk working from to sys.store h in
        let failed =
          λ (e : String) (c : create disk api sys.store from to amt ≡ (sys.store, err e)).
            subst (Follows absent amt) (sym (create-err sys amt e none_found c))
              (err e, (s, h, w), refl) in
        elim (Result-cases (create_message api from to amt)) [
          | inl (e, b) ↦ failed nil_pointer (create_unbuilt sys.store amt e b)
          | inr (msg, b) ↦ elim (Result-cases ((mpool_push api msg).1)) [
            | inl (e, q) ↦ failed e (create_unsent sys.store amt msg e b q)
            | inr (smsg, q) ↦
                subst (Follows absent amt)
                  (sym (
                    create-ok sys amt
                      (create_channel disk sys.store from to (api.signed_cid smsg) amt).0
                      (api.signed_cid smsg) (disk.new_id sys.store) none_found
                      (create_sent sys.store amt msg smsg b q)))
                  (sent-Follows sys amt (api.signed_cid smsg) (s, h, w))
          ]
        ]

    pub task_waits :
        (sys : Sys) (amt : ℤ) (ci : ChannelInfo) (m : ℕ)
        → outbound_active_by_from_to disk sys.store from to ≡ tracked ci
        → (ci.create_msg ≡ some m) ⊎ ((ci.create_msg ≡ none) × (ci.add_funds_msg ≡ some m))
        → process_task disk api sys from to amt ≡ (sys, none)
    unfolding process_task
    task_waits sys amt ci m h (inl c) = ground (arith, h, c)
    task_waits sys amt ci m h (inr (c, a)) = ground (arith, h, c, a)

    add_unsent :
        (sys : Sys) (amt : ℤ) (ci : ChannelInfo) (a : ℕ) (e : String)
        → outbound_active_by_from_to disk sys.store from to ≡ tracked ci
        → ci.create_msg ≡ none
        → ci.add_funds_msg ≡ none
        → ci.channel ≡ some a
        → (mpool_push api (funds_message api ci.control a amt)).1 ≡ err e
        → process_task disk api sys from to amt ≡ (sys, some (failed_with e))
    unfolding process_task add_task add_funds
    add_unsent sys amt ci a e h c f k p = ground (arith, h, c, f, k, p)

    abbrev after_add : Store → ChannelInfo → ℤ → ℕ → Store
    after_add st ci amt mcid =
        (save_new_message disk (mutate_channel_info disk st ci.channel_id (pend_funds amt mcid))
          ci.channel_id mcid).0

    add_sent :
        (sys : Sys) (amt : ℤ) (ci : ChannelInfo) (a : ℕ) (smsg : SignedMessage)
        → outbound_active_by_from_to disk sys.store from to ≡ tracked ci
        → ci.create_msg ≡ none
        → ci.add_funds_msg ≡ none
        → ci.channel ≡ some a
        → (mpool_push api (funds_message api ci.control a amt)).1 ≡ ok smsg
        → process_task disk api sys from to amt ≡ (
          record {
            store = after_add sys.store ci amt (api.signed_cid smsg);
            waiting = funds_wait ci.channel_id (api.signed_cid smsg) ∷ sys.waiting;
          },
          some (record { channel = ci.channel; mcid = some (api.signed_cid smsg); error = none }),
        )
    unfolding process_task add_task add_funds
    add_sent sys amt ci a smsg h c f k p = ground (arith, h, c, f, k, p)

    open-Follows :
        (sys : Sys) (amt : ℤ) (id a : ℕ) (b : ℤ)
        → Shown sys (open_at id a b)
        → Follows (open_at id a b) amt (process_task disk api sys from to amt)
    unfolding on_task
    open-Follows sys amt id a b (s, (ci, h, (i, k, n, m, z, c', f)), w) =
        let found = outbound_active-tracked disk working from to sys.store ci h in
        elim (Result-cases ((mpool_push api (funds_message api ci.control a amt)).1)) [
          | inl (e, q) ↦
              subst (Follows (open_at id a b) amt) (sym (add_unsent sys amt ci a e found c' f k q))
                (err e, (s, (ci, h, (i, k, n, m, z, c', f)), w), refl)
          | inr (smsg, q) ↦
              let mcid = api.signed_cid smsg in
              let (s', h') =
                mutate-active disk working from to sys.store ci (pend_funds amt mcid) s h refl
                  (λ e. n (ground (arith, k, e)))
                  (active-passes disk working from to sys.store ci h) in
              let st' = mutate_channel_info disk sys.store ci.channel_id (pend_funds amt mcid) in
              let c : ChannelInfo = record (pend_funds amt mcid ci) { settling_at = pos 0 } in
              let (s'', h'') =
                same_channels disk working from to st' (after_add sys.store ci amt mcid) (c ∷ [])
                  (save_new_message-channels disk working from to st' ci.channel_id mcid) s' h' in
              subst (Follows (open_at id a b) amt) (sym (add_sent sys amt ci a smsg found c' f k q))
                (
                  ok (mcid, id),
                  (s'', (c, h'', (i, k, n, m, refl, c', refl)), ground (arith, i, w)),
                  ground (arith, k),
                )
        ]

    -- Whatever the phase, a task does what the machine of phases does.
    pub task-Follows :
        (sys : Sys) (phase : Phase) (amt : ℤ)
        → Shown sys phase
        → Follows phase amt (process_task disk api sys from to amt)
    unfolding on_task
    task-Follows sys absent amt h = absent-Follows sys amt h
    task-Follows sys (open_at id a b) amt h = open-Follows sys amt id a b h
    task-Follows sys (creating id m x live) amt (s, (ci, h, (i, k, n, p, c, f)), w) =
        subst (Follows (creating id m x live) amt)
          (sym (
            task_waits sys amt ci m (outbound_active-tracked disk working from to sys.store ci h)
              (inl c)))
          (err "", (s, (ci, h, (i, k, n, p, c, f)), w), refl)
    task-Follows sys (adding id a b m x live) amt (s, (ci, h, (i, k, n, p, y, c, f)), w) =
        subst (Follows (adding id a b m x live) amt)
          (sym (
            task_waits sys amt ci m (outbound_active-tracked disk working from to sys.store ci h)
              (inr (c, f))))
          (err "", (s, (ci, h, (i, k, n, p, y, c, f)), w), refl)
