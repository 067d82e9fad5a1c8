-- ===== src/Payments/Lifecycle/Recorded.antt =====
-- What msgWaitComplete of payments/channel.go records of a message, and what getWaitReady reads of it.
use pop.Common.{
  ℕ, ◌<◌, ◌≡◌, refl, ap, ◌∙◌, arith, true, List, [], ◌∷◌, Option, none, some, inl, inr,
  if◌then◌else◌, ◌==◌, Bool-cases,
}
use pop.Common.Assoc.{find, find-put_same}
use pop.Common.Result.{Result, ok, err, wrap, Result-cases}
use pop.Common.Text.{String, len, ◌+++◌, show_ℕ}
use pop.Payments.Info.{ChannelInfo, tracked}
use pop.Payments.Store.{
  Store, Disk, MsgInfo, unmarshall, put_channel_info, put_message, save_message_result, get_message,
  by_message_cid, find_chan,
}
use pop.Payments.Store.Ops.{remove_channel}
use pop.Payments.Store.First.{KeyedIn, read_all, first, unmarshall-channel_id}
use pop.Payments.Lifecycle.{
  create_wait, funds_wait, Receipt, complete_wait, wait_paych_create_msg, wait_add_funds_msg,
  msg_wait_complete, confirm_create, confirm_funds, drop_funds, mutate_channel_info, returned,
  get_wait_ready, ready_address,
}
use pop.Payments.Lifecycle.Only.{Working}

-- The address that a caller is to have, or the error.
unfoldable pub create_outcome : Result Receipt → Result ℕ
create_outcome (err e) = err e
create_outcome (ok r) =
    if r.exit_code == 0
    then r.robust_address
    else err ("payment channel creation failed (exit code " +++ show_ℕ r.exit_code +++ ")")

unfoldable pub funds_outcome : ℕ → Result Receipt → Result ℕ
funds_outcome a (err e) = err e
funds_outcome a (ok r) =
    if r.exit_code == 0
    then ok a
    else err
        ("voucher channel creation failed: adding funds (exit code " +++ show_ℕ r.exit_code +++ ")")

abbrev pub error_of : Result ℕ → Option String
error_of (ok a) = none
error_of (err e) = some e

-- The text that is stored with a message: an error of no text is not told from none.
abbrev pub text_of : Option String → String
text_of none = ""
text_of (some e) = e

abbrev pub HasText : Result ℕ → Type 0
HasText (ok a) = Unit
HasText (err e) = 0 < len e

module _ (disk : Disk) where
  pub first-id :
      (xs : List (ℕ × ChannelInfo)) (id : ℕ) (c : ChannelInfo)
      → KeyedIn xs
      → find id xs ≡ some c
      → first (λ x. x.channel_id == id) (read_all xs) ≡ tracked (unmarshall c)
  unfolding find
  first-id [] id c k h = cc
  first-id ((j, x) ∷ xs) id c ((i, z), k) h = elim (Bool-cases (j == id)) [
    | inl e ↦ ground (arith, e, h, i, unmarshall-channel_id x)
    | inr e ↦ ground (arith, e, h, i, unmarshall-channel_id x, first-id xs id c k)
  ]

  create-error :
      (st : Store) (id : ℕ) (answer : Result Receipt)
      → (wait_paych_create_msg disk st id answer).1 ≡ error_of (create_outcome answer)
  unfolding wait_paych_create_msg create_outcome
  create-error st id (err e) = refl
  create-error st id (ok r) = ground arith

  funds-error :
      (st : Store) (id a : ℕ) (answer : Result Receipt)
      → (wait_add_funds_msg disk st id answer).1 ≡ error_of (funds_outcome a answer)
  unfolding wait_add_funds_msg funds_outcome
  funds-error st id a (err e) = refl
  funds-error st id a (ok r) = ground arith

  mutate-messages :
      (st : Store) (id : ℕ) (f : ChannelInfo → ChannelInfo)
      → (mutate_channel_info disk st id f).messages ≡ st.messages
  unfolding mutate_channel_info put_channel_info
  mutate-messages st id f = ground arith

  create-messages :
      (st : Store) (id : ℕ) (answer : Result Receipt)
      → (wait_paych_create_msg disk st id answer).0.messages ≡ st.messages
  unfolding wait_paych_create_msg remove_channel
  create-messages st id (err e) = refl
  create-messages st id (ok r) = elim (Result-cases r.robust_address) [
    | inl (e, q) ↦ ground (arith, q)
    | inr (a, q) ↦ ground (arith, q, mutate-messages st id (confirm_create a))
  ]

  funds-messages :
      (st : Store) (id : ℕ) (answer : Result Receipt)
      → (wait_add_funds_msg disk st id answer).0.messages ≡ st.messages
  unfolding wait_add_funds_msg
  funds-messages st id (err e) = refl
  funds-messages st id (ok r) =
      ground (arith, mutate-messages st id confirm_funds, mutate-messages st id drop_funds)

  saved_message :
      (st : Store) (m : ℕ) (info : MsgInfo) (error : Option String)
      → Working disk
      → find m st.messages ≡ some info
      → info.msg_cid ≡ m
      → info.error ≡ ""
      → get_message disk (save_message_result disk st m error).0 m
        ≡ ok (record info { received = true; error = text_of error })
  unfolding save_message_result get_message put_message
  saved_message st m info error w h c n = ground (
    arith,
    w.message_gets m,
    w.message_puts m,
    h,
    c,
    n,
    find-put_same m (record info { received = true; error = text_of error }) st.messages,
  )

  abbrev pub FoundAt : Store → ℕ → ℕ → Type 0
  FoundAt st id a =
      (ci : ChannelInfo) × (find_chan disk st (λ x. x.channel_id == id) ≡ tracked ci)
      × (ci.channel ≡ some a)

  pub saved-get_wait_ready :
      (errorf : String → String) (st : Store) (m : ℕ) (info : MsgInfo) (outcome : Result ℕ)
      → get_message disk st m
        ≡ ok (record info { received = true; error = text_of (error_of outcome) })
      → HasText outcome
      → ((a : ℕ) → outcome ≡ ok a → FoundAt st info.channel_id a)
      → get_wait_ready disk errorf st m ≡ returned (wrap errorf outcome)
  unfolding get_wait_ready by_message_cid ready_address
  saved-get_wait_ready errorf st m info (err e) h t f = ground (arith, h, t)
  saved-get_wait_ready errorf st m info (ok a) h t f =
      let (ci, g, c) = f a refl in ground (arith, h, g, c)

  pub create-message :
      (st : Store) (id m : ℕ) (answer : Result Receipt) (info : MsgInfo)
      → Working disk
      → find m st.messages ≡ some info
      → info.msg_cid ≡ m
      → info.error ≡ ""
      → get_message disk (complete_wait disk st (create_wait id m) answer) m
        ≡ ok (record info { received = true; error = text_of (error_of (create_outcome answer)) })
  unfolding complete_wait msg_wait_complete
  create-message st id m answer info w h c n =
      let p = wait_paych_create_msg disk st id answer in
      saved_message p.0 m info p.1 w (ap (find m) (create-messages st id answer) ∙ h) c n
      ∙ ap (λ e. ok (record info { received = true; error = text_of e }))
          (create-error st id answer)

  pub funds-message :
      (st : Store) (id a m : ℕ) (answer : Result Receipt) (info : MsgInfo)
      → Working disk
      → find m st.messages ≡ some info
      → info.msg_cid ≡ m
      → info.error ≡ ""
      → get_message disk (complete_wait disk st (funds_wait id m) answer) m
        ≡ ok (record info { received = true; error = text_of (error_of (funds_outcome a answer)) })
  unfolding complete_wait msg_wait_complete
  funds-message st id a m answer info w h c n =
      let p = wait_add_funds_msg disk st id answer in
      saved_message p.0 m info p.1 w (ap (find m) (funds-messages st id answer) ∙ h) c n
      ∙ ap (λ e. ok (record info { received = true; error = text_of e }))
          (funds-error st id a answer)
