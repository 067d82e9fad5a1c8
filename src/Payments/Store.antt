-- ===== src/Payments/Store.antt =====
-- The datastore of payments/store.go. A key of the datastore is the number of a channel ID, where 0
-- is the empty one, or of a message CID, and a query goes through the channels in the order of the
-- list. What the datastore refuses to read or write, and the channel ID that the uuid library makes
-- up, are given by a Disk. That an encoding of values in memory fails is left out.
pub mod Ops
pub mod First
pub mod Kept
pub mod Alloc
pub mod Unique
use pop.Common.{
  ℕ, ◌+◌, Bool, true, false, not, ◌&&◌, List, [], ◌∷◌, ◌++◌, Option, none, some, length, u64, ◌==◌,
  if◌then◌else◌, map,
}
use pop.Common.Int.{ℤ, pos}
use pop.Common.Assoc.{find, put}
use pop.Common.Result.{Result, ok, err}
use pop.Common.Text.{String}
use pop.Payments.Voucher.{SignedVoucher}
use pop.Payments.Info.{
  VoucherInfo, ChannelInfo, Direction, outbound, inbound, Found, tracked, untracked, errored,
  mark_voucher_submitted,
}

-- `error` is the text of the error in the response, empty if there was none.
pub record MsgInfo : Type 0 where
  pub channel_id : ℕ
  pub msg_cid : ℕ
  pub received : Bool
  pub error : String

pub record Store : Type 0 where
  pub channels : List (ℕ × ChannelInfo)
  pub messages : List (ℕ × MsgInfo)

pub record Disk : Type 0 where
  pub get_error : ℕ → Option String
  pub put_error : ℕ → Option String
  pub message_get_error : ℕ → Option String
  pub message_put_error : ℕ → Option String
  pub query_error : Option String
  pub entry_error : ℕ → Bool
  pub new_id : Store → ℕ
  pub delete_error : ℕ → Option String

-- `emptyAddr` stands in the encoding for an address that is nil.
abbrev pub empty_addr : ℕ
empty_addr = 1

unfoldable pub marshall : ChannelInfo → ChannelInfo
marshall ci = elim ci.channel [ none ↦ record ci { channel = some empty_addr } | some _ ↦ ci ]

-- The encoding has no field for `SettlingAt`, which a channel that is read has as 0.
unfoldable pub unmarshall : ChannelInfo → ChannelInfo
unmarshall ci = elim ci.channel [
  | none ↦ record ci { settling_at = pos 0 }
  | some a ↦
      if a == empty_addr
      then record ci { channel = none; settling_at = pos 0 }
      else record ci { settling_at = pos 0 }
]

abbrev pub after_error {ℓ} : {A : Type ℓ} → Option String → Store → Store → A → Store × Result A
after_error (some e) st st' a = (st, err e)
after_error none st st' a = (st', ok a)

-- Passes over a result that the code drops, or returns an error at once.
abbrev pub and_then {ℓ κ} :
    {A : Type ℓ} {B : Type κ} → Store × Result A → (Store → A → Store × Result B) → Store × Result B
and_then (st, ok a) f = f st a
and_then (st, err e) f = (st, err e)

abbrev pub is_at : Option ℕ → ℕ → Bool
is_at none a = false
is_at (some b) a = b == a

abbrev pub is_outbound : Direction → Bool
is_outbound inbound = false
is_outbound outbound = true

-- An outbound channel with these addresses that is not settling.
abbrev pub is_active : ℕ → ℕ → ChannelInfo → Bool
is_active from to ci =
    is_outbound ci.direction && not ci.settling && (ci.control == from && ci.target == to)

abbrev pub first_of : Result (List ChannelInfo) → Found
first_of (err e) = errored e
first_of (ok []) = untracked
first_of (ok (ci ∷ _)) = tracked ci

module _ (disk : Disk) where
  -- The channel with its ID, as the caller's pointer has it afterwards.
  unfoldable pub with_id : Store → ChannelInfo → ChannelInfo
  with_id st ci = if ci.channel_id == 0 then record ci { channel_id = disk.new_id st } else ci

  unfoldable pub put_channel_info : Store → ChannelInfo → Store × Result ChannelInfo
  unfolding with_id marshall put
  put_channel_info st ci =
      let ci' = marshall (with_id st ci) in
      after_error (disk.put_error ci'.channel_id) st
        (record st { channels = put ci'.channel_id ci' st.channels }) ci'

  unfoldable pub put_message : Store → MsgInfo → Store × Result (Unit {0})
  unfolding put
  put_message st m =
      after_error (disk.message_put_error m.msg_cid) st
        (record st { messages = put m.msg_cid m st.messages }) tt

  unfoldable pub save_new_message : Store → ℕ → ℕ → Store × Result (Unit {0})
  unfolding put_message
  save_new_message st id mcid =
      put_message st (record { channel_id = id; msg_cid = mcid; received = false; error = "" })

  unfoldable pub create_channel : Store → ℕ → ℕ → ℕ → ℤ → Store × Result ChannelInfo
  unfolding put_channel_info save_new_message
  create_channel st from to mcid amt =
      and_then (put_channel_info st new)
        λ st' ci. and_then (save_new_message st' ci.channel_id mcid) λ st'' _. (st'', ok ci)
    where
      new : ChannelInfo
      new = record {
        channel_id = 0;
        channel = none;
        control = from;
        target = to;
        direction = outbound;
        vouchers = [];
        next_lane = 0;
        amount = pos 0;
        pending_amount = amt;
        create_msg = some mcid;
        add_funds_msg = none;
        settling = false;
        settling_at = pos 0;
      }

  unfoldable pub get_message : Store → ℕ → Result MsgInfo
  unfolding find
  get_message st mcid = elim (disk.message_get_error mcid) [
    | some e ↦ err e
    | none ↦ elim (find mcid st.messages) [ none ↦ err "datastore: key not found" | some m ↦ ok m ]
  ]

  -- `result` is the error of the message, if it had one.
  unfoldable pub save_message_result : Store → ℕ → Option String → Store × Result (Unit {0})
  unfolding get_message put_message
  save_message_result st mcid result = elim (get_message st mcid) [
    | err e ↦ (st, err e)
    | ok m ↦
        put_message st
          (record m { received = true; error = elim result [ none ↦ m.error | some e ↦ e ] })
  ]

  unfoldable pub by_channel_id : Store → ℕ → Found
  unfolding find unmarshall
  by_channel_id st id = elim (disk.get_error id) [
    | some e ↦ errored e
    | none ↦ elim (find id st.channels) [ none ↦ untracked | some ci ↦ tracked (unmarshall ci) ]
  ]

  -- The loop of `findChans`. An entry that cannot be read ends it with no channels and, since the
  -- code returns the query's error there, with no error.
  unfoldable pub collect :
      (ChannelInfo → Bool)
      → ℕ
      → List ChannelInfo
      → List (ℕ × ChannelInfo)
      → Result (List ChannelInfo)
  unfolding unmarshall
  collect f limit matches [] = ok matches
  collect f limit matches ((k, c) ∷ rest) =
      let found = matches ++ (unmarshall c ∷ []) in
      let more = collect f limit found rest in
      let skipped = collect f limit matches rest in
      if disk.entry_error k
      then ok []
      else if f (unmarshall c)
      then if length found == limit then ok found else more
      else skipped

  unfoldable pub find_chans : Store → (ChannelInfo → Bool) → ℕ → Result (List ChannelInfo)
  unfolding collect
  find_chans st f limit = elim disk.query_error [
    | some e ↦ err e
    | none ↦ collect f limit [] st.channels
  ]

  unfoldable pub find_chan : Store → (ChannelInfo → Bool) → Found
  unfolding find_chans
  find_chan st f = first_of (find_chans st f 1)

  unfoldable pub by_address : Store → ℕ → Found
  unfolding find_chan
  by_address st addr = find_chan st λ ci. is_at ci.channel addr

  unfoldable pub outbound_active_by_from_to : Store → ℕ → ℕ → Found
  unfolding find_chan
  outbound_active_by_from_to st from to = find_chan st (is_active from to)

  unfoldable pub by_message_cid : Store → ℕ → Found
  unfolding get_message find_chan
  by_message_cid st mcid = elim (get_message st mcid) [
    | err e ↦ errored e
    | ok m ↦ find_chan st λ ci. ci.channel_id == m.channel_id
  ]
