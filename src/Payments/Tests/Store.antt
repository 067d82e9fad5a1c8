-- ===== src/Payments/Tests/Store.antt =====
-- The theorems on the datastore, at a store with the channel of address 31.
use pop.Common.{◌≡◌, refl, [], ◌∷◌, some, ◌==◌, arith, if◌then◌else◌, get_elem?, length, ◌≤◌}
use pop.Common.Int.{pos}
use pop.Common.Result.{ok}
use pop.Payments.Info.{tracked}
use pop.Payments.Store.{
  Store, unmarshall, with_id, put_channel_info, by_channel_id, find_chan, find_chans, collect,
  by_address,
}
use pop.Payments.Store.Kept.{put-by_channel_id}
use pop.Payments.Store.Alloc.{allocate_lanes, allocate_lanes-get_elem?}
use pop.Payments.Message.{Message, mpool_push}
use pop.Payments.Message.Push.{Sent, mpool_push-Sent}
use pop.Payments.Tests.{channel}
use pop.Payments.Tests.Disk.{disk, api}

abbrev pub store : Store
store = record { channels = (1, channel) ∷ []; messages = [] }

put-by_channel_id_example : by_channel_id disk (put_channel_info disk store channel).0 1 ≡ (
    if (with_id disk store channel).channel_id == 1
    then tracked (record (with_id disk store channel) { settling_at = pos 0 })
    else by_channel_id disk store 1)
put-by_channel_id_example =
    put-by_channel_id disk store channel 1 (λ e. absurd (ground (arith, e))) refl refl

pub at_31 : by_address disk store 31 ≡ tracked channel
unfolding by_address find_chan find_chans collect unmarshall
at_31 = refl

allocate_lanes-get_elem?_example : get_elem? (allocate_lanes disk 3 store 31) 2 ≡ some (ok 3)
allocate_lanes-get_elem?_example =
    allocate_lanes-get_elem? disk 3 2 store 31 channel (refl, λ k. refl) (λ k. refl)
      ((refl, λ e. absurd (omega (arith, e))), tt) (λ e. absurd (omega (arith, e))) at_31
      (omega arith) (omega arith)

abbrev message : Message
message = record {
  version = 0;
  to = 31;
  from = 21;
  nonce = 0;
  value = pos 500;
  gas_limit = pos 0;
  gas_fee_cap = pos 0;
  gas_premium = pos 0;
  method = 0;
  params = [];
}

mpool_push-Sent_example :
    Sent api (record message { nonce = 7; gas_limit = pos 100 }) (mpool_push api message)
    × (length (mpool_push api message).0 ≤ 2)
mpool_push-Sent_example =
    mpool_push-Sent api message (record message { gas_limit = pos 100 }) 7 refl refl
