-- ===== src/Payments/Tests/Disk.antt =====
-- A datastore that refuses nothing, and a node and a wallet that take every message.
use pop.Common.{
  ℕ, zero, suc, ◌+◌, ◌≡◌, ◌≢◌, ◌<◌, refl, true, false, List, [], ◌∷◌, none, some, arith,
}
use pop.Common.Int.{pos}
use pop.Common.Assoc.{find}
use pop.Common.Result.{ok, err}
use pop.Payments.Info.{ChannelInfo}
use pop.Payments.Store.{Store, Disk}
use pop.Payments.Message.{Api}
use pop.Payments.Lifecycle.Only.{Working}

sum_of : List (ℕ × ChannelInfo) → ℕ
sum_of [] = 0
sum_of ((k, c) ∷ xs) = k + sum_of xs

find-above : (xs : List (ℕ × ChannelInfo)) (n : ℕ) → sum_of xs < n → find n xs ≡ none
unfolding find sum_of
find-above [] n h = refl
find-above ((k, c) ∷ xs) n h = ground (arith, h, find-above xs n (omega (arith, h)))

pub fresh_id : Store → ℕ
unfolding sum_of
fresh_id st = suc (sum_of st.channels)

abbrev pub disk : Disk
disk = record {
  get_error = λ _. none;
  put_error = λ _. none;
  message_get_error = λ _. none;
  message_put_error = λ _. none;
  query_error = none;
  entry_error = λ _. false;
  new_id = fresh_id;
  delete_error = λ _. none;
}

fresh_id-nonzero : (st : Store) → fresh_id st ≢ 0
unfolding fresh_id
fresh_id-nonzero st = λ e. absurd (omega (arith, e))

fresh_id-find : (st : Store) → find (fresh_id st) st.channels ≡ none
unfolding fresh_id
fresh_id-find st = find-above st.channels (suc (sum_of st.channels)) (omega arith)

pub working : Working disk
working = record {
  readable = (refl, λ k. refl);
  writable = λ k. refl;
  gets = λ k. refl;
  deletes = λ k. refl;
  message_gets = λ k. refl;
  message_puts = λ k. refl;
  fresh = fresh_id-find;
  nonzero = fresh_id-nonzero;
}

abbrev pub api : Api
api = record {
  init_actor = 11;
  exec_method = 2;
  update_method = 3;
  settle_method = 4;
  collect_method = 5;
  constructor_params = λ a b. ok (a ∷ b ∷ []);
  exec_params = λ p. ok p;
  update_params = λ sv secret. ok (sv.nonce ∷ secret);
  gas_estimate = λ msg. ok (record msg { gas_limit = pos 100 });
  actor_nonce = λ _. ok 7;
  cid = λ msg. ok (msg.nonce + msg.method);
  signed_cid = λ smsg. 50 + smsg.message.method;
  sign = λ a c. ok (a ∷ c ∷ []);
  mpool_push = λ smsg. elim smsg.message.gas_premium [
    | pos zero ↦ err "already in mpool, increase GasPremium to 12"
    | _ ↦ ok tt
  ];
  is_in_mpool = λ e. true;
  match_premium = λ e. some "12";
  big_from_string = λ s. ok (pos 12);
}
