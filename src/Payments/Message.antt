-- ===== src/Payments/Message.antt =====
-- The messages of payments/message.go and how payments/channel.go signs and pushes them: mpoolPush
-- and increaseGas. What a push sends is kept as the list of the messages handed to the node.
pub mod Push
use pop.Common.{
  ℕ, suc, ◌+◌, ◌≡◌, refl, sym, ap, ◌∙◌, arith, Bool, true, false, List, [], ◌∷◌, ◌++◌, Option, none,
  some, if◌then◌else◌, length, ◌≤◌, All,
}
use pop.Common.Int.{ℤ, pos}
use pop.Common.Result.{Result, ok, err}
use pop.Common.Text.{String, ◌+++◌}
use pop.Payments.Voucher.{SignedVoucher}

pub record Message : Type 0 where
  pub version : ℕ
  pub to : ℕ
  pub from : ℕ
  pub nonce : ℕ
  pub value : ℤ
  pub gas_limit : ℤ
  pub gas_fee_cap : ℤ
  pub gas_premium : ℤ
  pub method : ℕ
  pub params : List ℕ

pub record SignedMessage : Type 0 where
  pub message : Message
  pub signature : List ℕ

-- What the builtin actors and their encodings are, and the chain and the wallet: `cid` is that of
-- the block of a message, `signed_cid` that of a signed message.
pub record Api : Type 0 where
  pub init_actor : ℕ
  pub exec_method : ℕ
  pub update_method : ℕ
  pub settle_method : ℕ
  pub collect_method : ℕ
  pub constructor_params : ℕ → ℕ → Result (List ℕ)
  pub exec_params : List ℕ → Result (List ℕ)
  pub update_params : SignedVoucher → List ℕ → Result (List ℕ)
  pub gas_estimate : Message → Result Message
  pub actor_nonce : ℕ → Result ℕ
  pub cid : Message → Result ℕ
  pub signed_cid : SignedMessage → ℕ
  pub sign : ℕ → ℕ → Result (List ℕ)
  pub mpool_push : SignedMessage → Result (Unit {0})
  pub is_in_mpool : String → Bool
  pub match_premium : String → Option String
  pub big_from_string : String → Result ℤ

abbrev plain_message : ℕ → ℕ → ℤ → ℕ → List ℕ → Message
plain_message to from value method params = record {
  version = 0;
  to = to;
  from = from;
  nonce = 0;
  value = value;
  gas_limit = pos 0;
  gas_fee_cap = pos 0;
  gas_premium = pos 0;
  method = method;
  params = params;
}

abbrev pub and_message {ℓ κ} : {A : Type ℓ} {B : Type κ} → Result A → (A → Result B) → Result B
and_message (err e) f = err e
and_message (ok a) f = f a

-- What was pushed before is kept in front.
abbrev pub pushed {ℓ} :
    {A : Type ℓ}
    → Result A
    → (A → List SignedMessage × Result SignedMessage)
    → List SignedMessage × Result SignedMessage
pushed (err e) f = ([], err e)
pushed (ok a) f = f a

module _ (api : Api) where
  -- `from` is the message builder's address.
  unfoldable pub create_message : ℕ → ℕ → ℤ → Result Message
  create_message from to amount = and_message (api.constructor_params from to) λ p.
      and_message (api.exec_params p)
        λ enc. ok (plain_message api.init_actor from amount api.exec_method enc)

  unfoldable pub update_message : ℕ → ℕ → SignedVoucher → List ℕ → Result Message
  update_message from ch sv secret =
      and_message (api.update_params sv secret)
        λ p. ok (plain_message ch from (pos 0) api.update_method p)

  unfoldable pub settle_message : ℕ → ℕ → Message
  settle_message from ch = plain_message ch from (pos 0) api.settle_method []

  unfoldable pub collect_message : ℕ → ℕ → Message
  collect_message from ch = plain_message ch from (pos 0) api.collect_method []

  -- The plain transfer of `addFunds`.
  unfoldable pub funds_message : ℕ → ℕ → ℤ → Message
  funds_message from ch amount = plain_message ch from amount 0 []

  unfoldable pub sign_message : Message → Result SignedMessage
  sign_message msg =
      and_message (api.cid msg)
        λ c. and_message (api.sign msg.from c) λ sig. ok (record { message = msg; signature = sig })

  -- The gas premium that the text of an error suggests.
  unfoldable pub suggested_premium : String → Result ℤ
  suggested_premium rec = elim (api.match_premium rec) [
    | none ↦ err "failed to match new gas price"
    | some digits ↦ api.big_from_string digits
  ]

  abbrev pub push_again :
      SignedMessage → Result (Unit {0}) → List SignedMessage × Result SignedMessage
  push_again smsg (err e) = (smsg ∷ [], err ("MpoolPush failed with error: " +++ e))
  push_again smsg (ok _) = (smsg ∷ [], ok smsg)

  unfoldable pub increase_gas : Message → String → List SignedMessage × Result SignedMessage
  unfolding sign_message suggested_premium
  increase_gas msg rec = pushed (suggested_premium rec) λ prem.
      pushed (sign_message (record msg { gas_premium = prem }))
        λ smsg. push_again smsg (api.mpool_push smsg)

  unfoldable pub after_push :
      Message → SignedMessage → Result (Unit {0}) → List SignedMessage × Result SignedMessage
  unfolding increase_gas
  after_push msg smsg (ok _) = (smsg ∷ [], ok smsg)
  after_push msg smsg (err e) =
      let (again, result) = increase_gas msg e in
      if api.is_in_mpool e
      then (smsg ∷ again, result)
      else (smsg ∷ [], err ("MpoolPush failed with error: " +++ e))

  unfoldable pub mpool_push : Message → List SignedMessage × Result SignedMessage
  unfolding sign_message after_push
  mpool_push msg = pushed (api.gas_estimate msg) λ estimated.
      pushed (api.actor_nonce estimated.from) λ nonce.
        pushed (sign_message (record estimated { nonce = nonce }))
          λ smsg. after_push (record estimated { nonce = nonce }) smsg (api.mpool_push smsg)
