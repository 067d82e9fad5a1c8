-- ===== src/Payments/Message/Push.antt =====
-- What mpoolPush of payments/channel.go hands to the node.
use mathlib.Core.Path.{subst}
use pop.Common.{
  ℕ, ◌≡◌, ◌≤◌, refl, sym, ap, ◌∙◌, arith, true, false, List, [], ◌∷◌, length, All, Bool-cases, inl,
  inr,
}
use pop.Common.Int.{pos}
use pop.Common.Result.{Result, ok, err}
use pop.Common.Text.{String}
use pop.Payments.Message.{
  Message, SignedMessage, Api, sign_message, increase_gas, after_push, mpool_push, pushed,
  push_again, suggested_premium,
}

-- The same message, whatever its premium.
abbrev pub SameBut : Message → Message → Type 0
SameBut m n = record m { gas_premium = pos 0 } ≡ record n { gas_premium = pos 0 }

abbrev pub LastIs : SignedMessage → List SignedMessage → Type 0
LastIs s [] = false ≡ true
LastIs s (x ∷ []) = x ≡ s
LastIs s (x ∷ y ∷ xs) = LastIs s (y ∷ xs)

module _ (api : Api) where
  -- Signed by its sender.
  abbrev pub Signed : SignedMessage → Type 0
  Signed s = sign_message api s.message ≡ ok s

  sign_message-Signed :
      (m : Message) (s : SignedMessage) → sign_message api m ≡ ok s → (s.message ≡ m) × Signed s
  unfolding sign_message
  sign_message-Signed m s h = (ground (arith, h), ground (arith, h))

  abbrev pub Sent : Message → List SignedMessage × Result SignedMessage → Type 0
  Sent m (list, result) =
      All (λ s. Signed s × SameBut s.message m) list
      × ((s : SignedMessage) → result ≡ ok s → LastIs s list × (api.mpool_push s ≡ ok tt))

  pushed-Sent {ℓ} :
      {A : Type ℓ} (m : Message) (r : Result A) (f : A → List SignedMessage × Result SignedMessage)
      → ((a : A) → r ≡ ok a → Sent m (f a))
      → Sent m (pushed r f)
  pushed-Sent m (ok a) f h = h a refl
  pushed-Sent m (err e) f h = (tt, λ s q. cc)

  push_again-Sent :
      (m : Message) (s : SignedMessage) (r : Result (Unit {0}))
      → Signed s
      → SameBut s.message m
      → api.mpool_push s ≡ r
      → Sent m (push_again api s r)
  push_again-Sent m s (ok tt) g b h = (
    ((g, b), tt),
    λ t q. (ground (arith, q), subst (λ x. api.mpool_push x ≡ ok tt) (ground (arith, q)) h),
  )
  push_again-Sent m s (err e) g b h = (((g, b), tt), λ t q. cc)

  increase_gas-Sent : (m : Message) (e : String) → Sent m (increase_gas api m e)
  unfolding increase_gas
  increase_gas-Sent m e =
      pushed-Sent m (suggested_premium api e)
        (λ prem.
          pushed (sign_message api (record m { gas_premium = prem }))
            λ smsg. push_again api smsg (api.mpool_push smsg))
        λ prem _.
          pushed-Sent m (sign_message api (record m { gas_premium = prem }))
            (λ smsg. push_again api smsg (api.mpool_push smsg))
            λ smsg signed.
              let (same, g) = sign_message-Signed (record m { gas_premium = prem }) smsg signed in
              push_again-Sent m smsg (api.mpool_push smsg) g (ground (arith, same)) refl

  cons-Sent :
      (m : Message) (s : SignedMessage) (p : List SignedMessage × Result SignedMessage)
      → Signed s
      → SameBut s.message m
      → Sent m p
      → Sent m (s ∷ p.0, p.1)
  cons-Sent m s ([], r) g b (h, k) = (((g, b), h), λ t q. absurd (ground (arith, (k t q).0)))
  cons-Sent m s (x ∷ xs, r) g b (h, k) = (((g, b), h), k)

  after_push-Sent :
      (m : Message) (s : SignedMessage) (r : Result (Unit {0}))
      → Signed s
      → SameBut s.message m
      → api.mpool_push s ≡ r
      → Sent m (after_push api m s r)
  unfolding after_push
  after_push-Sent m s (ok tt) g b h = push_again-Sent m s (ok tt) g b h
  after_push-Sent m s (err e) g b h = elim (Bool-cases (api.is_in_mpool e)) [
    | inl t ↦ rw t (cons-Sent m s (increase_gas api m e) g b (increase_gas-Sent m e))
    | inr t ↦ rw t (push_again-Sent m s (err e) g b h)
  ]

  increase_gas-length : (m : Message) (e : String) → length (increase_gas api m e).0 ≤ 1
  unfolding increase_gas
  increase_gas-length m e = ground arith

  after_push-length :
      (m : Message) (s : SignedMessage) (r : Result (Unit {0}))
      → length (after_push api m s r).0 ≤ 2
  unfolding after_push
  after_push-length m s r = ground (arith, increase_gas-length m)

  abbrev after_sign : Message → SignedMessage → List SignedMessage × Result SignedMessage
  after_sign m s = after_push api m s (api.mpool_push s)

  pushed-length : (m : Message) (r : Result SignedMessage) → length (pushed r (after_sign m)).0 ≤ 2
  pushed-length m (ok s) = after_push-length m s (api.mpool_push s)
  pushed-length m (err e) = omega arith

  mpool_push-eq :
      (msg est : Message) (nonce : ℕ)
      → api.gas_estimate msg ≡ ok est
      → api.actor_nonce est.from ≡ ok nonce
      → mpool_push api msg
        ≡ pushed
            (sign_message api (record est { nonce = nonce }))
            (after_sign (record est { nonce = nonce }))
  unfolding mpool_push
  mpool_push-eq msg est nonce e n =
      ap
        (λ r. pushed r λ x. pushed (api.actor_nonce x.from) λ k.
          pushed (sign_message api (record x { nonce = k })) (after_sign (record x { nonce = k })))
        e
      ∙ ap
          (λ r. pushed r λ k.
            pushed (sign_message api (record est { nonce = k }))
              (after_sign (record est { nonce = k })))
          n

  -- Every message that mpoolPush hands to the node is the estimated message with the account's
  -- nonce, but for its gas premium, and is signed by its sender; there are at most two of them. The
  -- message that it returns is the last of them, and the node has taken it.
  pub mpool_push-Sent :
      (msg est : Message) (nonce : ℕ)
      → api.gas_estimate msg ≡ ok est
      → api.actor_nonce est.from ≡ ok nonce
      → Sent (record est { nonce = nonce }) (mpool_push api msg)
        × (length (mpool_push api msg).0 ≤ 2)
  mpool_push-Sent msg est nonce e n =
      let m : Message = record est { nonce = nonce } in
      subst (λ p. Sent m p × (length p.0 ≤ 2)) (sym (mpool_push-eq msg est nonce e n))
        (
          pushed-Sent m (sign_message api m) (after_sign m) (λ s signed.
              let (same, g) = sign_message-Signed m s signed in
              after_push-Sent m s (api.mpool_push s) g (ground (arith, same)) refl),
          pushed-length m (sign_message api m),
        )
