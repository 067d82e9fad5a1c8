-- ===== src/Retrieval/Status.antt =====
-- retrieval/deal/status.go: the statuses of a deal, their numbers and their readable names.
use pop.Common.{
  ℕ, ◌≡◌, refl, sym, ap, ◌∙◌, Bool, true, ◌==◌, ==_iff, List, [], ◌∷◌, some, get_elem?, all,
  all-get_elem?,
}
use pop.Common.Text.{String}

pub data Status : Type 0 where
  new unsealing unsealed wait_for_acceptance payment_channel_creating : Status
  payment_channel_adding_funds accepted funds_needed_unseal failing rejected : Status
  funds_needed send_funds send_funds_last_payment ongoing funds_needed_last_payment : Status
  completed deal_not_found errored blocks_complete finalizing completing : Status
  check_complete check_funds insufficient_funds payment_channel_allocating_lane : Status
  cancelling cancelled client_waiting_for_last_blocks : Status
  payment_channel_adding_initial_funds : Status

-- The `iota` of each constant.
unfoldable pub number : Status → ℕ
number new = 0
number unsealing = 1
number unsealed = 2
number wait_for_acceptance = 3
number payment_channel_creating = 4
number payment_channel_adding_funds = 5
number accepted = 6
number funds_needed_unseal = 7
number failing = 8
number rejected = 9
number funds_needed = 10
number send_funds = 11
number send_funds_last_payment = 12
number ongoing = 13
number funds_needed_last_payment = 14
number completed = 15
number deal_not_found = 16
number errored = 17
number blocks_complete = 18
number finalizing = 19
number completing = 20
number check_complete = 21
number check_funds = 22
number insufficient_funds = 23
number payment_channel_allocating_lane = 24
number cancelling = 25
number cancelled = 26
number client_waiting_for_last_blocks = 27
number payment_channel_adding_initial_funds = 28

-- Statuses are compared as numbers.
unfoldable pub same : Status → Status → Bool
unfolding number
same a b = number a == number b

-- The entry of `Statuses`.
unfoldable pub name : Status → String
name new = "DealStatusNew"
name unsealing = "DealStatusUnsealing"
name unsealed = "DealStatusUnsealed"
name wait_for_acceptance = "DealStatusWaitForAcceptance"
name payment_channel_creating = "DealStatusPaymentChannelCreating"
name payment_channel_adding_funds = "DealStatusPaymentChannelAddingFunds"
name accepted = "DealStatusAccepted"
name funds_needed_unseal = "DealStatusFundsNeededUnseal"
name failing = "DealStatusFailing"
name rejected = "DealStatusRejected"
name funds_needed = "DealStatusFundsNeeded"
name send_funds = "DealStatusSendFunds"
name send_funds_last_payment = "DealStatusSendFundsLastPayment"
name ongoing = "DealStatusOngoing"
name funds_needed_last_payment = "DealStatusFundsNeededLastPayment"
name completed = "DealStatusCompleted"
name deal_not_found = "DealStatusDealNotFound"
name errored = "DealStatusErrored"
name blocks_complete = "DealStatusBlocksComplete"
name finalizing = "DealStatusFinalizing"
name completing = "DealStatusCompleting"
name check_complete = "DealStatusCheckComplete"
name check_funds = "DealStatusCheckFunds"
name insufficient_funds = "DealStatusInsufficientFunds"
name payment_channel_allocating_lane = "DealStatusPaymentChannelAllocatingLane"
name cancelling = "DealStatusCancelling"
name cancelled = "DealStatusCancelled"
name client_waiting_for_last_blocks = "DealStatusWaitingForLastBlocks"
name payment_channel_adding_initial_funds = "DealStatusPaymentChannelAddingInitialFunds"

abbrev statuses : List Status
statuses =
    new ∷ unsealing ∷ unsealed ∷ wait_for_acceptance ∷ payment_channel_creating
    ∷ payment_channel_adding_funds ∷ accepted ∷ funds_needed_unseal ∷ failing ∷ rejected
    ∷ funds_needed ∷ send_funds ∷ send_funds_last_payment ∷ ongoing ∷ funds_needed_last_payment
    ∷ completed ∷ deal_not_found ∷ errored ∷ blocks_complete ∷ finalizing ∷ completing
    ∷ check_complete ∷ check_funds ∷ insufficient_funds ∷ payment_channel_allocating_lane
    ∷ cancelling ∷ cancelled ∷ client_waiting_for_last_blocks ∷ payment_channel_adding_initial_funds
    ∷ []

statuses-number : (s : Status) → get_elem? statuses (number s) ≡ some s
unfolding number
statuses-number new = refl
statuses-number _ = refl

-- A test that holds of every status, checked one by one.
unfoldable pub every : (Status → Bool) → Bool
every p = all p statuses

pub every_sound : (p : Status → Bool) (s : Status) → every p ≡ true → p s ≡ true
unfolding every
every_sound p s h = all-get_elem? p statuses (number s) s h (statuses-number s)

same→eq : (a b : Status) → same a b ≡ true → a ≡ b
unfolding same
same→eq a b h =
    let numbers : number a ≡ number b = (==_iff _ _).0 h in
    let found : some a ≡ some b =
      sym (statuses-number a) ∙ ap (get_elem? statuses) numbers ∙ statuses-number b in
    cc

same_refl : (a : Status) → same a a ≡ true
unfolding same
same_refl a = (==_iff _ _).1 refl
