-- ===== src/Retrieval/Client/Needs.antt =====
-- Which statuses of retrieval/client/fsm.go need the pointers PaymentInfo and WaitMsgCID, and what the
-- rows and actions of the chart leave of them.
use pop.Common.{◌≡◌, refl, Bool, true, false, not, ◌&&◌, Option, none, some, arith}
use pop.Retrieval.Status.{Status, every}
use pop.Retrieval.Deal.{ClientState}
use pop.Retrieval.Fsm.{Dest, to, no_change, just_record, destination}
use pop.Retrieval.Client.Event.{Event}
use pop.Retrieval.Client.Rows.{rows}
use pop.Retrieval.Client.Action.{action}

abbrev pub is_some {ℓ} : {A : Type ℓ} → Option A → Bool
is_some none = false
is_some (some _) = true

-- Which pointers a status needs, given which of them are set.
abbrev needs : Status → Bool → Bool → Bool
needs Status.payment_channel_allocating_lane info wait = info
needs Status.payment_channel_creating info wait = wait
needs Status.payment_channel_adding_funds info wait = wait
needs Status.payment_channel_adding_initial_funds info wait = wait
needs _ info wait = true

abbrev pub armed : Status → ClientState → Bool
armed s d = needs s (is_some d.payment_info) (is_some d.wait_msg_cid)

abbrev unarmed : Status → Bool
unarmed Status.payment_channel_allocating_lane = false
unarmed Status.payment_channel_creating = false
unarmed Status.payment_channel_adding_funds = false
unarmed Status.payment_channel_adding_initial_funds = false
unarmed _ = true

-- A row that leads to no status with needs; one that moves; one that leads only to statuses that
-- wait for a message.
abbrev pub harmless : Option Dest → Bool
harmless (some (to s)) = unarmed s
harmless _ = true

abbrev moves : Option Dest → Bool
moves (some no_change) = false
moves (some just_record) = false
moves _ = true

abbrev pub waits : Option Dest → Bool
waits (some (to Status.payment_channel_allocating_lane)) = false
waits _ = true

-- `payment_channel_ready` leads to no status that waits for a message.
abbrev pub allocates : Option Dest → Bool
allocates (some (to Status.payment_channel_allocating_lane)) = true
allocates d = harmless d && moves d

unarmed-armed : (s : Status) (d : ClientState) → unarmed s ≡ true → armed s d ≡ true
unarmed-armed Status.payment_channel_allocating_lane d h = cc
unarmed-armed Status.payment_channel_creating d h = cc
unarmed-armed Status.payment_channel_adding_funds d h = cc
unarmed-armed Status.payment_channel_adding_initial_funds d h = cc
unarmed-armed _ d h = refl

abbrev pub is_waiting : Status → Bool
is_waiting s = not (unarmed s)

-- The status after a row.
abbrev pub after : Status → Dest → Status
after s (to t) = t
after s no_change = s
after s just_record = s

-- What each action leaves of the two pointers.
pub record Keeps (d d' : ClientState) : Type 0 where
  pub info : is_some d.payment_info ≡ true → is_some d'.payment_info ≡ true
  pub wait : is_some d.wait_msg_cid ≡ true → is_some d'.wait_msg_cid ≡ true

Keeps-armed : (s : Status) (d d' : ClientState) → Keeps d d' → armed s d ≡ true → armed s d' ≡ true
Keeps-armed Status.payment_channel_allocating_lane d d' k a = k.info a
Keeps-armed Status.payment_channel_creating d d' k a = k.wait a
Keeps-armed Status.payment_channel_adding_funds d d' k a = k.wait a
Keeps-armed Status.payment_channel_adding_initial_funds d d' k a = k.wait a
Keeps-armed _ d d' k a = refl

-- A row that is harmless: the needs of the status it stays in are kept.
pub harmless-armed :
    (s : Status) (dst : Dest) (d d' : ClientState)
    → harmless (some dst) ≡ true
    → Keeps d d'
    → armed s d ≡ true
    → armed (after s dst) d' ≡ true
harmless-armed s (to t) d d' h k a = unarmed-armed t d' h
harmless-armed s no_change d d' h k a = Keeps-armed s d d' k a
harmless-armed s just_record d d' h k a = Keeps-armed s d d' k a

-- The events whose actions keep both pointers.
abbrev plain : Event → Bool
plain (Event.payment_channel_ready _) = false
plain (Event.payment_channel_create_initiated _) = false
plain (Event.payment_channel_adding_funds _ _) = false
plain _ = true

pub plain-Keeps :
    (e : Event) (d d' : ClientState) → plain e ≡ true → action e d ≡ some d' → Keeps d d'
unfolding action
plain-Keeps (Event.payment_channel_ready ch) d d' p h = cc
plain-Keeps (Event.payment_channel_create_initiated m) d d' p h = cc
plain-Keeps (Event.payment_channel_adding_funds m ch) d d' p h = cc
plain-Keeps (Event.unknown_response_received none) d d' p h = ground arith
plain-Keeps (Event.unknown_response_received (some s)) d d' p h = ground arith
plain-Keeps _ d d' p h = ground arith

pub plain-harmless :
    (e : Event) → plain e ≡ true → every (λ s. harmless (destination (rows e) s)) ≡ true
unfolding every destination rows
plain-harmless (Event.payment_channel_ready ch) p = cc
plain-harmless (Event.payment_channel_create_initiated m) p = cc
plain-harmless (Event.payment_channel_adding_funds m ch) p = cc
plain-harmless _ p = refl

-- The three other events: two set the message to wait for, one notes the channel.
pub waits-armed :
    (s : Status) (dst : Dest) (d : ClientState)
    → waits (some dst) && moves (some dst) ≡ true
    → is_some d.wait_msg_cid ≡ true
    → armed (after s dst) d ≡ true
waits-armed s (to Status.payment_channel_allocating_lane) d h w = cc
waits-armed s (to Status.payment_channel_creating) d h w = w
waits-armed s (to Status.payment_channel_adding_funds) d h w = w
waits-armed s (to Status.payment_channel_adding_initial_funds) d h w = w
waits-armed s (to _) d h w = refl
waits-armed s no_change d h w = ground arith
waits-armed s just_record d h w = ground arith

pub allocates-armed :
    (s : Status) (dst : Dest) (d : ClientState)
    → allocates (some dst) ≡ true
    → is_some d.payment_info ≡ true
    → armed (after s dst) d ≡ true
allocates-armed s (to Status.payment_channel_allocating_lane) d h i = i
allocates-armed s (to Status.payment_channel_creating) d h i = cc
allocates-armed s (to Status.payment_channel_adding_funds) d h i = cc
allocates-armed s (to Status.payment_channel_adding_initial_funds) d h i = cc
allocates-armed s (to _) d h i = refl
allocates-armed s no_change d h i = cc
allocates-armed s just_record d h i = cc

-- The event of a lane is taken only while a lane is being allocated.
abbrev pub lane_only : Status → Option Dest → Bool
lane_only s none = true
lane_only Status.payment_channel_allocating_lane (some _) = true
lane_only _ (some _) = false

abbrev pub plain_wait : Event → Status → Bool
plain_wait e s = waits (destination (rows e) s) && moves (destination (rows e) s)

pub created-every :
    (m : _) → every (λ s. plain_wait (Event.payment_channel_create_initiated m) s) ≡ true
unfolding every destination rows
created-every m = refl

pub added-every :
    (m ch : _) → every (λ s. plain_wait (Event.payment_channel_adding_funds m ch) s) ≡ true
unfolding every destination rows
added-every m ch = refl

pub ready-every :
    (ch : _) → every (λ s. allocates (destination (rows (Event.payment_channel_ready ch)) s)) ≡ true
unfolding every destination rows
ready-every ch = refl

pub ready-info :
    (ch : _) (d d' : ClientState)
    → action (Event.payment_channel_ready ch) d ≡ some d'
    → is_some d'.payment_info ≡ true
unfolding action
ready-info ch d d' h = ground arith

pub created-wait :
    (m : _) (d d' : ClientState)
    → action (Event.payment_channel_create_initiated m) d ≡ some d'
    → is_some d'.wait_msg_cid ≡ true
unfolding action
created-wait m d d' h = ground arith

pub added-wait :
    (m ch : _) (d d' : ClientState)
    → action (Event.payment_channel_adding_funds m ch) d ≡ some d'
    → is_some d'.wait_msg_cid ≡ true
unfolding action
added-wait m ch d d' h = ground arith
