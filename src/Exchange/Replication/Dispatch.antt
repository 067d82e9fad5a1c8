-- ===== src/Exchange/Replication/Dispatch.antt =====
-- Dispatch of exchange/replication.go: the loop that sends requests to peers until enough of them have
-- confirmed. An event is the timer of a round, with the peers that are connected then, or a
-- confirmation; the requests of a round are in `sent`. Before the loop the store of the content is
-- added, by add_store.
pub mod Bounds
pub mod Authorized
use pop.Common.{ℕ, ◌+◌, Bool, true, false, List, [], ◌∷◌, ◌++◌, ltb, ◌==◌, if◌then◌else◌}
use pop.Common.Int.{ℤ, pos, ◌-ℤ◌}
use pop.Exchange.Peers.{Region, PeerMgr, peers}
use pop.Exchange.Replication.{PRecord, authorize_pull}

-- The replication factor and the peers to target come with the call; the regions are the node's.
pub record DispatchOptions : Type 0 where
  pub root : ℕ
  pub backoff_attempts : ℕ
  pub rf : ℕ
  pub targets : List ℕ
  pub rgs : List Region

abbrev pub default_attempts : ℕ
default_attempts = 4

abbrev pub default_rf : ℕ
default_rf = 6

pub record State : Type 0 where
  pub attempt : ℕ
  pub rcv : List ℕ
  pub n : ℕ
  pub out : List PRecord
  pub pulls : List (ℕ × List ℕ)
  pub sent : List ℕ
  pub done : Bool

pub data Event : Type 0 where
  timer : PeerMgr → Event
  confirms : PRecord → Event

unfoldable pub authorize_all : ℕ → List ℕ → List (ℕ × List ℕ) → List (ℕ × List ℕ)
unfolding authorize_pull
authorize_all root [] pulls = pulls
authorize_all root (p ∷ ps) pulls = authorize_all root ps (authorize_pull root p pulls)

-- The top of the loop: it gives up, or it sends the requests of a round.
unfoldable pub requests : DispatchOptions → PeerMgr → State → State
unfolding peers authorize_all
requests opt pm s =
    let chosen = peers (pos opt.rf -ℤ pos s.n) opt.rgs s.rcv opt.targets pm in
    if ltb opt.backoff_attempts s.attempt then record s { done = true } else record s {
      attempt = s.attempt + 1;
      rcv = s.rcv ++ chosen;
      pulls = authorize_all opt.root chosen s.pulls;
      sent = s.sent ++ chosen;
    }

unfoldable pub confirm : DispatchOptions → PRecord → State → State
confirm opt r s = record s { out = s.out ++ (r ∷ []); n = s.n + 1; done = s.n + 1 == opt.rf }

unfoldable pub start : DispatchOptions → PeerMgr → List (ℕ × List ℕ) → State
unfolding requests
start opt pm pulls =
    requests opt pm
      (record { attempt = 0; rcv = []; n = 0; out = []; pulls = pulls; sent = []; done = false })

-- After the end the goroutine is gone.
unfoldable pub step : DispatchOptions → Event → State → State
unfolding requests confirm
step opt (timer pm) s = if s.done then s else requests opt pm s
step opt (confirms r) s = if s.done then s else confirm opt r s

unfoldable pub run : DispatchOptions → List Event → State → State
unfolding step
run opt [] s = s
run opt (e ∷ es) s = run opt es (step opt e s)
