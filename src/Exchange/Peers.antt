-- ===== src/Exchange/Peers.antt =====
-- exchange/peermgr.go and exchange/regions.go: the regions, the peers that a node has greeted, and the
-- choice of peers for a dispatch. A Go map of peers is in the order in which it is walked; peers are
-- numbers, an index root that is undefined is 0.
pub mod Chosen
use text.Mathlib.Text.{◌==◌ as str_eq}
use pop.Common.{
  ℕ, ◌+◌, Bool, true, false, not, ◌&&◌, List, [], ◌∷◌, ◌++◌, Option, none, some, length, ◌==◌,
  if◌then◌else◌, map,
}
use pop.Common.Assoc.{find, put}
use pop.Common.Int.{ℤ, pos, is_zero, ◌-ℤ◌}
use pop.Common.Text.{String}
use pop.Exchange.Buckets.{is_in}

pub record Region : Type 0 where
  pub name : String
  pub code : ℕ
  pub bootstrap : List String

abbrev pub custom_region : ℕ
custom_region = 18446744073709551615

abbrev frankfurt : String
frankfurt =
    "/dns4/frankfurt.myel.zone/tcp/41504/p2p/12D3KooWLaJQ7L6Q3VWxNNxqE8Tcj2wAq1QAvdBieSteAxg9KTCr"

abbrev ohio : String
ohio = "/dns4/ohio.myel.zone/tcp/41504/p2p/12D3KooWStJfAywQmfaVFQDQYr9riDnEFG3VJ3qDGcTidvc4nQtc"

abbrev region : String → ℕ → List String → Region
region name code bootstrap = record { name = name; code = code; bootstrap = bootstrap }

unfoldable pub regions : List Region
regions =
    region "Global" 0 (frankfurt ∷ ohio ∷ [])
    ∷ region "Asia" 1 []
    ∷ region "Africa" 2 []
    ∷ region "SouthAmerica" 3 []
    ∷ region "NorthAmerica" 4 (ohio ∷ [])
    ∷ region "Europe" 5 (frankfurt ∷ [])
    ∷ region "Oceania" 6 []
    ∷ []

-- A name that is not preset is a region of the user's own.
unfoldable pub region_named : List Region → String → Region
region_named [] name = region name custom_region []
region_named (r ∷ rs) name =
    let later = region_named rs name in if str_eq r.name name then r else later

unfoldable pub parse_regions : List String → List Region
unfolding regions region_named
parse_regions [] = []
parse_regions (name ∷ names) = region_named regions name ∷ parse_regions names

pub record Peer : Type 0 where
  pub regions : List ℕ
  pub latency : ℕ

pub record Hey : Type 0 where
  pub regions : List ℕ
  pub index_root : Option ℕ

pub record HeyEvt : Type 0 where
  pub peer : ℕ
  pub index_root : Option ℕ

-- The regions by their codes, the peers, and the events that were emitted.
pub record PeerMgr : Type 0 where
  pub regions : List Region
  pub peers : List (ℕ × Peer)
  pub emitted : List HeyEvt

-- A map keyed by the code keeps the last region of a code.
unfoldable pub with_region : Region → List Region → List Region
with_region r [] = r ∷ []
with_region r (x ∷ xs) =
    let later = with_region r xs in if x.code == r.code then r ∷ xs else x ∷ later

unfoldable pub by_code : List Region → List Region → List Region
unfolding with_region
by_code [] reg = reg
by_code (r ∷ rs) reg = by_code rs (with_region r reg)

unfoldable pub new_peer_mgr : List Region → PeerMgr
unfolding by_code
new_peer_mgr rs = record { regions = by_code rs []; peers = []; emitted = [] }

unfoldable pub has_code : ℕ → List Region → Bool
has_code c [] = false
has_code c (r ∷ rs) = let later = has_code c rs in if r.code == c then true else later

-- Once for each region of the greeting that the node has too.
unfoldable pub greet : ℕ → Hey → List ℕ → PeerMgr → PeerMgr
unfolding has_code put
greet p h [] pm = pm
greet p h (c ∷ cs) pm = greet p h cs (
    if has_code c pm.regions
    then record pm {
      peers = put p (record { regions = h.regions; latency = 0 }) pm.peers;
      emitted = pm.emitted ++ (record { peer = p; index_root = h.index_root } ∷ []);
    }
    else pm)

unfoldable pub handle_hey : ℕ → Hey → PeerMgr → PeerMgr
unfolding greet
handle_hey p h pm = greet p h h.regions pm

unfoldable pub get_hey : PeerMgr → ℕ → Hey
get_hey pm root = record {
  regions = map Region.code pm.regions;
  index_root = if root == 0 then none else some root;
}

unfoldable pub record_latency : ℕ → ℕ → PeerMgr → PeerMgr × Option String
unfolding find put
record_latency p latency pm = elim (find p pm.peers) [
  | none ↦ (pm, some "no peer given ID")
  | some peer ↦ (record pm { peers = put p (record peer { latency = latency }) pm.peers }, none)
]

-- The keys of a map are distinct.
unfoldable pub without_peer : ℕ → List (ℕ × Peer) → List (ℕ × Peer)
without_peer p [] = []
without_peer p ((q, v) ∷ rest) =
    let later = without_peer p rest in if q == p then rest else (q, v) ∷ later

unfoldable pub disconnected : ℕ → PeerMgr → PeerMgr
unfolding without_peer
disconnected p pm = record pm { peers = without_peer p pm.peers }

-- The peers that the caller named, as far as they are connected and not to be ignored.
unfoldable pub initial : List (ℕ × Peer) → List ℕ → List ℕ → List ℕ
unfolding find is_in
initial known ignore [] = []
initial known ignore (p ∷ ps) =
    let rest = initial known ignore ps in
    let connected : Bool = elim (find p known) [ none ↦ false | some _ ↦ true ] in
    if connected && not (is_in p ignore) then p ∷ rest else rest

-- The peer, once for each of its regions that has the code.
unfoldable pub in_region : ℕ → ℕ → List ℕ → List ℕ
in_region code p [] = []
in_region code p (c ∷ cs) = let rest = in_region code p cs in if c == code then p ∷ rest else rest

abbrev pub is_count : ℤ → List ℕ → Bool
is_count n ps = is_zero (pos (length ps) -ℤ n)

-- One region: the peers so far, and whether they are enough. The test is made after each peer.
unfoldable pub add_region : ℤ → ℕ → List ℕ → List (ℕ × Peer) → List ℕ → List ℕ × Bool
unfolding is_in in_region
add_region n code ignore [] found = (found, false)
add_region n code ignore ((p, v) ∷ rest) found =
    let found' = found ++ in_region code p v.regions in
    let next = add_region n code ignore rest (if is_in p ignore then found else found') in
    if is_in p ignore then next else if is_count n found' then (found', true) else next

unfoldable pub add_regions : ℤ → List Region → List ℕ → List (ℕ × Peer) → List ℕ → List ℕ
unfolding add_region
add_regions n [] ignore known found = found
add_regions n (r ∷ rs) ignore known found =
    let (found', enough) = add_region n r.code ignore known found in
    let next = add_regions n rs ignore known found' in if enough then found' else next

unfoldable pub peers : ℤ → List Region → List ℕ → List ℕ → PeerMgr → List ℕ
unfolding initial add_regions
peers n rl ignore init pm =
    let first = initial pm.peers ignore init in
    if is_zero n
    then []
    else if is_count n first
    then first
    else add_regions n rl ignore pm.peers first
