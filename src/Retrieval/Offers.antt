-- ===== src/Retrieval/Offers.antt =====
-- The offers and the funds that retrieval/deal/mgr.go keeps for a content ID, and the parameters of
-- a deal that NewParams of retrieval/deal/types.go makes. Encoding a selector is a parameter.
use pop.Common.{ℕ, List, [], ◌∷◌, Option, none, some, ◌==◌, if◌then◌else◌}
use pop.Common.Assoc.{find, put}
use pop.Common.Int.{ℤ, pos}
use pop.Common.Result.{Result, ok, err, ◌>>=◌, wrap}
use pop.Common.Text.{String, ◌+++◌}
use pop.Retrieval.Deal.{Params, Offer}

pub record Mgr : Type 0 where
  pub provider_price : ℤ
  pub offers : List (ℕ × Offer)
  pub funds : List (ℕ × ℤ)

abbrev pub default_payment_interval : ℕ
default_payment_interval = 1048576

abbrev pub default_payment_interval_increase : ℕ
default_payment_interval_increase = 1048576

unfoldable pub new_manager : ℤ → Mgr
new_manager price = record { provider_price = price; offers = []; funds = [] }

unfoldable pub set_offer_for_cid : ℕ → Offer → Mgr → Mgr
unfolding put
set_offer_for_cid k offer mgr = record mgr { offers = put k offer mgr.offers }

unfoldable pub find_offer_by_cid : Mgr → ℕ → Result Offer
unfolding find
find_offer_by_cid mgr k = elim (find k mgr.offers) [ none ↦ err "offer not found" | some o ↦ ok o ]

-- A field that is not set has Go's zero value.
unfoldable pub default_offer : Mgr → Offer
default_offer mgr = record {
  id = "";
  peer_addr = [];
  payload_cid = 0;
  size = 0;
  payment_address = 0;
  min_price_per_byte = mgr.provider_price;
  max_payment_interval = default_payment_interval;
  max_payment_interval_increase = default_payment_interval_increase;
  unseal_price = pos 0;
}

unfoldable pub get_offer_for_cid : Mgr → ℕ → Offer
unfolding find_offer_by_cid default_offer
get_offer_for_cid mgr k = elim (find_offer_by_cid mgr k) [ err _ ↦ default_offer mgr | ok o ↦ o ]

-- The keys of a map are distinct.
unfoldable pub delete_offer : ℕ → List (ℕ × Offer) → List (ℕ × Offer)
delete_offer k [] = []
delete_offer k ((j, o) ∷ rest) =
    let later = delete_offer k rest in if j == k then rest else (j, o) ∷ later

unfoldable pub remove_offer : ℕ → Mgr → Mgr × Option String
unfolding find delete_offer
remove_offer k mgr = elim (find k mgr.offers) [
  | none ↦ (mgr, some "no existing offer")
  | some _ ↦ (record mgr { offers = delete_offer k mgr.offers }, none)
]

unfoldable pub set_funds_for_cid : ℕ → ℤ → Mgr → Mgr
unfolding put
set_funds_for_cid k funds mgr = record mgr { funds = put k funds mgr.funds }

unfoldable pub get_funds_for_cid : Mgr → ℕ → ℤ
unfolding find
get_funds_for_cid mgr k = elim (find k mgr.funds) [ none ↦ pos 0 | some amount ↦ amount ]

-- `none` is a selector that is nil.
unfoldable pub new_params :
    (Selector : Type 0)
    → (Selector → Result (List ℕ))
    → ℤ
    → ℕ
    → ℕ
    → Option Selector
    → Option ℕ
    → ℤ
    → Result Params
new_params Selector encode price interval increase selector piece unseal = elim selector [
  | none ↦ err "selector required"
  | some sel ↦ wrap (λ e. "error encoding selector: " +++ e) (encode sel) >>= λ raw. ok (record {
    selector = some raw;
    piece_cid = piece;
    price_per_byte = price;
    payment_interval = interval;
    payment_interval_increase = increase;
    unseal_price = unseal;
  })
]
