-- ===== src/Order/Placement.antt =====
-- app/order_service.go: `OrderService.PlaceOrder`, which takes an order once for each idempotency
-- key and hands it to the saga, and `GetOrder`. The ports of internal/ports are a parameter.
pub mod Once
use gosplash.Prelude.{String, Bool, true, false, Option, none, some, str_eq, not, if◌then◌else◌}
use gosplash.Prelude.Int.{ℤ}
use Prim.Native.String.{◌++◌ as append}
use gosplash.Order.Domain.{OrderStatus, pending}

-- domain/order.go: `Order`, without its times.
pub record Order : Type 0 where
  pub id : String
  pub buyer_id : ℤ
  pub listing_id : String
  pub price_cents : ℤ
  pub currency : String
  pub author_id : ℤ
  pub status : OrderStatus
  pub failure_reason : String
  pub license_id : String

pub record Listing : Type 0 where
  pub id : String
  pub author_id : ℤ
  pub price_cents : ℤ
  pub currency : String
  pub status : String

pub record PlaceOrderCommand : Type 0 where
  pub buyer_id : ℤ
  pub listing_id : String
  pub idempotency_key : String

-- The payload of the event `order.order.placed`.
pub record OrderPlaced : Type 0 where
  pub order_id : String
  pub buyer_id : ℤ
  pub listing_id : String
  pub price_cents : ℤ
  pub currency : String

-- `IdempotencyResult`
pub data Begun : Type 0 where
  free in_progress : Begun
  finished : String → Begun

pub data Fetched : Type 0 where
  fetched : Listing → Fetched
  not_fetched : String → Fetched

-- The errors of the domain, the catalog's as it comes, and one for each wrapped error.
pub data PlaceError : Type 0 where
  idempotency_key_required idempotency_in_progress listing_not_available order_not_found :
      PlaceError
  listing_error : String → PlaceError
  begin_failed bad_stored_response bad_envelope create_failed start_failed : PlaceError
  bad_response read_failed : PlaceError

pub data Answer : Type 0 where
  placed : Order → Answer
  refused : PlaceError → Answer

-- The ports on a state, with uuid, the envelope and `encoding/json`; false stands for an error.
pub record Ports (S : Type 0) : Type 0 where
  pub begin : String → S → Option Begun × S
  pub complete : String → String → S → Bool × S
  pub get_listing : String → S → Fetched × S
  pub new_uuid : S → String × S
  pub create : Order → OrderPlaced → S → Bool × S
  pub start_place_order : Order → S → Bool × S
  pub get_by_id : String → S → Option (Option Order)
  pub envelope_fits : OrderPlaced → Bool
  pub marshal : Order → Option String
  pub unmarshal : String → Option Order

-- `idempotencyKeyPrefix`
unfoldable pub storage_key : PlaceOrderCommand → String
storage_key cmd = append "place-order:" cmd.idempotency_key

abbrev pub new_order : String → PlaceOrderCommand → Listing → Order
new_order i cmd listing = record {
  id = i;
  buyer_id = cmd.buyer_id;
  listing_id = cmd.listing_id;
  price_cents = listing.price_cents;
  currency = listing.currency;
  author_id = listing.author_id;
  status = pending;
  failure_reason = "";
  license_id = "";
}

abbrev pub placed_event : Order → OrderPlaced
placed_event o = record {
  order_id = o.id;
  buyer_id = o.buyer_id;
  listing_id = o.listing_id;
  price_cents = o.price_cents;
  currency = o.currency;
}

module _ {S : Type 0} (p : Ports S) where
  -- After the start of the saga; whether the response could be stored does not matter.
  unfoldable pub finish : String → Order → Bool × S → Answer × S
  finish key o (false, s) = (refused start_failed, s)
  finish key o (true, s) = elim (p.marshal o) [
    | none ↦ (refused bad_response, s)
    | some json ↦ (placed o, (p.complete key json s).1)
  ]

  unfoldable pub after_create : String → Order → Bool × S → Answer × S
  unfolding finish
  after_create key o (false, s) = (refused create_failed, s)
  after_create key o (true, s) = finish key o (p.start_place_order o s)

  unfoldable pub create_order : String → Order → S → Answer × S
  unfolding after_create
  create_order key o s =
      if p.envelope_fits (placed_event o)
      then after_create key o (p.create o (placed_event o) s)
      else (refused bad_envelope, s)

  unfoldable pub with_listing : PlaceOrderCommand → String → Fetched × S → Answer × S
  unfolding create_order
  with_listing cmd key (not_fetched e, s) = (refused (listing_error e), s)
  with_listing cmd key (fetched listing, s) =
      if not (str_eq listing.status "published")
      then (refused listing_not_available, s)
      else create_order key (new_order (p.new_uuid s).0 cmd listing) (p.new_uuid s).1

  -- The `switch` on the status of the key
  unfoldable pub on_begun : PlaceOrderCommand → String → Option Begun × S → Answer × S
  unfolding with_listing
  on_begun cmd key (none, s) = (refused begin_failed, s)
  on_begun cmd key (some (finished json), s) = elim (p.unmarshal json) [
    | none ↦ (refused bad_stored_response, s)
    | some o ↦ (placed o, s)
  ]
  on_begun cmd key (some in_progress, s) = (refused idempotency_in_progress, s)
  on_begun cmd key (some free, s) = with_listing cmd key (p.get_listing cmd.listing_id s)

  -- `PlaceOrder`
  unfoldable pub place_order : PlaceOrderCommand → S → Answer × S
  unfolding on_begun storage_key
  place_order cmd s =
      if str_eq cmd.idempotency_key ""
      then (refused idempotency_key_required, s)
      else on_begun cmd (storage_key cmd) (p.begin (storage_key cmd) s)

  -- `GetOrder`; no row and a failed read are told apart.
  unfoldable pub get_order : String → S → Answer
  get_order i s = elim (p.get_by_id i s) [
    | none ↦ refused read_failed
    | some none ↦ refused order_not_found
    | some (some o) ↦ placed o
  ]
