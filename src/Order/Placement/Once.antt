-- ===== src/Order/Placement/Once.antt =====
-- An order is taken once for its key: app/order_service.go.
use gosplash.Prelude.{
  String, Bool, true, false, some, Option-cases, inl, inr, ◌≡◌, refl, arith, Option, Bool-cases,
  str_eq, eq_iff, none,
}
use gosplash.Order.Placement.{
  Order, placed, Ports, finish, PlaceOrderCommand, create_order, with_listing, place_order, Fetched,
  after_create, storage_key, on_begun, Listing, placed_event, finished, fetched, free, Begun,
  new_order, not_fetched, in_progress,
}

module _ {S : Type 0} (p : Ports S) where
  -- The end of a placement, from the answer of the workflow starter on.
  pub record Finished (key : String) (o : Order) (q : Bool × S) (s' : S) : Type 0 where
    pub started : q.0 ≡ true
    pub json : String
    pub encoded : p.marshal o ≡ some json
    pub after : s' ≡ (p.complete key json q.1).1

  finish-Finished :
      (key : String) (o o' : Order) (q : Bool × S) (s' : S)
      → finish p key o q ≡ (placed o', s')
      → (o' ≡ o) × Finished key o q s'
  unfolding finish
  finish-Finished key o o' (false, s) s' h = cc h
  finish-Finished key o o' (true, s) s' h = elim (Option-cases (p.marshal o)) [
    | inl e ↦ ground arith
    | inr (json, e) ↦
        (ground arith, record { started = refl; json = json; encoded = e; after = ground arith })
  ]

  -- A placement with its listing: the order names the buyer and copies price, currency and author.
  pub record Taken (cmd : PlaceOrderCommand) (key : String) (q : Fetched × S) (o : Order) (s' : S)
      : Type 0 where
    pub listing : Listing
    pub found : q.0 ≡ fetched listing
    pub published : listing.status ≡ "published"
    pub order : o ≡ new_order (p.new_uuid q.1).0 cmd listing
    pub created : (p.create o (placed_event o) (p.new_uuid q.1).1).0 ≡ true
    pub end :
        Finished key o (p.start_place_order o (p.create o (placed_event o) (p.new_uuid q.1).1).1) s'

  create_order-Finished :
      (key : String) (o o' : Order) (s s' : S)
      → create_order p key o s ≡ (placed o', s')
      → (o' ≡ o)
        × ((p.create o (placed_event o) s).0 ≡ true)
        × Finished key o (p.start_place_order o (p.create o (placed_event o) s).1) s'
  unfolding create_order after_create
  create_order-Finished key o o' s s' h = elim (Bool-cases (p.envelope_fits (placed_event o))) [
    | inl fits ↦ after (p.create o (placed_event o) s) (rw fits at h)
    | inr misfit ↦ ground arith
  ]
    where
      after :
          (q : Bool × S)
          → after_create p key o q ≡ (placed o', s')
          → (o' ≡ o) × (q.0 ≡ true) × Finished key o (p.start_place_order o q.1) s'
      after (false, t) h = cc h
      after (true, t) h =
          let (same, end) = finish-Finished key o o' (p.start_place_order o t) s' h in
          (same, refl, end)

  with_listing-Taken :
      (cmd : PlaceOrderCommand) (key : String) (q : Fetched × S) (o : Order) (s' : S)
      → with_listing p cmd key q ≡ (placed o, s')
      → Taken cmd key q o s'
  unfolding with_listing
  with_listing-Taken cmd key (not_fetched e, s) o s' h = cc h
  with_listing-Taken cmd key (fetched listing, s) o s' h =
      elim (Bool-cases (str_eq listing.status "published")) [
        | inl shown ↦
            let (same, created, end) =
              create_order-Finished key (new_order (p.new_uuid s).0 cmd listing) o (p.new_uuid s).1
                s' (rw shown at h) in
            record {
              listing = listing;
              found = refl;
              published = (eq_iff listing.status "published").0 shown;
              order = same;
              created = rw same created;
              end = rw same end;
            }
        | inr shut ↦ ground arith
      ]

  -- How a placement can end with an order: the key was finished before, or is free and a new order
  -- is taken.
  pub data Placement (cmd : PlaceOrderCommand) (s : S) (o : Order) (s' : S) : Type 0 where
    repeated :
        (json : String)
        → (p.begin (storage_key cmd) s).0 ≡ some (finished json)
        → p.unmarshal json ≡ some o
        → s' ≡ (p.begin (storage_key cmd) s).1
        → Placement cmd s o s'
    taken :
        (p.begin (storage_key cmd) s).0 ≡ some free
        → Taken cmd
            (storage_key cmd)
            (p.get_listing cmd.listing_id (p.begin (storage_key cmd) s).1)
            o
            s'
        → Placement cmd s o s'

  -- A `PlaceOrder` that returns an order either found the key finished, and then returned the
  -- stored order and asked for nothing more; or found it free, the listing published, and then
  -- created the pending order of that buyer with the listing's price, currency and author, started
  -- its saga after the row was written, and stored the response last.
  pub place_order-Placement :
      (cmd : PlaceOrderCommand) (s : S) (o : Order) (s' : S)
      → place_order p cmd s ≡ (placed o, s')
      → Placement cmd s o s'
  unfolding place_order on_begun
  place_order-Placement cmd s o s' h = elim (Bool-cases (str_eq cmd.idempotency_key "")) [
    | inl empty ↦ ground arith
    | inr named ↦ by_status (p.begin (storage_key cmd) s).0 refl (rw named at h)
  ]
    where
      by_status :
          (b : Option Begun)
          → (p.begin (storage_key cmd) s).0 ≡ b
          → on_begun p cmd (storage_key cmd) (b, (p.begin (storage_key cmd) s).1) ≡ (placed o, s')
          → Placement cmd s o s'
      by_status none e h = cc h
      by_status (some in_progress) e h = cc h
      by_status (some free) e h = taken e (with_listing-Taken cmd (storage_key cmd) _ o s' h)
      by_status (some (finished json)) e h = elim (Option-cases (p.unmarshal json)) [
        | inl bad ↦ ground arith
        | inr (o', good) ↦ repeated json e (ground arith) (ground arith)
      ]
