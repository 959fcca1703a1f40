-- ===== src/Order/Idempotency/Orders.antt =====
-- One order for one key: `PlaceOrder` of services/order/internal/app/order_service.go on the store of
-- services/order/internal/adapters/idempotency/store.go.
use gosplash.Prelude.{
  ℕ, suc, String, Option, none, some, Bool, true, false, str_eq, ◌≡◌, ◌⊎◌, refl, Bool-cases,
  Option-cases, inl, inr, List, ◌∷◌, ◌≤◌, if◌then◌else◌, arith, ◌-◌, eq_iff, ◌+◌, subst, [],
}
use gosplash.Order.Placement.{
  Order, PlaceOrderCommand, Begun, free, in_progress, finished, Fetched, fetched, not_fetched,
  Ports, storage_key, new_order, placed_event, finish, after_create, create_order, with_listing,
  on_begun, place_order,
}
use gosplash.Order.Idempotency.{StoreEnv, Store, begin_key, complete_key}
use gosplash.Order.Idempotency.Once.{has_row, Claims, begin_key-Claims, complete_key-has_row}

-- The store, the number of orders that were handed to the table, and the state of the other ports.
pub record Desk (S : Type 0) : Type 0 where
  pub store : Store
  pub creates : ℕ
  pub rest : S

-- The other ports on this state; `create` is counted, whether it succeeds or not.
unfoldable pub on_store : {S : Type 0} → StoreEnv → Ports S → Ports (Desk S)
on_store env p = record {
  begin = λ k d. let (b, w) = begin_key env k d.store in (b, record d { store = w });
  complete =
      λ k json d. let (ok, w) = complete_key env k json d.store in (ok, record d { store = w });
  get_listing = λ i d. let (x, s) = p.get_listing i d.rest in (x, record d { rest = s });
  new_uuid = λ d. let (x, s) = p.new_uuid d.rest in (x, record d { rest = s });
  create = λ o e d.
      let (ok, s) = p.create o e d.rest in (ok, record d { rest = s; creates = suc d.creates });
  start_place_order =
      λ o d. let (ok, s) = p.start_place_order o d.rest in (ok, record d { rest = s });
  get_by_id = λ i d. p.get_by_id i d.rest;
  envelope_fits = p.envelope_fits;
  marshal = p.marshal;
  unmarshal = p.unmarshal;
}

-- No row of the table is gone, and no order was handed to it, or at most one was.
record Quiet {S : Type 0} (d d' : Desk S) : Type 0 where
  creates : d'.creates ≡ d.creates
  keeps : (k : String) → has_row k d.store.rows ≡ true → has_row k d'.store.rows ≡ true

record Within {S : Type 0} (d d' : Desk S) : Type 0 where
  creates : (d'.creates ≡ d.creates) ⊎ (d'.creates ≡ suc d.creates)
  keeps : (k : String) → has_row k d.store.rows ≡ true → has_row k d'.store.rows ≡ true

module _ {S : Type 0} (env : StoreEnv) (p : Ports S) where
  quiet : (d d' : Desk S) → Quiet d d' → Within d d'
  quiet d d' q = record { creates = inl q.creates; keeps = q.keeps }

  same : (d : Desk S) → Quiet d d
  same d = record { creates = refl; keeps = λ k h. h }

  finish-Quiet :
      (key : String) (o : Order) (ok : Bool) (d : Desk S)
      → Quiet d (finish (on_store env p) key o (ok, d)).1
  unfolding finish on_store
  finish-Quiet key o false d = same d
  finish-Quiet key o true d = elim (Option-cases (p.marshal o)) [
    | inl bad ↦ rw (bad, finish) (same d)
    | inr (json, e) ↦
        rw (e, finish)
          (record { creates = refl; keeps = λ k h. complete_key-has_row env key k json d.store h })
  ]

  create_order-Within :
      (key : String) (o : Order) (d : Desk S) → Within d (create_order (on_store env p) key o d).1
  unfolding create_order after_create on_store
  create_order-Within key o d = elim (Bool-cases (p.envelope_fits (placed_event o))) [
    | inr misfit ↦ rw (misfit, create_order) (quiet d d (same d))
    | inl fits ↦ rw (fits, create_order) (created (p.create o (placed_event o) d.rest))
  ]
    where
      created :
          (q : Bool × S)
          → Within d
              (after_create
                (on_store env p)
                key
                o
                (q.0, record d { rest = q.1; creates = suc d.creates })).1
      created (false, s) = record { creates = inr refl; keeps = λ k h. h }
      created (true, s) =
          let q = p.start_place_order o s in
          let f = finish-Quiet key o q.0 (record d { rest = q.1; creates = suc d.creates }) in
          record { creates = inr f.creates; keeps = f.keeps }

  with_listing-Within :
      (cmd : PlaceOrderCommand) (key : String) (x : Fetched) (d : Desk S)
      → Within d (with_listing (on_store env p) cmd key (x, d)).1
  unfolding with_listing on_store
  with_listing-Within cmd key (not_fetched e) d = quiet d d (same d)
  with_listing-Within cmd key (fetched listing) d =
      elim (Bool-cases (str_eq listing.status "published")) [
        | inr shut ↦ rw (shut, with_listing) (quiet d d (same d))
        | inl shown ↦
            let q = p.new_uuid d.rest in
            let c = create_order-Within key (new_order q.0 cmd listing) (record d { rest = q.1 }) in
            rw (shown, with_listing) (record { creates = c.creates; keeps = c.keeps })
      ]

  -- A placement hands on an order only where its key had no row, and then it has one.
  record Once (cmd : PlaceOrderCommand) (d d' : Desk S) : Type 0 where
    creates :
        (d'.creates ≡ d.creates)
        ⊎ ((d'.creates ≡ suc d.creates)
            × (has_row (storage_key cmd) d.store.rows ≡ false)
            × (has_row (storage_key cmd) d'.store.rows ≡ true))
    keeps : (k : String) → has_row k d.store.rows ≡ true → has_row k d'.store.rows ≡ true

  on_begun-Once :
      (cmd : PlaceOrderCommand) (b : Option Begun) (w : Store) (d : Desk S)
      → Claims (storage_key cmd) d.store.rows (b, w)
      → Once cmd d (on_begun (on_store env p) cmd (storage_key cmd) (b, record d { store = w })).1
  unfolding on_begun on_store
  on_begun-Once cmd none w d c = record { creates = inl refl; keeps = c.keeps }
  on_begun-Once cmd (some in_progress) w d c = record { creates = inl refl; keeps = c.keeps }
  on_begun-Once cmd (some (finished json)) w d c = elim (Option-cases (p.unmarshal json)) [
    | inl bad ↦ rw (bad, on_begun) (record { creates = inl refl; keeps = c.keeps })
    | inr (o, good) ↦ rw (good, on_begun) (record { creates = inl refl; keeps = c.keeps })
  ]
  on_begun-Once cmd (some free) w d c =
      let q = p.get_listing cmd.listing_id d.rest in
      let h = with_listing-Within cmd (storage_key cmd) q.0 (record d { store = w; rest = q.1 }) in
      record {
        creates = elim h.creates [
          | inl e ↦ inl e
          | inr e ↦ inr (e, (c.new refl).0, h.keeps (storage_key cmd) (c.new refl).1)
        ];
        keeps = λ k g. h.keeps k (c.keeps k g);
      }

  place_order-Once :
      (cmd : PlaceOrderCommand) (d : Desk S) → Once cmd d (place_order (on_store env p) cmd d).1
  unfolding place_order on_store
  place_order-Once cmd d = elim (Bool-cases (str_eq cmd.idempotency_key "")) [
    | inl empty ↦ rw (empty, place_order) (record { creates = inl refl; keeps = λ k h. h })
    | inr named ↦
        let b = begin_key env (storage_key cmd) d.store in
        rw (named, place_order)
          (on_begun-Once cmd b.0 b.1 d (begin_key-Claims env (storage_key cmd) d.store))
  ]

-- How many orders were handed to the table by those of some placements, one after another, that
-- have a key.
unfoldable pub created_for :
    {S : Type 0} → StoreEnv → Ports S → String → List PlaceOrderCommand → Desk S → ℕ
created_for env p key [] d = 0
created_for env p key (cmd ∷ cmds) d =
    let d' = (place_order (on_store env p) cmd d).1 in
    let rest = created_for env p key cmds d' in
    (if str_eq (storage_key cmd) key then d'.creates - d.creates else 0) + rest

module _ {S : Type 0} (env : StoreEnv) (p : Ports S) (key : String) where
  created_for_taken :
      (cmds : List PlaceOrderCommand) (d : Desk S)
      → has_row key d.store.rows ≡ true
      → created_for env p key cmds d ≡ 0
  unfolding created_for
  created_for_taken [] d h = refl
  created_for_taken (cmd ∷ cmds) d h =
      let o = place_order-Once env p cmd d in
      let d' = (place_order (on_store env p) cmd d).1 in
      let rest = created_for_taken cmds d' (o.keeps key h) in
      elim (Bool-cases (str_eq (storage_key cmd) key)) [
        | inr other ↦ rw (other, created_for) (omega (arith, rest))
        | inl mine ↦
            let e : storage_key cmd ≡ key = (eq_iff (storage_key cmd) key).0 mine in
            rw (mine, created_for)
              (elim o.creates [
                | inl none_now ↦ omega (arith, none_now, rest)
                | inr (one_now, free_before, has) ↦
                    let free_key : has_row key d.store.rows ≡ false =
                      subst (λ k. has_row k d.store.rows ≡ false) e free_before in
                    cc
              ])
      ]

  -- However statements and commands fail, answers are lost and Redis loses keys, and whatever the
  -- other ports do: among placements that follow one another, with any keys, those with one key
  -- hand at most one order to the table.
  pub one_order_per_key :
      (cmds : List PlaceOrderCommand) (d : Desk S) → created_for env p key cmds d ≤ 1
  unfolding created_for
  one_order_per_key [] d = omega arith
  one_order_per_key (cmd ∷ cmds) d =
      let o = place_order-Once env p cmd d in
      let d' = (place_order (on_store env p) cmd d).1 in
      let rest = one_order_per_key cmds d' in
      elim (Bool-cases (str_eq (storage_key cmd) key)) [
        | inr other ↦ rw (other, created_for) (omega (arith, rest))
        | inl mine ↦
            let e : storage_key cmd ≡ key = (eq_iff (storage_key cmd) key).0 mine in
            rw (mine, created_for)
              (elim o.creates [
                | inl none_now ↦ omega (arith, none_now, rest)
                | inr (one_now, free_before, has) ↦
                    let taken : has_row key d'.store.rows ≡ true =
                      subst (λ k. has_row k d'.store.rows ≡ true) e has in
                    omega (arith, one_now, created_for_taken cmds d' taken)
              ])
      ]
