-- ===== src/Wallet/History.antt =====
-- What later requests can do to a reservation, to its key and to a stored answer.
use gosplash.Wallet.Commit.Effect.{operation_row}
use gosplash.Wallet.Solvency.{Change-IsTable}
use gosplash.Wallet.Reserve.Effect.{available_now}
use gosplash.Wallet.Reserve.{new_reservation}
use gosplash.Wallet.Api.{Request, run}
use gosplash.Wallet.Api.Change.{Change, change_induction, same, inserted, journaled, moved, freed}
use gosplash.Wallet.Tables.{
  find_reservation-update_ne, IsTable, find_by_key-find_reservation, find_reservation-update_self,
  find_by_key-update, find_reservation-insert, find_by_key-insert,
}
use gosplash.Wallet.Store.{find_reservation, find_by_key, update_status, same_kind, stored_result}
use gosplash.Wallet.Tx.{Db, Env, World, OperationKind, Operation, commit, release}
use gosplash.Prelude.{
  String, ◌≡◌, List, some, Bool-cases, str_eq, inl, inr, eq_iff, refl, ◌∙◌, none, ap, ◌∷◌, arith,
  true,
}
use gosplash.Wallet.Domain.{ReservationStatus, Reservation, active, committed, released}

-- The moves of a status; a closed reservation stays closed.
pub data Advances : ReservationStatus → ReservationStatus → Type 0 where
  stays : (s : ReservationStatus) → Advances s s
  pays : Advances active committed
  frees : Advances active released

pub Advances-trans : {s t u : ReservationStatus} → Advances s t → Advances t u → Advances s u
Advances-trans (stays s) h = h
Advances-trans pays (stays _) = pays
Advances-trans frees (stays _) = frees

-- `r` as some later request left it: only its status may have moved.
pub record Later (r r' : Reservation) : Type 0 where
  pub terms : r' ≡ record r { status = r'.status }
  pub status : Advances r.status r'.status

Later-refl : (r : Reservation) → Later r r
Later-refl r = record { terms = refl; status = stays r.status }

Later-trans : (r x y : Reservation) → Later r x → Later x y → Later r y
Later-trans r x y h k = record {
  terms = k.terms ∙ ap (λ (z : Reservation). record z { status = y.status }) h.terms;
  status = Advances-trans h.status k.status;
}

Later-closed :
    (r : Reservation) (s : ReservationStatus)
    → r.status ≡ active
    → Advances active s
    → Later r (record r { status = s })
Later-closed r s e h = record { terms = refl; status = rw e h }

-- Row `i`, or the row of key `k`, is one that `r` has become.
abbrev pub FoundLater : String → Reservation → List Reservation → Type 0
FoundLater i r rs = (r' : Reservation) × (find_reservation i rs ≡ some r') × Later r r'

abbrev pub KeyFoundLater : String → Reservation → List Reservation → Type 0
KeyFoundLater k r rs = (r' : Reservation) × (find_by_key k rs ≡ some r') × Later r r'

found_again :
    {r : Reservation} (i : String) (rs : List Reservation) (x : Reservation)
    → Later r x
    → FoundLater i x rs
    → FoundLater i r rs
found_again {r} i rs x l (y, f, m) = (y, f, Later-trans r x y l m)

key_found_again :
    {r : Reservation} (k : String) (rs : List Reservation) (x : Reservation)
    → Later r x
    → KeyFoundLater k x rs
    → KeyFoundLater k r rs
key_found_again {r} k rs x l (y, f, m) = (y, f, Later-trans r x y l m)

-- The row that an UPDATE of `j` leaves for `i`.
module _ (j : String) (s : ReservationStatus) (rs : List Reservation) (x : Reservation)
    (found : find_reservation j rs ≡ some x) (was_active : x.status ≡ active)
    (move : Advances active s) where
  update-Later :
      (i : String) (y : Reservation)
      → find_reservation i rs ≡ some y
      → (y' : Reservation) × (find_reservation i (update_status j s rs) ≡ some y') × Later y y'
  update-Later i y f = elim (Bool-cases (str_eq j i)) [
    | inl same_id ↦
        let here : find_reservation j rs ≡ some y = rw ((eq_iff j i).0 same_id) f in
        let is_x : x ≡ y = cc in
        (
          record y { status = s },
          rw (← (eq_iff j i).0 same_id) (find_reservation-update_self j s rs ∙ rw here),
          Later-closed y s (rw (← is_x) was_active) move,
        )
    | inr other ↦ (y, rw (find_reservation-update_ne j s i rs other) f, Later-refl y)
  ]

  update_key-Later :
      (k : String) (y : Reservation)
      → IsTable rs
      → find_by_key k rs ≡ some y
      → (y' : Reservation) × (find_by_key k (update_status j s rs) ≡ some y') × Later y y'
  update_key-Later k y t f = elim (Bool-cases (str_eq y.id j)) [
    | inl same_id ↦
        let here : find_reservation j rs ≡ some y =
          rw (← (eq_iff y.id j).0 same_id) (find_by_key-find_reservation k rs y t f) in
        let is_x : x ≡ y = cc in
        (
          record y { status = s },
          find_by_key-update j s k rs y f ∙ rw same_id,
          Later-closed y s (rw (← is_x) was_active) move,
        )
    | inr other ↦ (y, find_by_key-update j s k rs y f ∙ rw other, Later-refl y)
  ]

module _ (env : Env) (i : String) (r : Reservation) where
  Change-FoundLater :
      (d d' : Db) → Change env d d' → FoundLater i r d.reservations → FoundLater i r d'.reservations
  Change-FoundLater d d' (same e) h = rw e h
  Change-FoundLater d d' (inserted a m k j x c) (y, f, l) =
      rw (c.after, c.row)
        (
          y,
          find_reservation-insert (new_reservation j a m k (available_now a d)) i d.reservations y
              c.fresh f,
          l,
        )
  Change-FoundLater d d' (journaled k kind j json c) h = rw c.after h
  Change-FoundLater d d' (moved j p k x b q op u v json ids c) (y, f, l) = rw c.after (
      found_again i (update_status j committed d.reservations) y l
        (update-Later j committed d.reservations x c.found c.was_active pays i y f))
  Change-FoundLater d d' (freed j k json x c) (y, f, l) = rw c.after (
      found_again i (update_status j released d.reservations) y l
        (update-Later j released d.reservations x c.found c.was_active frees i y f))

  -- Whatever requests follow, a reservation is still there: its account, sum, currency and key are
  -- what they were, and its status has stayed or has moved once, from active.
  pub run-FoundLater :
      (qs : List Request) (w : World)
      → find_reservation i w.db.reservations ≡ some r
      → FoundLater i r (run env qs w).db.reservations
  run-FoundLater qs w f =
      change_induction env (λ d. FoundLater i r d.reservations) Change-FoundLater qs w
        (r, f, Later-refl r)

module _ (env : Env) (k : String) (r : Reservation) where
  abbrev Kept : Db → Type 0
  Kept d = IsTable d.reservations × KeyFoundLater k r d.reservations

  Change-KeyFoundLater : (d d' : Db) → Change env d d' → Kept d → KeyFoundLater k r d'.reservations
  Change-KeyFoundLater d d' (same e) h = rw e h.1
  Change-KeyFoundLater d d' (inserted a m key j x c) (t, (y, f, l)) =
      rw (c.after, c.row)
        (
          y,
          find_by_key-insert (new_reservation j a m key (available_now a d)) k d.reservations y
              c.new f,
          l,
        )
  Change-KeyFoundLater d d' (journaled key kind j json c) h = rw c.after h.1
  Change-KeyFoundLater d d' (moved j p key x b q op u v json ids c) (t, (y, f, l)) = rw c.after (
      key_found_again k (update_status j committed d.reservations) y l
        (update_key-Later j committed d.reservations x c.found c.was_active pays k y t f))
  Change-KeyFoundLater d d' (freed j key json x c) (t, (y, f, l)) = rw c.after (
      key_found_again k (update_status j released d.reservations) y l
        (update_key-Later j released d.reservations x c.found c.was_active frees k y t f))

  -- The row of an idempotency key stays the row of that key.
  pub run-KeyFoundLater :
      (qs : List Request) (w : World)
      → IsTable w.db.reservations
      → find_by_key k w.db.reservations ≡ some r
      → KeyFoundLater k r (run env qs w).db.reservations
  run-KeyFoundLater qs w t f =
      (change_induction env Kept
        (λ d d' c h. (Change-IsTable env d d' c h.0, Change-KeyFoundLater d d' c h)) qs w
        (t, (r, f, Later-refl r))).1

same_kind_eq : (a b : OperationKind) → same_kind a b ≡ true → a ≡ b
same_kind_eq a b h = ground arith

-- A stored answer is never overwritten.
module _ (env : Env) (k : String) (kind : OperationKind) (json : String) where
  stored_result-record :
      (k' : String) (kind' : OperationKind) (i json' : String) (os : List Operation)
      → stored_result k' kind' os ≡ none
      → stored_result k kind os ≡ some json
      → stored_result k kind (operation_row k' kind' i json' ∷ os) ≡ some json
  stored_result-record k' kind' i json' os new old =
      ground (arith, eq_iff k' k, same_kind_eq kind' kind)

  Change-stored_result :
      (d d' : Db)
      → Change env d d'
      → stored_result k kind d.operations ≡ some json
      → stored_result k kind d'.operations ≡ some json
  Change-stored_result d d' (same e) h = rw e h
  Change-stored_result d d' (inserted a m key j x c) h = rw c.after h
  Change-stored_result d d' (journaled key kind' j json' c) h =
      rw c.after (stored_result-record key kind' j json' d.operations c.new h)
  Change-stored_result d d' (moved j p key x b q op u v json' ids c) h =
      rw c.after (stored_result-record key commit j json' d.operations c.new h)
  Change-stored_result d d' (freed j key json' x c) h =
      rw c.after (stored_result-record key release j json' d.operations c.new h)

  pub run-stored_result :
      (qs : List Request) (w : World)
      → stored_result k kind w.db.operations ≡ some json
      → stored_result k kind (run env qs w).db.operations ≡ some json
  run-stored_result qs w h =
      change_induction env (λ d. stored_result k kind d.operations ≡ some json) Change-stored_result
        qs w h
