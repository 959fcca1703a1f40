-- ===== src/Wallet/Tables.antt =====
-- The tables under the updates of the service: lookups and sums after an UPDATE of a status.
use gosplash.Wallet.Store.{find_reservation, find_by_key, update_status, reserved_of, is_active}
use gosplash.Prelude.Int.{ℤ, pos, ◌≤ℤ◌, ◌==ℤ◌, int_laws, ◌+ℤ◌}
use gosplash.Wallet.Domain.{ReservationStatus, Reservation, active}
use gosplash.Prelude.{
  List, String, Option, ◌∷◌, str_eq, if◌then◌else◌, ◌≡◌, arith, none, false, some, eq_iff,
  Bool-cases, inl, inr, [], refl,
}

-- `reservations` as the constraints of the table and the checks of the service keep it: positive
-- sums, unique ids and unique idempotency keys.
abbrev pub IsTable : List Reservation → Type 0
IsTable [] = Unit
IsTable (r ∷ rs) =
    (pos 1 ≤ℤ r.amount_cents)
    × (find_reservation r.id rs ≡ none)
    × (find_by_key r.idempotency_key rs ≡ none)
    × IsTable rs

abbrev pub with_status : ReservationStatus → Option Reservation → Option Reservation
with_status s none = none
with_status s (some r) = some (record r { status = s })

module _ (i : String) (s : ReservationStatus) where
  -- Another id is found as before; the same id is found with the new status.
  pub find_reservation-update_ne :
      (j : String) (rs : List Reservation)
      → str_eq i j ≡ false
      → find_reservation j (update_status i s rs) ≡ find_reservation j rs
  find_reservation-update_ne j [] h = refl
  find_reservation-update_ne j (r ∷ rs) h =
      ground (arith, eq_iff r.id i, eq_iff r.id j, eq_iff i j, find_reservation-update_ne j rs h)

  pub find_reservation-update_self :
      (rs : List Reservation)
      → find_reservation i (update_status i s rs) ≡ with_status s (find_reservation i rs)
  find_reservation-update_self [] = refl
  find_reservation-update_self (r ∷ rs) = ground (arith, find_reservation-update_self rs)

  pub find_reservation-update_none :
      (j : String) (rs : List Reservation)
      → find_reservation j rs ≡ none
      → find_reservation j (update_status i s rs) ≡ none
  find_reservation-update_none j [] h = refl
  find_reservation-update_none j (r ∷ rs) h = ground (arith, find_reservation-update_none j rs)

  pub find_by_key-update_none :
      (k : String) (rs : List Reservation)
      → find_by_key k rs ≡ none
      → find_by_key k (update_status i s rs) ≡ none
  find_by_key-update_none k [] h = refl
  find_by_key-update_none k (r ∷ rs) h = ground (arith, find_by_key-update_none k rs)

  -- A reservation with key `k` keeps everything but its status.
  pub find_by_key-update :
      (k : String) (rs : List Reservation) (r : Reservation)
      → find_by_key k rs ≡ some r
      → find_by_key k (update_status i s rs)
        ≡ some (if str_eq r.id i then record r { status = s } else r)
  find_by_key-update k [] r h = cc
  find_by_key-update k (x ∷ rs) r h = ground (arith, find_by_key-update k rs r)

  pub update_status-IsTable : (rs : List Reservation) → IsTable rs → IsTable (update_status i s rs)
  update_status-IsTable [] h = tt
  update_status-IsTable (r ∷ rs) h = ground (
    arith,
    update_status-IsTable rs h.3,
    find_reservation-update_none r.id rs h.1,
    find_by_key-update_none r.idempotency_key rs h.2,
  )

  -- Without the row, nothing is updated.
  pub update_status_absent :
      (rs : List Reservation) → find_reservation i rs ≡ none → update_status i s rs ≡ rs
  update_status_absent [] h = refl
  update_status_absent (r ∷ rs) h = ground (arith, update_status_absent rs)

-- What an account has in its active reservations is no less than zero, and falls by the sum of a
-- reservation that is closed.
pub reserved_of_nonneg : (a : ℤ) (rs : List Reservation) → IsTable rs → pos 0 ≤ℤ reserved_of a rs
reserved_of_nonneg a [] h = omega arith
reserved_of_nonneg a (r ∷ rs) h = grind (int_laws, reserved_of_nonneg a rs h.3)

abbrev pub share : ℤ → Reservation → ℤ
share a r = if r.account_id ==ℤ a then r.amount_cents else pos 0

close_head :
    (a : ℤ) (s : ReservationStatus) (x : Reservation) (rs : List Reservation) (r : Reservation)
    → some x ≡ some r
    → r.status ≡ active
    → is_active s ≡ false
    → reserved_of a (record x { status = s } ∷ rs) +ℤ share a r ≡ reserved_of a (x ∷ rs)
close_head a s x rs r h st c = grind (int_laws, st)

close_tail :
    (a : ℤ) (x : Reservation) (rs : List Reservation) (r : Reservation) (ts : List Reservation)
    → reserved_of a ts +ℤ share a r ≡ reserved_of a rs
    → reserved_of a (x ∷ ts) +ℤ share a r ≡ reserved_of a (x ∷ rs)
close_tail a x rs r ts h = grind int_laws

pub reserved_of-close :
    (a : ℤ) (i : String) (s : ReservationStatus) (rs : List Reservation) (r : Reservation)
    → IsTable rs
    → find_reservation i rs ≡ some r
    → r.status ≡ active
    → is_active s ≡ false
    → reserved_of a (update_status i s rs) +ℤ share a r ≡ reserved_of a rs
reserved_of-close a i s [] r t h st c = cc
reserved_of-close a i s (x ∷ rs) r t h st c = elim (Bool-cases (str_eq x.id i)) [
  | inl here ↦
      let absent : find_reservation i rs ≡ none = rw ((eq_iff x.id i).0 here) at (t.1) in
      rw (here, update_status_absent i s rs absent) (close_head a s x rs r (rw here at h) st c)
  | inr there ↦ rw there (
      close_tail a x rs r (update_status i s rs)
        (reserved_of-close a i s rs r t.3 (rw there at h) st c))
]

-- A row found by its key is the row of its id.
pub find_by_key-find_reservation :
    (k : String) (rs : List Reservation) (r : Reservation)
    → IsTable rs
    → find_by_key k rs ≡ some r
    → find_reservation r.id rs ≡ some r
find_by_key-find_reservation k [] r t h = cc
find_by_key-find_reservation k (x ∷ rs) r t h =
    ground (arith, find_by_key-find_reservation k rs r t.3, eq_iff x.id r.id)

-- An INSERT hides no row.
pub find_reservation-insert :
    (x : Reservation) (i : String) (rs : List Reservation) (y : Reservation)
    → find_reservation x.id rs ≡ none
    → find_reservation i rs ≡ some y
    → find_reservation i (x ∷ rs) ≡ some y
find_reservation-insert x i rs y new f = ground (arith, eq_iff x.id i)

pub find_by_key-insert :
    (x : Reservation) (k : String) (rs : List Reservation) (y : Reservation)
    → find_by_key x.idempotency_key rs ≡ none
    → find_by_key k rs ≡ some y
    → find_by_key k (x ∷ rs) ≡ some y
find_by_key-insert x k rs y new f = ground (arith, eq_iff x.idempotency_key k)
