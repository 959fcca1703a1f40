-- ===== src/Wallet/Payments.antt =====
-- A reservation is paid at most once: its ledger entries and its event are there exactly when it
-- is committed.
use gosplash.Wallet.Reserve.Effect.{available_now}
use gosplash.Wallet.Reserve.{new_reservation}
use gosplash.Wallet.Tables.{
  find_reservation-update_ne, find_reservation-update_self, find_reservation-insert,
}
use gosplash.Wallet.Commit.Effect.{Paid}
use gosplash.Wallet.Api.{Request, run}
use gosplash.Wallet.Api.Change.{
  Freed, Change, change_induction, same, inserted, journaled, moved, freed,
}
use gosplash.Wallet.Store.{find_reservation, entry_ids_of}
use gosplash.Prelude.Int.{ℤ}
use gosplash.Wallet.Tx.{Env, Db, World}
use gosplash.Prelude.{
  String, ℕ, List, length, ◌∷◌, ◌≡◌, str_eq, Bool-cases, if◌then◌else◌, some, false, suc, true,
  eq_iff, ◌∙◌, ap, inl, refl, inr, [], subst, sym,
}
use gosplash.Wallet.Domain.{
  ReservationStatus, Reservation, LedgerEntry, AccountDebitedEvent, Account, active, committed,
  released,
}

-- How many ledger entries, and how many outbox events, a reservation has by its status.
abbrev pub entries_due : ReservationStatus → ℕ
entries_due committed = 2
entries_due _ = 0

abbrev pub events_due : ReservationStatus → ℕ
events_due committed = 1
events_due _ = 0

unfoldable pub entries_for : String → List LedgerEntry → ℕ
entries_for i es = length (entry_ids_of i es)

unfoldable pub events_for : String → List AccountDebitedEvent → ℕ
events_for i [] = 0
events_for i (e ∷ es) = if str_eq e.reference_id i then suc (events_for i es) else events_for i es

pub record IsSettled (i : String) (d : Db) (r : Reservation) : Type 0 where
  pub found : find_reservation i d.reservations ≡ some r
  pub entries : entries_for i d.ledger_entries ≡ entries_due r.status
  pub events : events_for i d.outbox_wallet ≡ events_due r.status

abbrev Settled : String → Db → Type 0
Settled i d = (r : Reservation) × IsSettled i d r

pay_same :
    (i : String) (payee_id : ℤ) (env : Env) (key : String) (d d' : Db) (x : Reservation)
    (b q : Account) (op u v json : String) (ids : List String) (r : Reservation)
    → Paid env i payee_id key d x b q op u v json ids d'
    → IsSettled i d r
    → Settled i d'
unfolding entries_for events_for
pay_same i p env key d d' x b q op u v json ids r c h =
    let is_r : x ≡ r = cc (c.found, h.found) in
    let was : r.status ≡ active = rw (← is_r) c.was_active in
    let self : str_eq i i ≡ true = (eq_iff i i).1 refl in
    let none_yet : length (entry_ids_of i d.ledger_entries) ≡ 0 = h.entries ∙ ap entries_due was in
    let no_event : events_for i d.outbox_wallet ≡ 0 = h.events ∙ ap events_due was in
    (
      record r { status = committed },
      rw c.after (record {
        found = find_reservation-update_self i committed d.reservations ∙ rw h.found;
        entries = rw self (rw none_yet);
        events = rw self (rw no_event);
      }),
    )

pay_other :
    (i j : String) (payee_id : ℤ) (env : Env) (key : String) (d d' : Db) (x : Reservation)
    (b q : Account) (op u v json : String) (ids : List String) (r : Reservation)
    → str_eq j i ≡ false
    → Paid env j payee_id key d x b q op u v json ids d'
    → IsSettled i d r
    → Settled i d'
unfolding entries_for events_for
pay_other i j p env key d d' x b q op u v json ids r ne c h = (
  r,
  rw c.after (record {
    found = find_reservation-update_ne j committed i d.reservations ne ∙ h.found;
    entries = rw ne h.entries;
    events = rw ne h.events;
  }),
)

free_any :
    (i j key json : String) (d d' : Db) (x r : Reservation)
    → Freed j key json x d d'
    → IsSettled i d r
    → Settled i d'
free_any i j key json d d' x r c h = elim (Bool-cases (str_eq j i)) [
  | inl same_id ↦
      let here : find_reservation j d.reservations ≡ some r =
        rw (← (eq_iff j i).0 same_id) at (h.found) in
      let is_r : x ≡ r = cc (c.found, here) in
      let was : r.status ≡ active = rw (← is_r) c.was_active in
      (
        record r { status = released },
        rw c.after (record {
          found =
              rw (← (eq_iff j i).0 same_id)
                (find_reservation-update_self j released d.reservations ∙ rw here);
          entries = h.entries ∙ ap entries_due was;
          events = h.events ∙ ap events_due was;
        }),
      )
  | inr ne ↦ (
    r,
    rw c.after (record {
      found = find_reservation-update_ne j released i d.reservations ne ∙ h.found;
      entries = h.entries;
      events = h.events;
    }),
  )
]

module _ (env : Env) (i : String) where
  Change-Settled : (d d' : Db) → Change env d d' → Settled i d → Settled i d'
  Change-Settled d d' (same e) h = rw e h
  Change-Settled d d' (inserted a m k j x c) (r, h) =
      rw (c.after, c.row)
        (
          r,
          record {
            found =
                find_reservation-insert (new_reservation j a m k (available_now a d)) i
                  d.reservations r c.fresh h.found;
            entries = h.entries;
            events = h.events;
          },
        )
  Change-Settled d d' (journaled k kind j json c) (r, h) =
      rw c.after (r, record { found = h.found; entries = h.entries; events = h.events })
  Change-Settled d d' (moved j p k x b q op u v json ids c) (r, h) =
      elim (Bool-cases (str_eq j i)) [
        | inl same_id ↦
            let e : j ≡ i = (eq_iff j i).0 same_id in
            subst (λ z. Settled z d') e
              (pay_same j p env k d d' x b q op u v json ids r c
                (subst (λ z. IsSettled z d r) (sym e) h))
        | inr ne ↦ pay_other i j p env k d d' x b q op u v json ids r ne c h
      ]
  Change-Settled d d' (freed j k json x c) (r, h) = free_any i j k json d d' x r c h

  -- Paid once: take a reservation that is active with no entry and no event, or committed with its
  -- two entries and one event, or released with none. After any requests it is again in one of
  -- these cases.
  pub run-IsSettled :
      (r : Reservation) (qs : List Request) (w : World)
      → IsSettled i w.db r
      → (r' : Reservation) × IsSettled i (run env qs w).db r'
  run-IsSettled r qs w h = change_induction env (Settled i) Change-Settled qs w (r, h)
