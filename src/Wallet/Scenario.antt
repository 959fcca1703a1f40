-- ===== src/Wallet/Scenario.antt =====
-- A buyer with 100, an author, and one reservation of 60, paid or released.
use gosplash.Wallet.Tables.{IsTable}
use gosplash.Wallet.Release.{release_funds}
use gosplash.Wallet.Solvency.{Sound}
use gosplash.Wallet.Payments.{IsSettled, entries_for, events_for}
use gosplash.Wallet.Locks.{lock_accounts_sorted}
use gosplash.Wallet.Commit.Effect.{operation_row}
use gosplash.Wallet.Commit.{debit_entry, commit_funds, credit_entry, debited_event}
use gosplash.Prelude.{
  ℕ, String, false, List, [], ◌∷◌, Option, none, some, str_eq, ◌&&◌, ◌==◌, ◌≡◌, refl, if◌then◌else◌,
  arith, eq_iff, ◌++◌,
}
use gosplash.Prelude.Int.{ℤ, pos, ◌==ℤ◌, ==ℤ_iff, ◌+ℤ◌}
use gosplash.Wallet.Domain.{
  Money, LedgerEntry, Reservation, debit, credit, active, Account, released, committed,
}
use gosplash.Wallet.Tx.{
  Env, World, ReleaseResult, ok, account_row, release, commit, reservation_row,
}
use gosplash.Wallet.Reserve.{reserve}
use gosplash.Wallet.Replay.{JsonRoundTrip}

abbrev pub uuid : ℕ → String
uuid n =
    if n == 0
    then "reservation"
    else if n == 1
    then "operation"
    else if n == 2
    then "debit"
    else if n == 3
    then "credit"
    else "next"

-- An encoder that knows the results of the scenario, and refuses any other.
abbrev pub marshal_ids : List String → Option String
marshal_ids (x ∷ y ∷ []) = if str_eq x "debit" && str_eq y "credit" then some "ids" else none
marshal_ids _ = none

abbrev pub unmarshal_ids : String → Option (List String)
unmarshal_ids json = if str_eq json "ids" then some ("debit" ∷ "credit" ∷ []) else none

abbrev pub marshal_release : ReleaseResult → Option String
marshal_release res =
    if (res.available_after_cents ==ℤ pos 100) && str_eq res.currency "USD"
    then some "freed"
    else none

abbrev pub unmarshal_release : String → Option ReleaseResult
unmarshal_release json =
    if str_eq json "freed"
    then some (record { available_after_cents = pos 100; currency = "USD" })
    else none

abbrev pub env : Env
env = record {
  uuid = uuid;
  fails = λ _. false;
  uuid_le = λ x y. str_eq x "credit";
  marshal_ids = marshal_ids;
  unmarshal_ids = unmarshal_ids;
  marshal_release = marshal_release;
  unmarshal_release = unmarshal_release;
}

marshal_ids_round :
    (xs : List String) (json : String) → marshal_ids xs ≡ some json → unmarshal_ids json ≡ some xs
marshal_ids_round [] json h = cc h
marshal_ids_round (x ∷ []) json h = cc h
marshal_ids_round (x ∷ y ∷ []) json h =
    ground (arith, eq_iff x "debit", eq_iff y "credit", eq_iff json "ids")
marshal_ids_round (x ∷ y ∷ z ∷ xs) json h = cc h

pub env-JsonRoundTrip : JsonRoundTrip env
env-JsonRoundTrip = record {
  ids = marshal_ids_round;
  released = λ res json h. ground (
    arith,
    eq_iff json "freed",
    eq_iff res.currency "USD",
    ==ℤ_iff res.available_after_cents (pos 100),
  );
}

abbrev pub seed : String → ℤ → LedgerEntry
seed i account_id = record {
  id = i;
  account_id = account_id;
  amount_cents = pos 100;
  direction = credit;
  operation_id = "seed";
  reason = "top_up";
  reference_id = "seed";
}

abbrev pub buyer : Account
buyer = record { id = pos 1; owner_id = pos 11; currency = "USD" }

abbrev pub author : Account
author = record { id = pos 2; owner_id = pos 12; currency = "USD" }

abbrev pub world : World
world = record {
  db = record {
    accounts = buyer ∷ author ∷ [];
    ledger_entries =
        seed "top_up" (pos 1) ∷ record (seed "outside" (pos 9)) { direction = debit } ∷ [];
    reservations = [];
    operations = [];
    outbox_wallet = [];
  };
  calls = 0;
  drawn = 0;
  locks = [];
}

abbrev pub sixty : Money
sixty = record { amount_cents = pos 60; currency = "USD" }

abbrev pub row : Reservation
row = record {
  id = "reservation";
  account_id = pos 1;
  amount_cents = pos 60;
  currency = "USD";
  status = active;
  idempotency_key = "order";
  available_after_cents = pos 40;
}

-- After the first reservation, then after its payment, or after its release.
abbrev pub reserved_world : World
reserved_world = record world {
  db = record world.db { reservations = row ∷ [] };
  calls = 6;
  drawn = 1;
  locks = account_row (pos 1) ∷ [];
}

pub reserve_row : reserve env (pos 1) sixty "order" world ≡ (ok (row, pos 40), reserved_world)
unfolding reserve gosplash.Wallet.Tx.within_tx
    gosplash.Wallet.Store.find_reservation_by_idempotency_key gosplash.Wallet.Reserve.reserve_new
    gosplash.Wallet.Store.lock_account ◌==ℤ◌ gosplash.Wallet.Store.ledger_balance
    gosplash.Prelude.Int.◌+ℤ◌ gosplash.Wallet.Store.active_reserved_sum gosplash.Prelude.Int.wrap64
    gosplash.Prelude.Int.◌-ℤ◌ gosplash.Wallet.Tx.new_id gosplash.Wallet.Store.insert_reservation
reserve_row = refl

abbrev pub committed_world : World
committed_world = record {
  db = record reserved_world.db {
    ledger_entries =
        debit_entry "reservation" "debit" "operation" buyer row
        ∷ credit_entry "reservation" "credit" "operation" author row
        ∷ reserved_world.db.ledger_entries;
    reservations = record row { status = committed } ∷ [];
    operations = operation_row "order" commit "reservation" "ids" ∷ [];
    outbox_wallet = debited_event "reservation" buyer row ∷ [];
  };
  calls = 15;
  drawn = 4;
  locks = account_row (pos 2) ∷ account_row (pos 1) ∷ reservation_row "reservation" ∷ [];
}

pub commit_row :
    commit_funds env "reservation" (pos 2) "order" reserved_world
    ≡ (ok ("debit" ∷ "credit" ∷ []), committed_world)
unfolding commit_funds gosplash.Wallet.Tx.within_tx gosplash.Wallet.Store.find_operation
    gosplash.Wallet.Store.lock_reservation gosplash.Wallet.Locks.lock_accounts_sorted
    gosplash.Wallet.Store.lock_account ◌==ℤ◌ gosplash.Wallet.Tx.new_id
    gosplash.Wallet.Store.insert_ledger_entries gosplash.Wallet.Store.set_reservation_status
    gosplash.Wallet.Store.write_account_debited gosplash.Wallet.Store.record_operation
commit_row = refl

abbrev pub released_world : World
released_world = record {
  db = record reserved_world.db {
    reservations = record row { status = released } ∷ [];
    operations = operation_row "order" release "reservation" "freed" ∷ [];
  };
  calls = 13;
  drawn = 1;
  locks = reservation_row "reservation" ∷ [];
}

pub release_row :
    release_funds env "reservation" "order" reserved_world
    ≡ (ok (record { amount_cents = pos 100; currency = "USD" }), released_world)
unfolding release_funds gosplash.Wallet.Tx.within_tx gosplash.Wallet.Store.find_operation
    gosplash.Wallet.Store.lock_reservation ◌==ℤ◌ gosplash.Wallet.Store.set_reservation_status
    gosplash.Wallet.Store.record_operation gosplash.Wallet.Store.ledger_balance
    gosplash.Prelude.Int.◌+ℤ◌ gosplash.Wallet.Store.active_reserved_sum gosplash.Prelude.Int.wrap64
    gosplash.Prelude.Int.◌-ℤ◌
release_row = refl

pub row-IsTable : IsTable reserved_world.db.reservations
row-IsTable = ground arith

pub row-IsSettled : IsSettled "reservation" committed_world.db (record row { status = committed })
unfolding entries_for events_for
row-IsSettled = record { found = refl; entries = refl; events = refl }

pub world-Sound : Sound env (pos 1) world.db
unfolding ◌==ℤ◌ ◌+ℤ◌
world-Sound = ground arith
