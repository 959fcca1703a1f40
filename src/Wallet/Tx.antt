-- ===== src/Wallet/Tx.antt =====
-- A database transaction as a state and error monad: `WithinTx` of adapters/pg/store.go, the rows
-- of adapters/pg/rows.go, and what the service takes from its surroundings.
pub mod Ensures
use gosplash.Prelude.{ℕ, ◌+◌, String, Bool, Option, List, [], ◌∷◌, if◌then◌else◌}
use gosplash.Prelude.Int.{ℤ}
use gosplash.Wallet.Domain.{Account, LedgerEntry, Reservation, AccountDebitedEvent, Error, storage}

-- `OperationCommit` and `OperationRelease`
pub data OperationKind : Type 0 where
  commit release : OperationKind

-- `releaseResult`, the stored answer of a release; that of a commit is a list of entry ids.
pub record ReleaseResult : Type 0 where
  pub available_after_cents : ℤ
  pub currency : String

-- A row of `wallet_operations`.
pub record Operation : Type 0 where
  pub idempotency_key : String
  pub kind : OperationKind
  pub reservation_id : String
  pub result_json : String

-- The tables of the service, newest row first.
pub record Db : Type 0 where
  pub accounts : List Account
  pub ledger_entries : List LedgerEntry
  pub reservations : List Reservation
  pub operations : List Operation
  pub outbox_wallet : List AccountDebitedEvent

-- What the code takes from libraries and the server: the n-th fresh uuid, whether the n-th
-- statement fails, the order of the uuid column, and `encoding/json` on the two stored results.
pub record Env : Type 0 where
  pub uuid : ℕ → String
  pub fails : ℕ → Bool
  pub uuid_le : String → String → Bool
  pub marshal_ids : List String → Option String
  pub unmarshal_ids : String → Option (List String)
  pub marshal_release : ReleaseResult → Option String
  pub unmarshal_release : String → Option ReleaseResult

-- A row lock taken by SELECT ... FOR UPDATE.
pub data Lock : Type 0 where
  account_row : ℤ → Lock
  reservation_row : String → Lock

-- The tables, with how many statements and uuids were used, and the locks of the transaction.
pub record World : Type 0 where
  pub db : Db
  pub calls : ℕ
  pub drawn : ℕ
  pub locks : List Lock

pub data Result (A : Type 0) : Type 0 where
  ok : A → Result A
  err : Error → Result A

abbrev pub Tx : Type 0 → Type 0
Tx A = World → Result A × World

module _ {A : Type 0} where
  abbrev pub pure : A → Tx A
  pure a w = (ok a, w)

  abbrev pub raise : Error → Tx A
  raise e w = (err e, w)

  abbrev pub or_raise : Option A → Error → Tx A
  or_raise Option.none e = raise e
  or_raise (Option.some a) e = pure a

-- Shut, so that a proof follows the steps of a body one by one.
unfoldable pub and_then : {A B : Type 0} → Result A × World → (A → Tx B) → Result B × World
and_then (ok a, w) f = f a w
and_then (err e, w) f = (err e, w)

infixl 5 ◌>>=◌ ◌>>◌
abbrev pub ◌>>=◌ : {A B : Type 0} → Tx A → (A → Tx B) → Tx B
◌>>=◌ m f w = and_then (m w) f

abbrev pub ◌>>◌ : {A B : Type 0} → Tx A → Tx B → Tx B
m >> k = m >>= λ _. k

abbrev pub raise_if : Bool → Error → Tx (Unit {0})
raise_if c e w = (if c then err e else ok tt, w)

abbrev pub read : {A : Type 0} → (Db → A) → Tx A
read f w = (ok (f w.db), w)

abbrev pub modify : (Db → Db) → Tx (Unit {0})
modify f w = (ok tt, record w { db = f w.db })

abbrev pub lock : Lock → Tx (Unit {0})
lock l w = (ok tt, record w { locks = l ∷ w.locks })

-- What a transaction leaves: an error rolls the tables back; uuids and statements stay used.
abbrev pub settle : {A : Type 0} → Db → Result A × World → Result A × World
settle d (ok a, w) = (ok a, w)
settle d (err e, w) = (err e, record w { db = d })

module _ (env : Env) where
  -- One statement reaches the server, which may refuse it.
  unfoldable pub statement : Tx (Unit {0})
  statement w = (if env.fails w.calls then err storage else ok tt, record w { calls = w.calls + 1 })

  -- `newID`
  unfoldable pub new_id : Tx String
  new_id w = (ok (env.uuid w.drawn), record w { drawn = w.drawn + 1 })

  -- `WithinTx`: the body and the COMMIT, or a rollback.
  unfoldable pub within_tx : {A : Type 0} → Tx A → Tx A
  unfolding statement and_then
  within_tx body w = settle w.db ((do a ← body; statement; pure a) (record w { locks = [] }))
