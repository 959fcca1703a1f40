-- ===== src/Wallet/Api/Change.antt =====
-- The steps of the service by what they write: nothing, a reservation, a journal row, a payment,
-- or a release.
use gosplash.Wallet.Api.{Request, run}
use gosplash.Wallet.Release.Effect.{ReleaseEffect}
use gosplash.Wallet.Commit.Effect.{CommitEffect, operation_row, Paid}
use gosplash.Wallet.Reserve.Effect.{Created, ReserveEffect}
use gosplash.Wallet.Api.Step.{Step, run_induction, idle, reserving, committing, releasing}
use gosplash.Prelude.Int.{ℤ}
use gosplash.Wallet.Store.{stored_result, find_reservation, update_status}
use gosplash.Wallet.Domain.{Reservation, Money, Account, active, released}
use gosplash.Wallet.Tx.{Env, OperationKind, Db, release, commit, World}
use gosplash.Prelude.{String, ◌≡◌, List, none, ◌∷◌, some}

pub record Journaled (k : String) (kind : OperationKind) (i json : String) (d d' : Db)
    : Type 0 where
  pub new : stored_result k kind d.operations ≡ none
  pub after : d' ≡ record d { operations = operation_row k kind i json ∷ d.operations }

pub record Freed (i key json : String) (r : Reservation) (d d' : Db) : Type 0 where
  pub new : stored_result key release d.operations ≡ none
  pub found : find_reservation i d.reservations ≡ some r
  pub was_active : r.status ≡ active
  pub after : d' ≡ record d {
    reservations = update_status i released d.reservations;
    operations = operation_row key release i json ∷ d.operations;
  }

pub data Change (env : Env) (d d' : Db) : Type 0 where
  same : d' ≡ d → Change env d d'
  inserted :
      (a : ℤ) (amount : Money) (key i : String) (r : Reservation)
      → Created a amount key d i r d'
      → Change env d d'
  journaled :
      (k : String) (kind : OperationKind) (i json : String)
      → Journaled k kind i json d d'
      → Change env d d'
  moved :
      (i : String) (payee_id : ℤ) (key : String) (r : Reservation) (buyer payee : Account)
      (op debit_id credit_id json : String) (ids : List String)
      → Paid env i payee_id key d r buyer payee op debit_id credit_id json ids d'
      → Change env d d'
  freed : (i key json : String) (r : Reservation) → Freed i key json r d d' → Change env d d'

module _ (env : Env) {d d' : Db} where
  pub of_reserve :
      {a : ℤ} {amount : Money} {key : String} {r : Reservation}
      → ReserveEffect a amount key d r d'
      → Change env d d'
  of_reserve (ReserveEffect.replayed _ h) = same h
  of_reserve {a} {amount} {key} {r} (ReserveEffect.created account i _ _ h) =
      inserted a amount key i r h

  pub of_commit :
      {i : String} {payee_id : ℤ} {key : String} {ids : List String}
      → CommitEffect env i payee_id key d ids d'
      → Change env d d'
  of_commit (CommitEffect.replayed _ _ _ h) = same h
  of_commit {i} {key} (CommitEffect.already r json new _ _ _ _ h) =
      journaled key commit i json (record { new = new; after = h })
  of_commit {i} {payee_id} {key} {ids}
        (CommitEffect.paid r buyer payee op debit_id credit_id json h) =
      moved i payee_id key r buyer payee op debit_id credit_id json ids h

  pub of_release : {i key : String} {m : Money} → ReleaseEffect env i key d m d' → Change env d d'
  of_release (ReleaseEffect.replayed _ _ _ _ _ h) = same h
  of_release {i} {key} (ReleaseEffect.already r json new _ _ _ _ h) =
      journaled key release i json (record { new = new; after = h })
  of_release {i} {key} (ReleaseEffect.freed r json new found st _ _ h) =
      freed i key json r (record { new = new; found = found; was_active = st; after = h })

  pub of_step : Step env d d' → Change env d d'
  of_step (idle h) = same h
  of_step (reserving a amount key r h) = of_reserve h
  of_step (committing i payee_id key ids h) = of_commit h
  of_step (releasing i key m h) = of_release h

-- What every change keeps holds after any requests.
pub change_induction {ℓ} :
    (env : Env) (P : Db → Type ℓ)
    → ((d d' : Db) → Change env d d' → P d → P d')
    → (qs : List Request) (w : World) → P w.db
    → P (run env qs w).db
change_induction env P keep qs w h =
    run_induction env P (λ d d' s. keep d d' (of_step env s)) qs w h
