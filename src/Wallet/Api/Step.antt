-- ===== src/Wallet/Api/Step.antt =====
-- Refinement: every request, whatever statement fails, is one atomic step of the tables.
use gosplash.Wallet.Release.Effect.{ReleaseEffect, release-ReleaseEffect}
use gosplash.Wallet.Commit.Effect.{CommitEffect, commit-CommitEffect}
use gosplash.Wallet.Reserve.Effect.{ReserveEffect, reserve-ReserveEffect}
use gosplash.Wallet.Tx.Ensures.{
  RollsBack, if-RollsBack, raise-RollsBack, within_tx-RollsBack, step_of,
}
use gosplash.Wallet.Domain.{Money, Reservation, empty_idempotency_key, invalid_amount}
use gosplash.Wallet.Store.{store_get_balance, ledger_balance, active_reserved_sum}
use gosplash.Prelude.Int.{ℤ, leb_ℤ, pos}
use gosplash.Prelude.{◌≡◌, String, List, ◌∷◌, arith, str_eq, []}
use gosplash.Wallet.Api.{
  handle, run, Request, balance_request, reserve_request, commit_request, release_request,
}
use gosplash.Wallet.Release.{release_funds, release_tx}
use gosplash.Wallet.Commit.{commit_funds, commit_tx}
use gosplash.Wallet.Reserve.{reserve, get_balance, reserve_tx}
use gosplash.Wallet.Tx.{Env, Db, World}

pub data Step (env : Env) (d d' : Db) : Type 0 where
  idle : d' ≡ d → Step env d d'
  reserving :
      (a : ℤ) (amount : Money) (key : String) (r : Reservation)
      → ReserveEffect a amount key d r d'
      → Step env d d'
  committing :
      (i : String) (payee_id : ℤ) (key : String) (ids : List String)
      → CommitEffect env i payee_id key d ids d'
      → Step env d d'
  releasing : (i key : String) (m : Money) → ReleaseEffect env i key d m d' → Step env d d'

module _ (env : Env) where
  -- A failed `Reserve`, `Commit` or `Release` has changed no table.
  pub reserve-RollsBack :
      (a : ℤ) (amount : Money) (key : String) → RollsBack (reserve env a amount key)
  unfolding reserve
  reserve-RollsBack a amount key =
      if-RollsBack (str_eq key "") (raise-RollsBack empty_idempotency_key) (
        if-RollsBack (leb_ℤ amount.amount_cents (pos 0)) (raise-RollsBack invalid_amount)
          (within_tx-RollsBack env (reserve_tx env a amount key)))

  pub commit-RollsBack :
      (i : String) (payee_id : ℤ) (key : String) → RollsBack (commit_funds env i payee_id key)
  unfolding commit_funds
  commit-RollsBack i payee_id key =
      if-RollsBack (str_eq key "") (raise-RollsBack empty_idempotency_key)
        (within_tx-RollsBack env (commit_tx env i payee_id key))

  pub release-RollsBack : (i key : String) → RollsBack (release_funds env i key)
  unfolding release_funds
  release-RollsBack i key =
      if-RollsBack (str_eq key "") (raise-RollsBack empty_idempotency_key)
        (within_tx-RollsBack env (release_tx env i key))

  pub get_balance_reads : (a : ℤ) (w : World) → (get_balance env a w).1.db ≡ w.db
  unfolding get_balance store_get_balance ledger_balance active_reserved_sum
  get_balance_reads a w = ground arith

  -- Every request, from any tables and with any statements failing, is one step: it changes no
  -- table, or does the whole of one effect, that of an answered `Reserve`, `Commit` or `Release`
  -- under the guards of the code.
  pub handle-Step : (q : Request) (w : World) → Step env w.db (handle env q w).db
  unfolding handle
  handle-Step (balance_request a) w = idle (get_balance_reads a w)
  handle-Step (reserve_request a amount key) w =
      step_of (Step env w.db) w (reserve-RollsBack a amount key)
        (reserve-ReserveEffect env a amount key w) (λ d same. idle same)
        (λ (r, available) v h. reserving a amount key r h.0)
  handle-Step (commit_request i payee_id key) w =
      step_of (Step env w.db) w (commit-RollsBack i payee_id key)
        (commit-CommitEffect env i payee_id key w) (λ d same. idle same)
        (λ ids v h. committing i payee_id key ids h)
  handle-Step (release_request i key) w =
      step_of (Step env w.db) w (release-RollsBack i key) (release-ReleaseEffect env i key w)
        (λ d same. idle same) (λ m v h. releasing i key m h)

  -- What every step keeps holds after any requests.
  pub run_induction {ℓ} :
      (P : Db → Type ℓ)
      → ((d d' : Db) → Step env d d' → P d → P d')
      → (qs : List Request) (w : World) → P w.db
      → P (run env qs w).db
  unfolding run
  run_induction P keep [] w h = h
  run_induction P keep (q ∷ qs) w h =
      run_induction P keep qs (handle env q w) (keep w.db (handle env q w).db (handle-Step q w) h)
