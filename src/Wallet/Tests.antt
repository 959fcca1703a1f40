-- ===== src/Wallet/Tests.antt =====
-- The theorems about the wallet, at the scenario's requests.
use gosplash.Wallet.Progress.Payment.{commit_pays}
use gosplash.Wallet.Scenario.{
  author, buyer, env, env-JsonRoundTrip, world, reserve_row, commit_row, release_row, row,
  row-IsTable, row-IsSettled, reserved_world, committed_world, released_world, sixty, world-Sound,
}
use gosplash.Prelude.{if◌then◌else◌, String, false, List, [], ◌∷◌, some, ◌≡◌, refl, true}
use gosplash.Prelude.Int.{ltb_ℤ, wrap64, ◌-ℤ◌, ◌==ℤ◌, ◌+ℤ◌, pos}
use gosplash.Wallet.Tx.{err, ok}
use gosplash.Wallet.Progress.{reserve_decides}
use gosplash.Wallet.Progress.Statements.{Up}
use gosplash.Wallet.Reserve.{new_reservation, reserve}
use gosplash.Wallet.Reserve.Effect.{available_now}
use gosplash.Wallet.Release.{release_funds}
use gosplash.Wallet.Api.{
  Request, run, balance_request, reserve_request, commit_request, release_request, handle,
}
use gosplash.Wallet.Api.Step.{Step, handle-Step}
use gosplash.Wallet.Solvency.{Sound, run-IsSolvent}
use gosplash.Wallet.Books.{ledger_total, run-ledger_total}
use gosplash.Wallet.Payments.{IsSettled, run-IsSettled}
use gosplash.Wallet.Replay.{reserve_idempotent, commit_idempotent, release_idempotent, after_two}
use gosplash.Wallet.Effects.{Holds, Moves, Frees, reserve-Holds, commit-Moves, release-Frees}
use gosplash.Wallet.History.{Later}
use gosplash.Wallet.Commit.{commit_funds}
use gosplash.Wallet.Domain.{Error, insufficient_funds, Reservation, committed}
use gosplash.Rpc.Status.{Failure}
use gosplash.Rpc.Retry.{is_retryable}
use gosplash.Wallet.Server.{to_domain_status}
use gosplash.Wallet.Server.Refusals.{Verdict, wallet_refusals}

-- A failed payment to an account that does not exist, a lookup, and an attempt to overdraw.
abbrev requests : List Request
requests =
    commit_request "reservation" (pos 7) "retry"
    ∷ balance_request (pos 1)
    ∷ reserve_request (pos 1) sixty "second"
    ∷ release_request "missing" "third"
    ∷ []

run-IsSolvent_example : Sound env (pos 1) (run env requests world).db
run-IsSolvent_example = run-IsSolvent env (pos 1) requests world world-Sound

run-ledger_total_example :
    ledger_total (run env requests reserved_world).db.ledger_entries
    ≡ ledger_total reserved_world.db.ledger_entries
run-ledger_total_example = run-ledger_total env requests reserved_world

run-IsSettled_example :
    (r : Reservation) × IsSettled "reservation" (run env requests committed_world).db r
run-IsSettled_example =
    run-IsSettled env "reservation" (record row { status = committed }) requests committed_world
      row-IsSettled

reserve_idempotent_example :
    (r : Reservation) × (reserve env (pos 2) sixty "order" (run env requests reserved_world)
      ≡ (ok (r, pos 40), after_two (run env requests reserved_world)))
    × Later row r
reserve_idempotent_example =
    reserve_idempotent env (pos 1) sixty "order" world row (pos 40) reserved_world tt reserve_row
      requests (refl, refl) (pos 2) sixty refl

commit_idempotent_example :
    commit_funds env "reservation" (pos 2) "order" (run env requests committed_world)
    ≡ (ok ("debit" ∷ "credit" ∷ []), after_two (run env requests committed_world))
commit_idempotent_example =
    commit_idempotent env "reservation" (pos 2) "order" reserved_world ("debit" ∷ "credit" ∷ [])
      committed_world env-JsonRoundTrip commit_row requests (refl, refl) "reservation" (pos 2)

release_idempotent_example :
    release_funds env "reservation" "order" (run env requests released_world) ≡ (
      ok (record { amount_cents = pos 100; currency = "USD" }),
      after_two (run env requests released_world),
    )
release_idempotent_example =
    release_idempotent env "reservation" "order" reserved_world
      (record { amount_cents = pos 100; currency = "USD" }) released_world env-JsonRoundTrip
      release_row requests (refl, refl) "reservation"

reserve-Holds_example : Holds (pos 1) (pos 60) row (pos 40) world.db reserved_world.db
reserve-Holds_example =
    reserve-Holds env (pos 1) sixty "order" world row (pos 40) reserved_world world-Sound refl
      reserve_row

commit-Moves_example :
    Moves "reservation" (pos 2) row ("debit" ∷ "credit" ∷ []) reserved_world.db committed_world.db
commit-Moves_example =
    commit-Moves env "reservation" "order" reserved_world committed_world row row-IsTable refl refl
      (pos 2) ("debit" ∷ "credit" ∷ []) refl commit_row

release-Frees_example :
    Frees "reservation" row
      (record { amount_cents = pos 100; currency = "USD" })
      reserved_world.db
      released_world.db
release-Frees_example =
    release-Frees env "reservation" "order" reserved_world released_world row row-IsTable refl refl
      (record { amount_cents = pos 100; currency = "USD" }) refl release_row

handle-Step_example :
    Step env reserved_world.db
      (handle env (commit_request "reservation" (pos 2) "order") reserved_world).db
handle-Step_example = handle-Step env (commit_request "reservation" (pos 2) "order") reserved_world

abbrev error_text : Error → String
error_text e = "wallet"

wallet_refusals_example :
    (f : Failure) × (to_domain_status
        (λ st. true)
        error_text
        insufficient_funds
        "WALLET_RESERVE_FAILED"
      ≡ some f)
    × (f.message ≡ "wallet")
    × (is_retryable (some f) ≡ false)
    × Verdict true f
wallet_refusals_example =
    wallet_refusals (λ st. true) error_text insufficient_funds "WALLET_RESERVE_FAILED"

env-Up : Up env
env-Up n = refl

reserve_decides_example : (reserve env (pos 1) sixty "order" world).0 ≡ (
    if ltb_ℤ (available_now (pos 1) world.db) (pos 60)
    then err insufficient_funds
    else ok (
      new_reservation "reservation" (pos 1) sixty "order" (available_now (pos 1) world.db),
      wrap64 (available_now (pos 1) world.db -ℤ pos 60),
    ))
unfolding ◌==ℤ◌ ◌+ℤ◌
reserve_decides_example =
    reserve_decides env (pos 1) sixty "order" world buyer env-Up refl refl refl refl refl refl refl
      refl

commit_pays_example :
    (commit_funds env "reservation" (pos 2) "order" reserved_world).0 ≡ ok ("debit" ∷ "credit" ∷ [])
unfolding ◌==ℤ◌
commit_pays_example =
    commit_pays env "reservation" (pos 2) "order" "ids" row buyer author reserved_world env-Up refl
      refl refl refl refl refl refl refl refl refl
