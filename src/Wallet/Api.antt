-- ===== src/Wallet/Api.antt =====
-- The four requests of the service, handled one after another: adapters/grpc/server.go.
pub mod Step
pub mod Change
use gosplash.Prelude.{String, List, [], ◌∷◌}
use gosplash.Prelude.Int.{ℤ}
use gosplash.Wallet.Domain.{Money}
use gosplash.Wallet.Tx.{Env, World}
use gosplash.Wallet.Reserve.{get_balance, reserve}
use gosplash.Wallet.Commit.{commit_funds}
use gosplash.Wallet.Release.{release_funds}

pub data Request : Type 0 where
  balance_request : ℤ → Request
  reserve_request : ℤ → Money → String → Request
  commit_request : String → ℤ → String → Request
  release_request : String → String → Request

module _ (env : Env) where
  -- What a request leaves, whether it is answered or refused.
  unfoldable pub handle : Request → World → World
  handle (balance_request a) w = (get_balance env a w).1
  handle (reserve_request a amount key) w = (reserve env a amount key w).1
  handle (commit_request i payee key) w = (commit_funds env i payee key w).1
  handle (release_request i key) w = (release_funds env i key w).1

  unfoldable pub run : List Request → World → World
  run [] w = w
  run (q ∷ qs) w = run qs (handle q w)
