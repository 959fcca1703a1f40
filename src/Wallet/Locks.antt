-- ===== src/Wallet/Locks.antt =====
-- app/service.go: `lockAccountsSorted`.
pub mod Order
use gosplash.Prelude.{if◌then◌else◌}
use gosplash.Prelude.Int.{ℤ, ◌==ℤ◌, ltb_ℤ}
use gosplash.Wallet.Domain.{Account}
use gosplash.Wallet.Tx.{Env, Tx, pure, ◌>>=◌}
use gosplash.Wallet.Store.{lock_account}

abbrev pub swap_pair : Account × Account → Account × Account
swap_pair (a, b) = (b, a)

module _ (env : Env) where
  -- `lockAccountsSorted`: the smaller id is locked first; one row is locked once.
  unfoldable pub lock_pair : ℤ → ℤ → Tx (Account × Account)
  lock_pair first second = do
    locked_first ← lock_account env first
    if first ==ℤ second
        then pure (locked_first, locked_first)
        else do locked_second ← lock_account env second; pure (locked_first, locked_second)

  unfoldable pub lock_accounts_sorted : ℤ → ℤ → Tx (Account × Account)
  unfolding lock_pair
  lock_accounts_sorted id_a id_b =
      if ltb_ℤ id_b id_a
      then (do locked ← lock_pair id_b id_a; pure (swap_pair locked))
      else lock_pair id_a id_b
