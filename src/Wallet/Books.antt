-- ===== src/Wallet/Books.antt =====
-- Double entry: the book is balanced, and it is only ever added to.
use gosplash.Wallet.Commit.{debit_entry, credit_entry}
use gosplash.Wallet.Store.{signed_cents}
use gosplash.Wallet.Api.Change.{Change, change_induction, same, inserted, journaled, moved, freed}
use gosplash.Wallet.Api.{Request, run}
use gosplash.Wallet.Domain.{LedgerEntry}
use gosplash.Wallet.Tx.{Env, Db, World}
use gosplash.Prelude.Int.{ℤ, pos, ◌-ℤ◌, ◌+ℤ◌, int_laws}
use gosplash.Prelude.{List, ◌∷◌, ◌≡◌, ◌++◌, [], refl, ◌∙◌}

-- SUM over all entries of all accounts
unfoldable pub ledger_total : List LedgerEntry → ℤ
ledger_total [] = pos 0
ledger_total (e ∷ es) = signed_cents e +ℤ ledger_total es

-- A pair of opposite entries of one amount changes no total.
pair_cancels : (x t : ℤ) → (pos 0 -ℤ x) +ℤ (x +ℤ t) ≡ t
pair_cancels x t = omega int_laws

module _ (env : Env) where
  Change-ledger_total :
      (base : ℤ) (d d' : Db)
      → Change env d d'
      → ledger_total d.ledger_entries ≡ base
      → ledger_total d'.ledger_entries ≡ base
  unfolding ledger_total
  Change-ledger_total base d d' (same e) h = rw e h
  Change-ledger_total base d d' (inserted a m k i r c) h = rw c.after h
  Change-ledger_total base d d' (journaled k kind i json c) h = rw c.after h
  Change-ledger_total base d d' (moved i p k r b q op x y json ids c) h =
      rw c.after (pair_cancels r.amount_cents (ledger_total d.ledger_entries) ∙ h)
  Change-ledger_total base d d' (freed i k json r c) h = rw c.after h

  -- Money neither appears nor vanishes: after any requests, failing or not, the sum of all entries
  -- of all accounts is what it was.
  pub run-ledger_total :
      (qs : List Request) (w : World)
      → ledger_total (run env qs w).db.ledger_entries ≡ ledger_total w.db.ledger_entries
  run-ledger_total qs w =
      change_induction env (λ d. ledger_total d.ledger_entries ≡ ledger_total w.db.ledger_entries)
        (Change-ledger_total (ledger_total w.db.ledger_entries)) qs w refl

  Change-appends :
      (base : List LedgerEntry) (d d' : Db)
      → Change env d d'
      → (new : List LedgerEntry) × (d.ledger_entries ≡ new ++ base)
      → (new : List LedgerEntry) × (d'.ledger_entries ≡ new ++ base)
  Change-appends base d d' (same e) h = rw e h
  Change-appends base d d' (inserted a m k i r c) h = rw c.after h
  Change-appends base d d' (journaled k kind i json c) h = rw c.after h
  Change-appends base d d' (moved i p k r b q op x y json ids c) (new, e) =
      (debit_entry i x op b r ∷ credit_entry i y op q r ∷ new, rw (c.after, e))
  Change-appends base d d' (freed i k json r c) h = rw c.after h

  -- The book is append-only: after any requests the old entries stand unchanged below the new.
  pub run_appends :
      (qs : List Request) (w : World)
      → (new : List LedgerEntry) × ((run env qs w).db.ledger_entries ≡ new ++ w.db.ledger_entries)
  run_appends qs w =
      change_induction env
        (λ d. (new : List LedgerEntry) × (d.ledger_entries ≡ new ++ w.db.ledger_entries))
        (Change-appends w.db.ledger_entries) qs w ([], refl)
