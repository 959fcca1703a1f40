-- ===== src/Wallet/Replay.antt =====
-- Idempotency: a request that is repeated with its key gets its first answer, whatever happened in
-- between.
use gosplash.Wallet.Api.Change.{of_reserve}
use gosplash.Wallet.Solvency.{Change-IsTable}
use gosplash.Wallet.History.{Later, run-stored_result, run-KeyFoundLater}
use gosplash.Wallet.Api.{Request, run}
use gosplash.Wallet.Tables.{IsTable}
use gosplash.Wallet.Release.Effect.{
  ReleaseEffect, release_result, freed_tables, release-ReleaseEffect,
}
use gosplash.Wallet.Commit.Effect.{CommitEffect, commit-CommitEffect}
use gosplash.Wallet.Reserve.Effect.{ReserveEffect, reserve-ReserveEffect}
use gosplash.Wallet.Domain.{Money, Reservation}
use gosplash.Prelude.Int.{ℤ, leb_ℤ, pos}
use gosplash.Wallet.Store.{
  find_reservation_by_idempotency_key, find_operation, stored_result, find_by_key,
}
use gosplash.Wallet.Release.{release_funds, release_tx, as_money}
use gosplash.Wallet.Commit.{commit_funds, commit_tx}
use gosplash.Wallet.Reserve.{reserve, reserve_tx}
use gosplash.Prelude.{
  List, ◌≡◌, ◌+◌, String, false, [], some, str_eq, arith, eq_iff, refl, ◌∙◌, ap, sym,
}
use gosplash.Wallet.Tx.{Env, World, ReleaseResult, within_tx, commit, release, ok, Result}

-- The documented behaviour of `encoding/json` on the two stored results.
pub record JsonRoundTrip (env : Env) : Type 0 where
  pub ids :
      (xs : List String) (json : String)
      → env.marshal_ids xs ≡ some json
      → env.unmarshal_ids json ≡ some xs
  pub released :
      (res : ReleaseResult) (json : String)
      → env.marshal_release res ≡ some json
      → env.unmarshal_release json ≡ some res

-- The two statements of a replayed request are accepted.
abbrev pub Accepts : Env → World → Type 0
Accepts env w = (env.fails w.calls ≡ false) × (env.fails (w.calls + 1) ≡ false)

abbrev pub after_two : World → World
after_two w = record w { calls = w.calls + 1 + 1; locks = [] }

module _ (env : Env) (u : World) (up : Accepts env u) where
  reserve_replays :
      (a : ℤ) (amount : Money) (key : String) (r : Reservation)
      → str_eq key "" ≡ false
      → leb_ℤ amount.amount_cents (pos 0) ≡ false
      → find_by_key key u.db.reservations ≡ some r
      → reserve env a amount key u ≡ (ok (r, r.available_after_cents), after_two u)
  unfolding reserve reserve_tx find_reservation_by_idempotency_key within_tx
  reserve_replays a amount key r named positive f = rw (named, positive, up.0, f, up.1)

  commit_replays :
      (i : String) (payee_id : ℤ) (key json : String) (ids : List String)
      → str_eq key "" ≡ false
      → stored_result key commit u.db.operations ≡ some json
      → env.unmarshal_ids json ≡ some ids
      → commit_funds env i payee_id key u ≡ (ok ids, after_two u)
  unfolding commit_funds commit_tx find_operation within_tx
  commit_replays i payee_id key json ids named f j = rw (named, up.0, f, j, up.1)

  release_replays :
      (i key json : String) (res : ReleaseResult)
      → str_eq key "" ≡ false
      → stored_result key release u.db.operations ≡ some json
      → env.unmarshal_release json ≡ some res
      → release_funds env i key u ≡ (ok (as_money res), after_two u)
  unfolding release_funds release_tx find_operation within_tx
  release_replays i key json res named f j = rw (named, up.0, f, j, up.1)

module _ (env : Env) (w v : World) where
  reserve_named :
      (a : ℤ) (amount : Money) (key : String) (x : Reservation × ℤ)
      → reserve env a amount key w ≡ (ok x, v)
      → str_eq key "" ≡ false
  unfolding reserve
  reserve_named a amount key x h = ground arith

  commit_named :
      (i : String) (payee_id : ℤ) (key : String) (ids : List String)
      → commit_funds env i payee_id key w ≡ (ok ids, v)
      → str_eq key "" ≡ false
  unfolding commit_funds
  commit_named i payee_id key ids h = ground arith

  release_named :
      (i key : String) (m : Money) → release_funds env i key w ≡ (ok m, v) → str_eq key "" ≡ false
  unfolding release_funds
  release_named i key m h = ground arith

  -- After an answered `Reserve`, the row of the key is the one that was returned.
  reserve_stored :
      (a : ℤ) (amount : Money) (key : String) (r : Reservation)
      → ReserveEffect a amount key w.db r v.db
      → find_by_key key v.db.reservations ≡ some r
  reserve_stored a amount key r (ReserveEffect.replayed f e) = rw e f
  reserve_stored a amount key r (ReserveEffect.created _ i _ _ c) =
      rw (c.after, c.row) (rw ((eq_iff key key).1 refl))

  commit_stored :
      JsonRoundTrip env
      → (i : String) (payee_id : ℤ) (key : String) (ids : List String)
      → CommitEffect env i payee_id key w.db ids v.db
      → (json : String) × (stored_result key commit v.db.operations ≡ some json)
        × (env.unmarshal_ids json ≡ some ids)
  commit_stored rt i payee_id key ids (CommitEffect.replayed json f u e) = (json, rw e f, u)
  commit_stored rt i payee_id key ids (CommitEffect.already r json _ _ _ _ m e) =
      (json, rw e (rw ((eq_iff key key).1 refl, stored_result)), rt.ids ids json m)
  commit_stored rt i payee_id key ids (CommitEffect.paid r b q op x y json c) =
      (json, rw c.after (rw ((eq_iff key key).1 refl, stored_result)), rt.ids ids json c.stored)

  release_stored :
      JsonRoundTrip env
      → (i key : String) (m : Money) → ReleaseEffect env i key w.db m v.db
      → (json : String) × (res : ReleaseResult) × (stored_result key release v.db.operations
          ≡ some json)
        × (env.unmarshal_release json ≡ some res)
        × (m ≡ as_money res)
  release_stored rt i key m (ReleaseEffect.replayed json res f u e same) =
      (json, res, rw same f, u, e)
  release_stored rt i key m (ReleaseEffect.already r json _ _ _ e j same) = (
    json,
    release_result r w.db,
    rw same (rw ((eq_iff key key).1 refl, stored_result)),
    rt.released _ json j,
    e,
  )
  release_stored rt i key m (ReleaseEffect.freed r json _ _ _ e j same) = (
    json,
    release_result r (freed_tables i w.db),
    rw same (rw ((eq_iff key key).1 refl, stored_result)),
    rt.released _ json j,
    e,
  )

-- After a `Reserve` that was answered, in a table with unique ids and keys, and any further
-- requests, a `Reserve` with the same key, whatever account and positive sum it names, returns the
-- same reservation (whose status alone may have moved on) with the same available sum, and changes
-- no table, if its two statements are accepted.
pub reserve_idempotent :
    (env : Env) (a : ℤ) (amount : Money) (key : String) (w : World) (r : Reservation)
    (available : ℤ) (v : World)
    → IsTable w.db.reservations
    → reserve env a amount key w ≡ (ok (r, available), v)
    → (qs : List Request) → Accepts env (run env qs v)
    → (a' : ℤ) (amount' : Money) → leb_ℤ amount'.amount_cents (pos 0) ≡ false
    → (r' : Reservation) × (reserve env a' amount' key (run env qs v)
        ≡ (ok (r', available), after_two (run env qs v)))
      × Later r r'
reserve_idempotent env a amount key w r available v t h qs up a' amount' positive =
    let (effect, answer) = (reserve-ReserveEffect env a amount key w).at (r, available) v h in
    let t' : IsTable v.db.reservations = Change-IsTable env w.db v.db (of_reserve env effect) t in
    let (r', f, later) =
      run-KeyFoundLater env key r qs v t' (reserve_stored env w v a amount key r effect) in
    (
      r',
      reserve_replays env (run env qs v) up a' amount' key r'
            (reserve_named env w v a amount key (r, available) h) positive f
          ∙ ap
              (λ (n : ℤ).
                let x : Result (Reservation × ℤ) × World = (ok (r', n), after_two (run env qs v)) in
                x)
              (ap (λ (z : Reservation). z.available_after_cents) later.terms ∙ sym answer),
      later,
    )

-- After a `Commit` that was answered, and any further requests, a `Commit` with the same key,
-- whatever else it names, returns the same ids of ledger entries and changes no table, if its two
-- statements are accepted and JSON reads back what it wrote.
pub commit_idempotent :
    (env : Env) (i : String) (payee_id : ℤ) (key : String) (w : World) (ids : List String)
    (v : World)
    → JsonRoundTrip env
    → commit_funds env i payee_id key w ≡ (ok ids, v)
    → (qs : List Request) → Accepts env (run env qs v)
    → (i' : String) (payee_id' : ℤ)
    → commit_funds env i' payee_id' key (run env qs v) ≡ (ok ids, after_two (run env qs v))
commit_idempotent env i payee_id key w ids v rt h qs up i' payee_id' =
    let (json, f, u) =
      commit_stored env w v rt i payee_id key ids
        ((commit-CommitEffect env i payee_id key w).at ids v h) in
    commit_replays env (run env qs v) up i' payee_id' key json ids
      (commit_named env w v i payee_id key ids h) (run-stored_result env key commit json qs v f) u

-- After a `Release` that was answered, and any further requests, a `Release` with the same key,
-- whatever reservation it names, returns the sum that was available the first time and changes no
-- table, if its two statements are accepted and JSON reads back what it wrote.
pub release_idempotent :
    (env : Env) (i key : String) (w : World) (m : Money) (v : World)
    → JsonRoundTrip env
    → release_funds env i key w ≡ (ok m, v)
    → (qs : List Request) → Accepts env (run env qs v)
    → (i' : String) → release_funds env i' key (run env qs v) ≡ (ok m, after_two (run env qs v))
release_idempotent env i key w m v rt h qs up i' =
    let (json, res, f, u, e) =
      release_stored env w v rt i key m ((release-ReleaseEffect env i key w).at m v h) in
    rw e (
      release_replays env (run env qs v) up i' key json res (release_named env w v i key m h)
        (run-stored_result env key release json qs v f) u)
