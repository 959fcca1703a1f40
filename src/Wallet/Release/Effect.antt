-- ===== src/Wallet/Release/Effect.antt =====
-- What a successful `Release` has done to the tables, as a relation.
use gosplash.Wallet.Commit.Effect.{operation_row}
use gosplash.Wallet.Store.Specs.{
  Ensures-ledger_balance, Ensures-active_reserved_sum, Ensures-lock_reservation,
  Ensures-record_operation, Ensures-set_reservation_status, Ensures-find_operation,
}
use gosplash.Wallet.Tx.Ensures.{
  Ensures, Ensures-bind, Ensures-or_raise, Ensures-pure, Ensures-weaken, Ensures-raise,
  Ensures-within_tx,
}
use gosplash.Wallet.Reserve.Effect.{available_now}
use gosplash.Wallet.Store.{
  update_status, stored_result, find_operation_row, find_reservation, stored_result-none,
}
use gosplash.Wallet.Release.{
  current_available, record_release, release_answer, release_or_replay, release_funds, release_tx,
  as_money, release_by_status,
}
use gosplash.Wallet.Tx.{Env, Db, ReleaseResult, World, release}
use gosplash.Prelude.{
  String, Option, ◌≡◌, some, none, Bool-cases, str_eq, ◌∷◌, ap, refl, inl, inr, [], sym,
}
use gosplash.Wallet.Domain.{committed, Reservation, Money, released, active, ReservationStatus}

-- The answer that is recorded, computed on the tables `d`.
abbrev pub release_result : Reservation → Db → ReleaseResult
release_result r d = record {
  available_after_cents = available_now r.account_id d;
  currency = r.currency;
}

abbrev pub freed_tables : String → Db → Db
freed_tables i d = record d { reservations = update_status i released d.reservations }

pub data ReleaseEffect (env : Env) (i key : String) (d : Db) (m : Money) (d' : Db) : Type 0 where
  replayed :
      (json : String) (res : ReleaseResult)
      → stored_result key release d.operations ≡ some json
      → env.unmarshal_release json ≡ some res
      → m ≡ as_money res
      → d' ≡ d
      → ReleaseEffect env i key d m d'
  already :
      (r : Reservation) (json : String)
      → stored_result key release d.operations ≡ none
      → find_reservation i d.reservations ≡ some r
      → r.status ≡ released
      → m ≡ as_money (release_result r d)
      → env.marshal_release (release_result r d) ≡ some json
      → d' ≡ record d { operations = operation_row key release i json ∷ d.operations }
      → ReleaseEffect env i key d m d'
  freed :
      (r : Reservation) (json : String)
      → stored_result key release d.operations ≡ none
      → find_reservation i d.reservations ≡ some r
      → r.status ≡ active
      → m ≡ as_money (release_result r (freed_tables i d))
      → env.marshal_release (release_result r (freed_tables i d)) ≡ some json
      → d' ≡ record d {
        reservations = update_status i released d.reservations;
        operations = operation_row key release i json ∷ d.operations;
      }
      → ReleaseEffect env i key d m d'

module _ (env : Env) (i key : String) where
  Ensures-current_available :
      {d : Db} (r : Reservation) (w : World)
      → w.db ≡ d
      → Ensures (λ res v. (v.db ≡ d) × (res ≡ release_result r d)) (current_available env r w)
  unfolding current_available
  Ensures-current_available r w here =
      Ensures-bind _ _ (Ensures-ledger_balance env w here r.account_id) λ balance w₁ (h₁, b, _).
        Ensures-bind _ _ (Ensures-active_reserved_sum env w₁ h₁ r.account_id)
          λ reserved w₂ (h₂, s, _). Ensures-pure _ w₂ (h₂, rw (b, s))

  Ensures-record_release :
      {d : Db} (res : ReleaseResult) (w : World)
      → w.db ≡ d
      → find_operation_row key release d.operations ≡ none
      → Ensures
          (λ _ v.
            (json : String) × (env.marshal_release res ≡ some json)
            × (v.db ≡ record d { operations = operation_row key release i json ∷ d.operations }))
          (record_release env key i res w)
  unfolding record_release
  Ensures-record_release res w here new =
      Ensures-bind _ _ (Ensures-or_raise (env.marshal_release res) _ w here) λ json w₁ (h₁, m).
        Ensures-weaken (Ensures-record_operation env w₁ h₁ key release i json new)
          λ _ v h. (json, m, h)

  Ensures-release_answer :
      {d : Db} (r : Reservation) (w : World)
      → w.db ≡ d
      → find_operation_row key release d.operations ≡ none
      → Ensures
          (λ m v.
            (json : String) × (env.marshal_release (release_result r d) ≡ some json)
            × (m ≡ as_money (release_result r d))
            × (v.db ≡ record d { operations = operation_row key release i json ∷ d.operations }))
          (release_answer env i r key w)
  unfolding release_answer
  Ensures-release_answer {d} r w here new =
      Ensures-bind _ _ (Ensures-current_available r w here) λ res w₁ (h₁, e).
        Ensures-bind _ _ (Ensures-record_release res w₁ h₁ new)
          λ _ w₂ (json, m, h₂). Ensures-pure _ w₂ (json, rw (← e) m, ap as_money e, h₂)

  module _ (d : Db) (new : stored_result key release d.operations ≡ none) (r : Reservation)
      (found : find_reservation i d.reservations ≡ some r) where
    Ensures-release_by_status :
        (s : ReservationStatus)
        → r.status ≡ s
        → (w : World) → w.db ≡ d
        → Ensures (λ m v. ReleaseEffect env i key d m v.db) (release_by_status env s i r key w)
    unfolding release_by_status
    Ensures-release_by_status active st w here =
        Ensures-bind _ _ (Ensures-set_reservation_status env w here i released) λ _ w₁ h₁.
          Ensures-weaken
            (Ensures-release_answer r w₁ h₁ (stored_result-none key release d.operations new))
            λ m v (json, j, a, h). freed r json new found st a j h
    Ensures-release_by_status committed st w here = Ensures-raise _ w
    Ensures-release_by_status released st w here =
        Ensures-weaken
          (Ensures-release_answer r w here (stored_result-none key release d.operations new))
          λ m v (json, j, a, h). already r json new found st a j h

  Ensures-release_or_replay :
      {d : Db} (o : Option String)
      → stored_result key release d.operations ≡ o
      → (w : World) → w.db ≡ d
      → Ensures (λ m v. ReleaseEffect env i key d m v.db) (release_or_replay env i key o w)
  unfolding release_or_replay
  Ensures-release_or_replay (some raw) old w here =
      Ensures-bind _ _ (Ensures-or_raise (env.unmarshal_release raw) _ w here)
        λ res v (h, u). Ensures-pure _ v (replayed raw res old u refl h)
  Ensures-release_or_replay {d} none new w here =
      Ensures-bind _ _ (Ensures-lock_reservation env w here i)
        λ r w₁ (h₁, found). Ensures-release_by_status d new r found r.status refl w₁ h₁

  -- A successful `Release` replayed its key, found the reservation released, or freed it.
  pub release-ReleaseEffect :
      (w : World) → Ensures (λ m v. ReleaseEffect env i key w.db m v.db) (release_funds env i key w)
  unfolding release_funds release_tx
  release-ReleaseEffect w = elim (Bool-cases (str_eq key "")) [
    | inl empty ↦ rw empty (Ensures-raise _ w)
    | inr named ↦ rw named (
        Ensures-within_tx env _ _ w (
          Ensures-bind _ _
            (Ensures-find_operation env {d = w.db} (record w { locks = [] }) refl key release)
            λ o w₁ (h₁, e). Ensures-release_or_replay o (sym e) w₁ h₁))
  ]
