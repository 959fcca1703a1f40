-- ===== src/Catalog/Indexer/Claimed.antt =====
-- The transaction of an event: services/catalog/internal/adapters/pg/tx.go.
use gosplash.Prelude.{
  suc, ◌+◌, ◌≤◌, String, List, ◌∷◌, none, some, true, false, str_eq, eq_iff, ◌≡◌, ◌⊎◌, refl, arith,
  length, ap, ◌∙◌, Bool-cases, inl, inr,
}
use gosplash.Catalog.Db.{
  Db, Catalog, DbEnv, Worked, is_processed, statement, settle_tx, answer_tx, Applied, applied,
  skipped, after_claim, with_claim,
}
use gosplash.Catalog.Indexer.Writes.{Writes}

-- What the transaction of an event leaves: no processed event is forgotten, and the outbox has at
-- most one row more, and that only for an event that is processed now and was not before.
pub record Claimed (event : String) (db db' : Db) : Type 0 where
  pub keeps :
      (j : String) → is_processed j db.processed ≡ true → is_processed j db'.processed ≡ true
  pub rows :
      (length db'.outbox ≤ length db.outbox)
      ⊎ ((length db'.outbox ≤ 1 + length db.outbox)
          × (is_processed event db.processed ≡ false)
          × (is_processed event db'.processed ≡ true))

is_processed-tail :
    (j i : String) (js : List String) → is_processed j js ≡ true → is_processed j (i ∷ js) ≡ true
unfolding is_processed
is_processed-tail j i js h = ground (arith, h)

is_processed-head : (i : String) (js : List String) → is_processed i (i ∷ js) ≡ true
unfolding is_processed
is_processed-head i js = ground (arith, eq_iff i i)

module _ (env : DbEnv) (event : String) where
  -- A transaction that leaves the tables as they were.
  pub idle-Claimed : (db db' : Db) → db' ≡ db → Claimed event db db'
  idle-Claimed db db' same = record { keeps = λ j h. rw same h; rows = inl (rw same (omega arith)) }

  answer_tx-eq : (a : Applied) (r : Worked) → (answer_tx env a r).1 ≡ r.1
  unfolding answer_tx
  answer_tx-eq a (none, w) = refl
  answer_tx-eq a (some e, w) = refl

  settle_tx-Claimed :
      (db : Db) (w₁ : Catalog) (r : Worked)
      → is_processed event db.processed ≡ false
      → w₁.db ≡ record db { processed = event ∷ db.processed }
      → Writes 1 w₁ r
      → Claimed event db (settle_tx env db r).1.db
  unfolding settle_tx statement
  settle_tx-Claimed db w₁ (some e, w₂) new same h = idle-Claimed db db refl
  settle_tx-Claimed db w₁ (none, w₂) new same h = elim (Bool-cases (env.sql_ok w₂.statements)) [
    | inr refused ↦ rw (refused, settle_tx) (idle-Claimed db db refl)
    | inl ok ↦
        let e₀ : w₂.db.processed ≡ event ∷ db.processed =
          h.processed ∙ ap (λ d. d.processed) same in
        let e₁ : w₁.db.outbox ≡ db.outbox = ap (λ d. d.outbox) same in
        rw (ok, settle_tx)
          (record {
            keeps = λ j g. rw e₀ (is_processed-tail j event db.processed g);
            rows = inr (
              omega (arith, h.rows, ap length e₁),
              new,
              rw e₀ (is_processed-head event db.processed),
            );
          })
  ]

  settle_tx-idle : (w : Catalog) → (settle_tx env w.db (none, w)).1.db ≡ w.db
  unfolding settle_tx statement
  settle_tx-idle w = elim (Bool-cases (env.sql_ok w.statements)) [
    | inr refused ↦ rw (refused, settle_tx) refl
    | inl ok ↦ rw (ok, settle_tx) refl
  ]

  after_claim-Claimed :
      (fn : Catalog → Worked) (w : Catalog)
      → ((w' : Catalog) → Writes 1 w' (fn w'))
      → Claimed event w.db (after_claim env event fn (true, w)).1.db
  unfolding after_claim
  after_claim-Claimed fn w writes = elim (Bool-cases (is_processed event w.db.processed)) [
    | inl old ↦
        rw (old, after_claim)
          (rw (answer_tx-eq skipped (settle_tx env w.db (none, w)))
            (idle-Claimed w.db _ (settle_tx-idle w)))
    | inr new ↦
        let w₁ : Catalog = record w { db = record w.db { processed = event ∷ w.db.processed } } in
        rw (new, after_claim)
          (rw (answer_tx-eq applied (settle_tx env w.db (fn w₁)))
            (settle_tx-Claimed w.db w₁ (fn w₁) new refl (writes w₁)))
  ]

  pub with_claim-Claimed :
      (fn : Catalog → Worked) (w : Catalog)
      → ((w' : Catalog) → Writes 1 w' (fn w'))
      → Claimed event w.db (with_claim env event fn w).1.db
  unfolding with_claim statement
  with_claim-Claimed fn w writes = elim (Bool-cases (str_eq event "")) [
    | inl unnamed ↦ rw (unnamed, with_claim) (idle-Claimed w.db w.db refl)
    | inr named ↦
        rw (named, with_claim)
          (elim (Bool-cases (env.sql_ok w.statements)) [
            | inr refused ↦ rw (refused, after_claim) (idle-Claimed w.db w.db refl)
            | inl ok ↦
                rw (ok, after_claim)
                  (after_claim-Claimed fn (record w { statements = suc w.statements }) writes)
          ])
  ]
