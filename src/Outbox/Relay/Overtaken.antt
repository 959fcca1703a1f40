-- ===== src/Outbox/Relay/Overtaken.antt =====
-- The order of two events of one aggregate: pkg/outbox/relay.go.
use gosplash.Prelude.{
  ℕ, suc, ◌≤◌, String, [], ◌∷◌, true, false, str_eq, eq_iff, ◌≡◌, refl, arith, length, ap, ◌∙◌,
}
use gosplash.Outbox.Row.{OutboxRow}
use gosplash.Outbox.Relay.{
  Surroundings, Shard, pending, mark, is_in, insert_by_id, order_by_id, select_batch, record_of,
  publish_row, keep_id, publish_batch, report_pending, publish_selected, after_select, after_begin,
  poll_shard, statement, batch_size_or_default,
}
use gosplash.Outbox.Relay.Drain.{
  after_publish_all, select_all, report_pending_requests, poll_shard-drains, records_of, onto,
}
use gosplash.Outbox.Relay.Poll.{report_pending_keeps}

module _ (s : Surroundings) (a b : OutboxRow) (w : Shard) (sql : (n : ℕ) → s.sql_ok n ≡ true)
    (free : (n : ℕ) (i : String) → s.locked n i ≡ false) (waits_a : a.published ≡ false)
    (waits_b : b.published ≡ false) (differ : str_eq a.id b.id ≡ false)
    (first : s.uuid_le a.id b.id ≡ true) (room : 2 ≤ batch_size_or_default s.batch_size)
    (rows : w.rows ≡ a ∷ b ∷ []) (refused : s.accepts w.requests ≡ false)
    (later : (n : ℕ) → suc w.requests ≤ n → s.accepts n ≡ true) where
  pending-eq : pending (a ∷ b ∷ []) ≡ a ∷ b ∷ []
  unfolding pending
  pending-eq = rw (waits_a, pending) (rw (waits_b, pending) refl)

  order-eq : order_by_id s (a ∷ b ∷ []) ≡ a ∷ b ∷ []
  unfolding order_by_id insert_by_id
  order-eq = rw (first, order_by_id) refl

  batch-eq : (n : ℕ) → select_batch s n (a ∷ b ∷ []) ≡ a ∷ b ∷ []
  batch-eq n =
      select_all s sql n (a ∷ b ∷ []) free (rw pending-eq room)
      ∙ ap (order_by_id s) pending-eq
      ∙ order-eq

  -- The batch with the first record refused.
  published-eq :
      (w' : Shard)
      → w'.requests ≡ w.requests
      → let p = publish_batch s (a ∷ b ∷ []) w' in
        (p.0 ≡ b.id ∷ [])
        × (p.1.taken ≡ record_of s (suc w.requests) b ∷ w'.taken)
        × (p.1.rows ≡ w'.rows)
        × (p.1.requests ≡ suc (suc w.requests))
  unfolding publish_batch publish_row keep_id
  published-eq w' same = rw same (
      rw (refused, publish_batch)
        (rw (later (suc w.requests) (omega arith), publish_batch) (refl, refl, refl, refl)))

  marked-eq : mark (b.id ∷ []) (a ∷ b ∷ []) ≡ a ∷ record b { published = true } ∷ []
  unfolding mark is_in
  marked-eq = rw (differ, mark) (rw ((eq_iff b.id b.id).1 refl, mark) refl)

  -- The first poll.
  after_begin-eq :
      (w' : Shard)
      → w'.requests ≡ w.requests
      → w'.rows ≡ w.rows
      → w'.taken ≡ w.taken
      → let q = (after_begin s (statement s w')).1 in
        (q.rows ≡ a ∷ record b { published = true } ∷ [])
        × (q.taken ≡ record_of s (suc w.requests) b ∷ w.taken)
        × (q.requests ≡ suc (suc w.requests))
  unfolding after_begin after_select publish_selected statement
  after_begin-eq w' same₀ same₁ same₂ =
      let w₂ : Shard = record w' { statements = suc (suc w'.statements) } in
      let p = publish_batch s (a ∷ b ∷ []) w₂ in
      let e = published-eq w₂ same₀ in
      let d = after_publish_all s sql p b.id [] e.0 in
      let batch : select_batch s (suc w'.statements) w'.rows ≡ a ∷ b ∷ [] =
        rw (same₁, rows) (batch-eq (suc w'.statements)) in
      rw (sql w'.statements, after_begin)
        (rw (sql (suc w'.statements), after_select)
          (rw (batch, publish_selected)
            (
              d.1
                  ∙ ap (λ t. mark t p.1.rows) e.0
                  ∙ ap (mark (b.id ∷ [])) (e.2 ∙ same₁ ∙ rows)
                  ∙ marked-eq,
              d.2 ∙ e.1 ∙ ap (λ t. record_of s (suc w.requests) b ∷ t) same₂,
              d.3 ∙ e.3,
            )))

  left-eq : pending (a ∷ record b { published = true } ∷ []) ≡ a ∷ []
  unfolding pending
  left-eq = rw (waits_a, pending) refl

  -- A poll after the first.
  second_poll :
      (w' : Shard)
      → w'.rows ≡ a ∷ record b { published = true } ∷ []
      → w'.taken ≡ record_of s (suc w.requests) b ∷ w.taken
      → w'.requests ≡ suc (suc w.requests)
      → (poll_shard s w').1.taken
        ≡ record_of s (suc (suc w.requests)) a ∷ record_of s (suc w.requests) b ∷ w.taken
  unfolding onto records_of order_by_id insert_by_id
  second_poll w' e₀ e₁ e₂ =
      let left : pending w'.rows ≡ a ∷ [] = rw e₀ left-eq in
      let d =
        poll_shard-drains s w' sql (λ n h. later n (omega (arith, h, e₂))) free
          (omega (arith, room, ap length left)) in
      rw (d.2, left, e₁, e₂) refl

  -- Two rows wait, and no statement fails and no record but that of the first row, which the broker
  -- refuses once: then after two polls the broker has the record of the second row before that of
  -- the first, also where the two have one key.
  pub second_first :
      (poll_shard s (poll_shard s w).1).1.taken
      ≡ record_of s (suc (suc w.requests)) a ∷ record_of s (suc w.requests) b ∷ w.taken
  unfolding poll_shard
  second_first =
      let k = report_pending_keeps s w in
      let f = after_begin-eq (report_pending s w) (report_pending_requests s sql w) k.0 k.1 in
      second_poll (poll_shard s w).1 f.0 f.1 f.2
