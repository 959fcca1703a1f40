-- ===== src/Outbox/Relay/Drain.antt =====
-- A poll in which nothing fails: pkg/outbox/relay.go.
use gosplash.Outbox.Relay.Poll.{mark-nil, report_pending_keeps}
use gosplash.Prelude.{
  ℕ, zero, suc, ◌≤◌, String, List, [], ◌∷◌, none, true, false, ◌||◌, str_eq, ◌≡◌, refl, arith,
  length, ap, ◌∙◌, sym, Bool-cases, inl, inr, map, eq_iff,
}
use gosplash.Kafka.Record.{Message}
use gosplash.Outbox.Row.{OutboxRow}
use gosplash.Outbox.Relay.{
  Surroundings, Shard, pending, is_in, mark, limit, unlocked, insert_by_id, order_by_id,
  select_batch, record_of, publish_row, keep_id, publish_batch, report_pending, commit_rows,
  update_rows, after_publish, publish_selected, after_select, after_begin, poll_shard, statement,
  batch_size_or_default,
}

-- The records of rows that are sent one after another, from a number of records on.
unfoldable pub records_of : Surroundings → ℕ → List OutboxRow → List Message
records_of s n [] = []
records_of s n (r ∷ rs) = record_of s n r ∷ records_of s (suc n) rs

-- A list put onto another, in its order, the last one in front.
unfoldable pub onto : {A : Type 0} → List A → List A → List A
onto [] ys = ys
onto (x ∷ xs) ys = onto xs (x ∷ ys)

abbrev ids_of : List OutboxRow → List String
ids_of rs = map (λ r. r.id) rs

limit-eq : (n : ℕ) (rs : List OutboxRow) → length rs ≤ n → limit n rs ≡ rs
unfolding limit
limit-eq zero [] h = refl
limit-eq zero (r ∷ rs) h = ground arith
limit-eq (suc n) [] h = refl
limit-eq (suc n) (r ∷ rs) h = ap (λ t. r ∷ t) (limit-eq n rs (omega (arith, h)))

module _ (s : Surroundings) where
  insert_by_id-length :
      (r : OutboxRow) (rs : List OutboxRow) → length (insert_by_id s r rs) ≡ suc (length rs)
  unfolding insert_by_id
  insert_by_id-length r [] = refl
  insert_by_id-length r (q ∷ qs) = ground (arith, insert_by_id-length r qs)

  order_by_id-length : (rs : List OutboxRow) → length (order_by_id s rs) ≡ length rs
  unfolding order_by_id
  order_by_id-length [] = refl
  order_by_id-length (r ∷ rs) =
      insert_by_id-length r (order_by_id s rs) ∙ ap suc (order_by_id-length rs)

  insert_by_id-is_in :
      (i : String) (r : OutboxRow) (rs : List OutboxRow)
      → is_in i (ids_of (insert_by_id s r rs)) ≡ (str_eq i r.id || is_in i (ids_of rs))
  unfolding insert_by_id is_in
  insert_by_id-is_in i r [] = refl
  insert_by_id-is_in i r (q ∷ qs) = ground (arith, insert_by_id-is_in i r qs)

  order_by_id-is_in :
      (i : String) (rs : List OutboxRow) → is_in i (ids_of (order_by_id s rs)) ≡ is_in i (ids_of rs)
  unfolding order_by_id is_in
  order_by_id-is_in i [] = refl
  order_by_id-is_in i (r ∷ rs) =
      insert_by_id-is_in i r (order_by_id s rs)
      ∙ ap (λ b. str_eq i r.id || b) (order_by_id-is_in i rs)

  unlocked-eq :
      (n : ℕ) (rs : List OutboxRow) → ((i : String) → s.locked n i ≡ false) → unlocked s n rs ≡ rs
  unfolding unlocked
  unlocked-eq n [] free = refl
  unlocked-eq n (r ∷ rs) free = rw (free r.id, unlocked) (ap (λ t. r ∷ t) (unlocked-eq n rs free))

  publish_batch-eq :
      (rs : List OutboxRow) (w : Shard)
      → ((n : ℕ) → w.requests ≤ n → s.accepts n ≡ true)
      → (publish_batch s rs w).0 ≡ ids_of rs
        × ((publish_batch s rs w).1.taken ≡ onto (records_of s w.requests rs) w.taken)
        × ((publish_batch s rs w).1.rows ≡ w.rows)
  unfolding publish_batch publish_row keep_id records_of onto
  publish_batch-eq [] w all = (refl, refl, refl)
  publish_batch-eq (r ∷ rs) w all =
      let q =
        publish_batch-eq rs
          (record w { requests = suc w.requests; taken = record_of s w.requests r ∷ w.taken })
          (λ n h. all n (omega (arith, h))) in
      rw (all w.requests (omega arith), publish_batch) (ap (λ t. r.id ∷ t) q.0, q.1, q.2)

-- Nothing is pending after all pending rows were marked.
is_in-weaken : (i j : String) (js : List String) → is_in i js ≡ true → is_in i (j ∷ js) ≡ true
unfolding is_in
is_in-weaken i j js h = ground (arith, h)

is_in_head : (i : String) (js : List String) → is_in i (i ∷ js) ≡ true
unfolding is_in
is_in_head i js = ground (arith, eq_iff i i)

pending-mark :
    (ids : List String) (rows : List OutboxRow)
    → ((i : String) → is_in i (ids_of (pending rows)) ≡ true → is_in i ids ≡ true)
    → pending (mark ids rows) ≡ []
unfolding pending mark is_in
pending-mark ids [] all = refl
pending-mark ids (r ∷ rs) all = elim (Bool-cases r.published) [
  | inl done ↦
      let rest = pending-mark ids rs (λ i h. all i (rw (done, pending) h)) in
      elim (Bool-cases (is_in r.id ids)) [
        | inl named ↦ rw (named, mark) rest
        | inr other ↦ rw (other, mark) (rw (done, pending) rest)
      ]
  | inr waits ↦
      let rest =
        pending-mark ids rs
          (λ i h. all i (rw (waits, pending) (is_in-weaken i r.id (ids_of (pending rs)) h))) in
      let named = all r.id (rw (waits, pending) (is_in_head r.id (ids_of (pending rs)))) in
      rw (named, mark) rest
]

module _ (s : Surroundings) (sql : (n : ℕ) → s.sql_ok n ≡ true) where
  pub after_publish_all :
      (p : List String × Shard) (i : String) (ids : List String)
      → p.0 ≡ i ∷ ids
      → ((after_publish s p).0 ≡ none)
        × ((after_publish s p).1.rows ≡ mark p.0 p.1.rows)
        × ((after_publish s p).1.taken ≡ p.1.taken)
        × ((after_publish s p).1.requests ≡ p.1.requests)
  unfolding after_publish update_rows commit_rows statement
  after_publish_all ([], w) i ids h = cc
  after_publish_all ((j ∷ js), w) i ids h =
      rw (sql w.statements, after_publish)
        (rw (sql (suc w.statements), commit_rows) (refl, refl, refl, refl))

  publish_selected_all :
      (rs : List OutboxRow) (w : Shard)
      → ((n : ℕ) → w.requests ≤ n → s.accepts n ≡ true)
      → ((publish_selected s rs w).0 ≡ none)
        × ((publish_selected s rs w).1.rows ≡ mark (ids_of rs) w.rows)
        × ((publish_selected s rs w).1.taken ≡ onto (records_of s w.requests rs) w.taken)
  unfolding publish_selected onto records_of
  publish_selected_all [] w all = (refl, sym (mark-nil w.rows), refl)
  publish_selected_all (r ∷ rs) w all =
      let p = publish_batch s (r ∷ rs) w in
      let q = publish_batch-eq s (r ∷ rs) w all in
      let a = after_publish_all p r.id (ids_of rs) q.0 in
      (a.0, a.1 ∙ ap (λ t. mark t p.1.rows) q.0 ∙ ap (mark (r.id ∷ ids_of rs)) q.2, a.2 ∙ q.1)

  pub report_pending_requests : (w : Shard) → (report_pending s w).requests ≡ w.requests
  unfolding report_pending statement
  report_pending_requests w = rw (sql w.statements, report_pending) refl

  after_begin_all :
      (w : Shard)
      → ((n : ℕ) → w.requests ≤ n → s.accepts n ≡ true)
      → let batch = select_batch s (suc w.statements) w.rows in
        ((after_begin s (statement s w)).0 ≡ none)
        × ((after_begin s (statement s w)).1.rows ≡ mark (ids_of batch) w.rows)
        × ((after_begin s (statement s w)).1.taken ≡ onto (records_of s w.requests batch) w.taken)
  unfolding after_begin after_select statement
  after_begin_all w all =
      let w₂ : Shard = record w { statements = suc (suc w.statements) } in
      rw (sql w.statements, after_begin)
        (rw (sql (suc w.statements), after_select)
          (publish_selected_all (select_batch s (suc w.statements) w.rows) w₂ all))

  pub select_all :
      (n : ℕ) (rows : List OutboxRow)
      → ((n : ℕ) (i : String) → s.locked n i ≡ false)
      → length (pending rows) ≤ batch_size_or_default s.batch_size
      → select_batch s n rows ≡ order_by_id s (pending rows)
  unfolding select_batch
  select_all n rows free room =
      rw (unlocked-eq s n (pending rows) (free n))
        (limit-eq _ _ (omega (arith, room, order_by_id-length s (pending rows))))

-- If no statement fails, the broker takes every record from now on, no other relay holds a row, and what is
-- pending fits into one batch, then a poll succeeds, nothing is pending after it, and the broker
-- has taken the records of the pending rows one after another in the order of their ids.
pub poll_shard-drains :
    (s : Surroundings) (w : Shard)
    → ((n : ℕ) → s.sql_ok n ≡ true)
    → ((n : ℕ) → w.requests ≤ n → s.accepts n ≡ true)
    → ((n : ℕ) (i : String) → s.locked n i ≡ false)
    → length (pending w.rows) ≤ batch_size_or_default s.batch_size
    → ((poll_shard s w).0 ≡ none)
      × (pending (poll_shard s w).1.rows ≡ [])
      × ((poll_shard s w).1.taken
          ≡ onto (records_of s w.requests (order_by_id s (pending w.rows))) w.taken)
unfolding poll_shard
poll_shard-drains s w sql all free room =
    let k = report_pending_keeps s w in
    let w₁ = report_pending s w in
    let a =
      after_begin_all s sql w₁ (λ n h. all n (omega (arith, h, report_pending_requests s sql w))) in
    let batch : select_batch s (suc w₁.statements) w₁.rows ≡ order_by_id s (pending w.rows) =
      rw k.0 (select_all s sql (suc w₁.statements) w.rows free room) in
    (
      a.0,
      rw (a.1, batch, k.0)
          (pending-mark _ w.rows (λ i h. order_by_id-is_in s i (pending w.rows) ∙ h)),
      rw (a.2, batch, k.1, report_pending_requests s sql w) refl,
    )
