-- ===== src/Order/Idempotency/Once.antt =====
-- A key is free once: services/order/internal/adapters/idempotency/store.go.
use gosplash.Prelude.{
  suc, String, List, [], ◌∷◌, Option, none, some, Bool, true, false, str_eq, eq_iff, ◌≡◌, ◌≢◌, refl,
  arith, Option-cases, inl, inr, ◌||◌, ℕ, ◌⊎◌, ◌≤◌, if◌then◌else◌, ◌+◌, Bool-cases, ◌∙◌, ◌&&◌,
  subst,
}
use gosplash.Order.Placement.{Begun, free, in_progress, finished}
use gosplash.Redisx.Idempotency.{
  Reply, answered, unanswered, not_reached, Claim, claim_free, claim_in_progress, claim_done,
  begin_claim, answer_of, effect_of,
}
use gosplash.Order.Idempotency.{
  KeyRow, StoreEnv, Store, find_key, set_done, insert_key, execute, redis_key, warm, after_first,
  after_insert, begin_pg, after_claim, begin_key, complete_key, after_update,
}

-- Whether a key has a row.
unfoldable pub has_row : String → List KeyRow → Bool
has_row k [] = false
has_row k (r ∷ rs) = str_eq r.key k || has_row k rs

find_key-has_row :
    (k : String) (rows : List KeyRow) → find_key k rows ≡ none → has_row k rows ≡ false
unfolding has_row find_key
find_key-has_row k [] h = refl
find_key-has_row k (r ∷ rs) h = ground (arith, h, find_key-has_row k rs)

set_done-has_row :
    (k j response : String) (rows : List KeyRow)
    → has_row k (set_done j response rows) ≡ has_row k rows
unfolding has_row set_done
set_done-has_row k j response [] = refl
set_done-has_row k j response (r ∷ rs) = ground (arith, set_done-has_row k j response rs)

-- What beginning a key has done to the table.
pub record Claims (k : String) (rows : List KeyRow) (result : Option Begun × Store) : Type 0 where
  pub keeps : (j : String) → has_row j rows ≡ true → has_row j result.1.rows ≡ true
  pub new : result.0 ≡ some free → (has_row k rows ≡ false) × (has_row k result.1.rows ≡ true)

module _ (env : StoreEnv) (k : String) where
  -- Not free, and the table as it was.
  same-Claims :
      (rows : List KeyRow) (b : Option Begun) (w : Store)
      → b ≢ some free
      → w.rows ≡ rows
      → Claims k rows (b, w)
  same-Claims rows b w never same = record {
    keeps = λ j h. rw same h;
    new = λ h. elim (never h) [ ];
  }

  after_first-Claims :
      (rows : List KeyRow) (o : Option (Option KeyRow)) (w : Store)
      → w.rows ≡ rows
      → Claims k rows (after_first env k (o, w))
  unfolding after_first warm
  after_first-Claims rows none w same = same-Claims rows none w (λ h. cc) same
  after_first-Claims rows (some none) w same = same-Claims rows none w (λ h. cc) same
  after_first-Claims rows (some (some r)) w same = by_response r.response
    where
      by_response :
          (o : Option String)
          → Claims k rows (elim o as (λ x. Option Begun × Store) [
            | none ↦ (some in_progress, w)
            | some response ↦ (some (finished response), warm env k response w)
          ])
      by_response none = same-Claims rows (some in_progress) w (λ h. cc) same
      by_response (some response) =
          same-Claims rows (some (finished response)) (warm env k response w) (λ h. cc) same

  -- A statement that reads.
  read_rows : {A : Type 0} (x : A) (w : Store) → (execute env (x, w.rows) w).1.rows ≡ w.rows
  unfolding execute effect_of
  read_rows x w = by_fate (env.sql w.statements)
    where
      by_fate : (fate : Reply) → effect_of env.redis fate w.rows w.rows ≡ w.rows
      by_fate answered = refl
      by_fate unanswered = refl
      by_fate not_reached = refl

  begin_pg-Claims : (w : Store) → Claims k w.rows (begin_pg env k w)
  unfolding begin_pg after_insert execute insert_key answer_of effect_of has_row
  begin_pg-Claims w = elim (Option-cases (find_key k w.rows)) [
    | inl fresh ↦ rw (fresh, begin_pg) (inserted fresh (env.sql w.statements))
    | inr (r, taken) ↦ rw (taken, begin_pg) (kept r (env.sql w.statements))
  ]
    where
      inserted :
          find_key k w.rows ≡ none
          → (fate : Reply)
          → let rows' : List KeyRow = record { key = k; response = none } ∷ w.rows in
            Claims k w.rows (
              after_insert env k (
                answer_of env.redis fate true,
                record w {
                  rows = effect_of env.redis fate w.rows rows';
                  statements = suc w.statements;
                },
              ))
      inserted fresh answered = record {
        keeps = λ j h. ground (arith, h);
        new = λ h. (find_key-has_row k w.rows fresh, ground (arith, eq_iff k k));
      }
      inserted fresh unanswered = record { keeps = λ j h. ground (arith, h); new = λ h. cc }
      inserted fresh not_reached = record { keeps = λ j h. h; new = λ h. cc }

      kept :
          (r : KeyRow) (fate : Reply)
          → Claims k w.rows (
              after_insert env k (
                answer_of env.redis fate false,
                record w {
                  rows = effect_of env.redis fate w.rows w.rows;
                  statements = suc w.statements;
                },
              ))
      kept r answered =
          let w' : Store = record w { statements = suc w.statements } in
          after_first-Claims w.rows (execute env (find_key k w.rows, w.rows) w').0
            (execute env (find_key k w.rows, w.rows) w').1 (read_rows (find_key k w.rows) w')
      kept r unanswered = same-Claims w.rows none _ (λ h. cc) refl
      kept r not_reached = same-Claims w.rows none _ (λ h. cc) refl

  after_claim-Claims : (o : Option Claim) (w : Store) → Claims k w.rows (after_claim env k o w)
  unfolding after_claim
  after_claim-Claims none w = begin_pg-Claims w
  after_claim-Claims (some claim_free) w = begin_pg-Claims w
  after_claim-Claims (some claim_in_progress) w = same-Claims w.rows _ w (λ h. cc) refl
  after_claim-Claims (some (claim_done response)) w = same-Claims w.rows _ w (λ h. cc) refl

  pub begin_key-Claims : (w : Store) → Claims k w.rows (begin_key env k w)
  unfolding begin_key
  begin_key-Claims w =
      let c = begin_claim env.redis (redis_key env k) w.redis in
      after_claim-Claims c.0 (record w { redis = c.1 })

pub complete_key-has_row :
    (env : StoreEnv) (k j response : String) (w : Store)
    → has_row j w.rows ≡ true
    → has_row j (complete_key env k response w).1.rows ≡ true
unfolding complete_key after_update execute warm answer_of effect_of
complete_key-has_row env k j response w h = by_fate (env.sql w.statements)
  where
    by_fate :
        (fate : Reply)
        → has_row j
            (after_update env k response (
              answer_of env.redis fate true,
              record w {
                rows = effect_of env.redis fate w.rows (set_done k response w.rows);
                statements = suc w.statements;
              },
            )).1.rows
          ≡ true
    by_fate answered = set_done-has_row j k response w.rows ∙ h
    by_fate unanswered = set_done-has_row j k response w.rows ∙ h
    by_fate not_reached = h

-- What is asked of the store, what it answers, and a run of requests.
pub data Op : Type 0 where
  begin_op : String → Op
  complete_op : String → String → Op

pub data Reported : Type 0 where
  began : String → Option Begun → Reported
  completed : String → Bool → Reported

unfoldable pub run_op : StoreEnv → Op → Store → Reported × Store
run_op env (begin_op k) w = (began k (begin_key env k w).0, (begin_key env k w).1)
run_op env (complete_op k response) w =
    (completed k (complete_key env k response w).0, (complete_key env k response w).1)

unfoldable pub run_ops : StoreEnv → List Op → Store → List Reported × Store
unfolding run_op
run_ops env [] w = ([], w)
run_ops env (op ∷ ops) w =
    let p = run_op env op w in let q = run_ops env ops p.1 in (p.0 ∷ q.0, q.1)

-- How often a key was reported free.
unfoldable pub is_free : Option Begun → Bool
is_free (some free) = true
is_free (some in_progress) = false
is_free (some (finished response)) = false
is_free none = false

unfoldable pub frees : String → Reported → ℕ
unfolding is_free
frees k (began j b) = if str_eq j k && is_free b then 1 else 0
frees k (completed j ok) = 0

unfoldable pub count_free : String → List Reported → ℕ
unfolding frees
count_free k [] = 0
count_free k (a ∷ rest) = frees k a + count_free k rest

is_free-eq : (b : Option Begun) → is_free b ≡ true → b ≡ some free
unfolding is_free
is_free-eq (some free) h = refl
is_free-eq (some in_progress) h = cc
is_free-eq (some (finished response)) h = cc
is_free-eq none h = cc

-- A request keeps the rows, and reports a key free only if it had no row and has one afterwards.
run_op-counts :
    (env : StoreEnv) (k : String) (op : Op) (w : Store)
    → let p = run_op env op w in
      (has_row k w.rows ≡ true → (frees k p.0 ≡ 0) × (has_row k p.1.rows ≡ true))
      × ((frees k p.0 ≡ 0) ⊎ ((frees k p.0 ≡ 1) × (has_row k p.1.rows ≡ true)))
unfolding run_op frees
run_op-counts env k (complete_op j response) w =
    (λ h. (refl, complete_key-has_row env j k response w h), inl refl)
run_op-counts env k (begin_op j) w =
    let b = (begin_key env j w).0 in
    let c = begin_key-Claims env j w in
    elim (Bool-cases (str_eq j k)) [
      | inr other ↦ rw (other, frees) (λ h. (refl, c.keeps k h), inl refl)
      | inl same ↦ elim (Bool-cases (is_free b)) [
        | inr taken ↦ rw (same, frees) (rw (taken, frees) (λ h. (refl, c.keeps k h), inl refl))
        | inl fresh ↦
            let e : j ≡ k = (eq_iff j k).0 same in
            let d = c.new (is_free-eq b fresh) in
            let d₀ : has_row k w.rows ≡ false = subst (λ i. has_row i w.rows ≡ false) e d.0 in
            let d₁ : has_row k (begin_key env j w).1.rows ≡ true =
              subst (λ i. has_row i (begin_key env j w).1.rows ≡ true) e d.1 in
            rw (same, frees) (rw (fresh, frees) (λ h. cc, inr (refl, d₁)))
      ]
    ]

count_taken :
    (env : StoreEnv) (k : String) (ops : List Op) (w : Store)
    → has_row k w.rows ≡ true
    → count_free k (run_ops env ops w).0 ≡ 0
unfolding run_ops count_free
count_taken env k [] w h = refl
count_taken env k (op ∷ ops) w h =
    let s = (run_op-counts env k op w).0 h in
    omega (arith, s.0, count_taken env k ops (run_op env op w).1 s.1)

-- However statements and commands fail, answers are lost and Redis loses keys: in a run of `Begin`
-- and `Complete` on the store, from any state, each key is reported free at most once.
pub free_at_most_once :
    (env : StoreEnv) (k : String) (ops : List Op) (w : Store)
    → count_free k (run_ops env ops w).0 ≤ 1
unfolding run_ops count_free
free_at_most_once env k [] w = omega arith
free_at_most_once env k (op ∷ ops) w = elim (run_op-counts env k op w).1 [
  | inl zero_now ↦ omega (arith, zero_now, free_at_most_once env k ops (run_op env op w).1)
  | inr (one_now, has) ↦ omega (arith, one_now, count_taken env k ops (run_op env op w).1 has)
]
