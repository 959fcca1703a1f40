-- ===== src/Outbox/Relay/Batch.antt =====
-- What one batch of the relay does: the rows that it selects and the records that it sends
-- (pkg/outbox/relay.go).
use gosplash.Prelude.{
  ℕ, zero, suc, String, List, [], ◌∷◌, ◌++◌, Bool, true, false, ◌≡◌, refl, arith, All, length,
  append_assoc, ◌∙◌, sym, length-append, Bool-cases, inl, inr, if◌then◌else◌,
}
use gosplash.Kafka.Record.{Message}
use gosplash.Outbox.Row.{OutboxRow}
use gosplash.Outbox.Relay.{
  Surroundings, Shard, pending, limit, unlocked, insert_by_id, order_by_id, select_batch, record_of,
  publish_row, keep_id, publish_batch,
}
use mathlib.Core.List.{Memᴰ}
use mathlib.Core.List.Memᴰ.{append_left, append_right}

-- A row of a table that waits to be published.
abbrev pub Waiting : List OutboxRow → OutboxRow → Type 0
Waiting rows r = Memᴰ r rows × (r.published ≡ false)

module _ {ℓ} {A : Type ℓ} (P : A → Type ℓ) where
  All-append : (xs ys : List A) → All P xs → All P ys → All P (xs ++ ys)
  All-append [] ys hx hy = hy
  All-append (x ∷ xs) ys (p, hx) hy = (p, All-append xs ys hx hy)

  All-if :
      (b : Bool) (xs ys : List A)
      → (b ≡ true → All P xs)
      → (b ≡ false → All P ys)
      → All P (if b then xs else ys)
  All-if true xs ys hx hy = hx refl
  All-if false xs ys hx hy = hy refl

  All-weaken : (Q : A → Type ℓ) → ((a : A) → P a → Q a) → (xs : List A) → All P xs → All Q xs
  All-weaken Q f [] h = tt
  All-weaken Q f (x ∷ xs) (h, hs) = (f x h, All-weaken Q f xs hs)

pending-Waiting : (rows : List OutboxRow) → All (Waiting rows) (pending rows)
unfolding pending
pending-Waiting [] = tt
pending-Waiting (r ∷ rs) =
    let rest : All (Waiting (r ∷ rs)) (pending rs) =
      All-weaken (Waiting rs) (Waiting (r ∷ rs)) (λ q h. (Memᴰ.tail h.0, h.1)) (pending rs)
        (pending-Waiting rs) in
    All-if (Waiting (r ∷ rs)) r.published (pending rs) (r ∷ pending rs) (λ h. rest)
      (λ h. ((Memᴰ.head refl, h), rest))

module _ (P : OutboxRow → Type 0) where
  limit-All : (n : ℕ) (rs : List OutboxRow) → All P rs → All P (limit n rs)
  unfolding limit
  limit-All zero rs h = tt
  limit-All (suc n) [] h = tt
  limit-All (suc n) (r ∷ rs) (h, hs) = (h, limit-All n rs hs)

  module _ (s : Surroundings) where
    unlocked-All : (n : ℕ) (rs : List OutboxRow) → All P rs → All P (unlocked s n rs)
    unfolding unlocked
    unlocked-All n [] h = tt
    unlocked-All n (r ∷ rs) (h, hs) =
        All-if P (s.locked n r.id) (unlocked s n rs) (r ∷ unlocked s n rs)
          (λ e. unlocked-All n rs hs) (λ e. (h, unlocked-All n rs hs))

    insert_by_id-All :
        (r : OutboxRow) (rs : List OutboxRow) → P r → All P rs → All P (insert_by_id s r rs)
    unfolding insert_by_id
    insert_by_id-All r [] p h = (p, tt)
    insert_by_id-All r (q ∷ qs) p (h, hs) =
        All-if P (s.uuid_le r.id q.id) (r ∷ q ∷ qs) (q ∷ insert_by_id s r qs) (λ e. (p, (h, hs)))
          (λ e. (h, insert_by_id-All r qs p hs))

    order_by_id-All : (rs : List OutboxRow) → All P rs → All P (order_by_id s rs)
    unfolding order_by_id
    order_by_id-All [] h = tt
    order_by_id-All (r ∷ rs) (h, hs) =
        insert_by_id-All r (order_by_id s rs) h (order_by_id-All rs hs)

pub select_batch-Waiting :
    (s : Surroundings) (n : ℕ) (rows : List OutboxRow) → All (Waiting rows) (select_batch s n rows)
unfolding select_batch
select_batch-Waiting s n rows =
    limit-All (Waiting rows) _ _ (
      order_by_id-All (Waiting rows) s _ (unlocked-All (Waiting rows) s n _ (pending-Waiting rows)))

module _ (s : Surroundings) (P : OutboxRow → Type 0) where
  -- A record made from a row of the batch; and a row whose record is among these.
  abbrev pub Made : Message → Type 0
  Made m = (r : OutboxRow) × (n : ℕ) × P r × (m ≡ record_of s n r)

  abbrev pub Backed : List Message → String → Type 0
  Backed news i = (r : OutboxRow) × (n : ℕ) × P r × (r.id ≡ i) × Memᴰ (record_of s n r) news

  -- What publishing a batch has done.
  pub record Published (w : Shard) (p : List String × Shard) : Type 0 where
    pub news : List Message
    pub taken : p.1.taken ≡ news ++ w.taken
    pub rows : p.1.rows ≡ w.rows
    pub made : All Made news
    pub backed : All (Backed news) p.0
    pub as_many : length news ≡ length p.0

  pub publish_batch-Published :
      (rs : List OutboxRow) (w : Shard) → All P rs → Published w (publish_batch s rs w)
  unfolding publish_batch publish_row keep_id
  publish_batch-Published [] w h = record {
    news = [];
    taken = refl;
    rows = refl;
    made = tt;
    backed = tt;
    as_many = refl;
  }
  publish_batch-Published (r ∷ rs) w (h, hs) = elim (Bool-cases (s.accepts w.requests)) [
    | inl yes_it ↦
        let it = record_of s w.requests r in
        let q =
          publish_batch-Published rs (record w { requests = suc w.requests; taken = it ∷ w.taken })
            hs in
        rw (yes_it, publish_batch)
          (record {
            news = q.news ++ (it ∷ []);
            taken = q.taken ∙ sym (append_assoc q.news (it ∷ []) w.taken);
            rows = q.rows;
            made = All-append Made q.news (it ∷ []) q.made ((r, w.requests, h, refl), tt);
            backed = (
              (r, w.requests, h, refl, append_right q.news (Memᴰ.head refl)),
              All-weaken (Backed q.news) (Backed (q.news ++ (it ∷ [])))
                  (λ i b. (b.0, b.1, b.2, b.3, append_left (it ∷ []) b.4)) _ q.backed,
            );
            as_many = omega (arith, length-append q.news (it ∷ []), q.as_many);
          })
    | inr not_it ↦
        let q = publish_batch-Published rs (record w { requests = suc w.requests }) hs in
        rw (not_it, publish_batch)
          (record {
            news = q.news;
            taken = q.taken;
            rows = q.rows;
            made = q.made;
            backed = q.backed;
            as_many = q.as_many;
          })
  ]
