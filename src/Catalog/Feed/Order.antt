-- ===== src/Catalog/Feed/Order.antt =====
-- The order of the feed: ORDER BY of the query in
-- services/catalog/internal/adapters/pg/listing_repository.go, and its filters.
use gosplash.Prelude.{
  String, List, [], ◌∷◌, Option, none, some, Bool, true, false, ◌≡◌, refl, ◌≢◌, arith, All, eq_iff,
  Bool-cases, inl, inr, ap, ◌∙◌, sym,
}
use gosplash.Catalog.Db.{ListingRow}
use gosplash.Catalog.Feed.{
  FeedEnv, where_rows, comes_first, precedes, insert_row, order_rows, lies_below, is_after,
}

-- No two rows with one id.
abbrev pub Distinct : List ListingRow → Type 0
Distinct [] = Unit
Distinct (r ∷ rs) = All (λ q. r.id ≢ q.id) rs × Distinct rs

-- A strict order on a column: a comparison that neither way holds is of one value.
pub record StrictOrder (lt : String → String → Bool) : Type 0 where
  pub irrefl : (a : String) → lt a a ≡ false
  pub trans : (a b c : String) → lt a b ≡ true → lt b c ≡ true → lt a c ≡ true
  pub total : (a b : String) → lt a b ≡ false → lt b a ≡ false → a ≡ b

module _ (P : ListingRow → Type 0) (p : ListingRow → Bool) where
  pub where_rows-All : (rs : List ListingRow) → All P rs → All P (where_rows p rs)
  unfolding where_rows
  where_rows-All [] h = tt
  where_rows-All (r ∷ rs) (h, hs) = elim (Bool-cases (p r)) [
    | inl yes' ↦ rw yes' (h, where_rows-All rs hs)
    | inr no' ↦ rw no' (where_rows-All rs hs)
  ]

module _ (env : FeedEnv) (times : StrictOrder env.time_lt) (ids : StrictOrder env.uuid_lt) where
  comes_first_trans :
      (s t u : Option String) (i j k : String)
      → comes_first env s i t j ≡ true
      → comes_first env t j u k ≡ true
      → comes_first env s i u k ≡ true
  unfolding comes_first
  comes_first_trans none none none i j k h h' = ids.trans k j i h' h
  comes_first_trans none none (some u) i j k h h' = refl
  comes_first_trans none (some t) none i j k h h' = cc
  comes_first_trans none (some t) (some u) i j k h h' = refl
  comes_first_trans (some s) none u i j k h h' = cc
  comes_first_trans (some s) (some t) none i j k h h' = cc
  comes_first_trans (some s) (some t) (some u) i j k h h' =
      ground (arith, times.trans u t s, ids.trans k j i, eq_iff t s, eq_iff u t, eq_iff u s)

  comes_first_total :
      (s t : Option String) (i j : String)
      → comes_first env s i t j ≡ false
      → i ≢ j
      → comes_first env t j s i ≡ true
  unfolding comes_first
  comes_first_total none none i j h ne = ground (arith, ids.total i j)
  comes_first_total none (some t) i j h ne = cc
  comes_first_total (some s) none i j h ne = refl
  comes_first_total (some s) (some t) i j h ne =
      ground (arith, times.total s t, ids.total i j, eq_iff t s, eq_iff s t)

  comes_first_irrefl : (s : Option String) (i : String) → comes_first env s i s i ≡ false
  unfolding comes_first
  comes_first_irrefl none i = ids.irrefl i
  comes_first_irrefl (some s) i = ground (arith, times.irrefl s, ids.irrefl i)

  pub precedes_trans :
      (a b c : ListingRow)
      → precedes env a b ≡ true
      → precedes env b c ≡ true
      → precedes env a c ≡ true
  unfolding precedes
  precedes_trans a b c h k =
      comes_first_trans a.published_at b.published_at c.published_at _ _ _ h k

  pub precedes_irrefl : (a : ListingRow) → precedes env a a ≡ false
  unfolding precedes
  precedes_irrefl a = comes_first_irrefl a.published_at a.id

  pub precedes_asym : (a b : ListingRow) → precedes env a b ≡ true → precedes env b a ≡ false
  precedes_asym a b h = ground (arith, precedes_trans a b a, precedes_irrefl a)

  pub precedes_total :
      (a b : ListingRow) → precedes env a b ≡ false → a.id ≢ b.id → precedes env b a ≡ true
  unfolding precedes
  precedes_total a b h ne = comes_first_total a.published_at b.published_at a.id b.id h ne

module _ (env : FeedEnv) where
  -- Each row precedes those below it; and no two rows have one id.
  abbrev pub Sorted : List ListingRow → Type 0
  Sorted [] = Unit
  Sorted (r ∷ rs) = All (λ q. precedes env r q ≡ true) rs × Sorted rs

  module _ (P : ListingRow → Type 0) where
    pub insert_row-All :
        (r : ListingRow) (l : List ListingRow) → P r → All P l → All P (insert_row env r l)
    unfolding insert_row
    insert_row-All r [] h hs = (h, tt)
    insert_row-All r (q ∷ qs) h (k, ks) = elim (Bool-cases (precedes env r q)) [
      | inl first ↦ rw first (h, (k, ks))
      | inr after ↦ rw after (k, insert_row-All r qs h ks)
    ]

    pub order_rows-All : (l : List ListingRow) → All P l → All P (order_rows env l)
    unfolding order_rows
    order_rows-All [] h = tt
    order_rows-All (r ∷ rs) (h, hs) = insert_row-All r (order_rows env rs) h (order_rows-All rs hs)

  -- A row that precedes all is inserted in front.
  insert_row-first :
      (r : ListingRow) (l : List ListingRow)
      → All (λ q. precedes env r q ≡ true) l
      → insert_row env r l ≡ r ∷ l
  unfolding insert_row
  insert_row-first r [] h = refl
  insert_row-first r (q ∷ qs) (h, hs) = rw h

  -- A row that a filter drops might as well not have been inserted.
  where_rows-insert_dropped :
      (p : ListingRow → Bool) (r : ListingRow) (l : List ListingRow)
      → p r ≡ false
      → where_rows p (insert_row env r l) ≡ where_rows p l
  unfolding where_rows insert_row
  where_rows-insert_dropped p r [] h = rw h
  where_rows-insert_dropped p r (q ∷ qs) h = ground (arith, where_rows-insert_dropped p r qs h)

  lies_below-eq :
      (t i : String) (s : Option String) (j : String)
      → lies_below env (record { published_at = t; id = i }) s j ≡ comes_first env (some t) i s j
  unfolding lies_below comes_first
  lies_below-eq t i none j = refl
  lies_below-eq t i (some s) j = refl

  -- What `is_after` asks of a row is that the row of the cursor precedes it.
  pub is_after-eq :
      (x : ListingRow) (t : String)
      → x.published_at ≡ some t
      → (q : ListingRow)
      → is_after env (some (record { published_at = t; id = x.id })) q ≡ precedes env x q
  unfolding is_after precedes
  is_after-eq x t e q = rw e (lies_below-eq t x.id q.published_at q.id)

module _ (env : FeedEnv) (times : StrictOrder env.time_lt) (ids : StrictOrder env.uuid_lt) where
  abbrev pub After : ListingRow → List ListingRow → Type 0
  After r = All (λ q. precedes env r q ≡ true)

  After-trans :
      (r q : ListingRow) (l : List ListingRow) → precedes env r q ≡ true → After q l → After r l
  After-trans r q [] h k = tt
  After-trans r q (x ∷ xs) h (k, ks) =
      (precedes_trans env times ids r q x h k, After-trans r q xs h ks)

  insert_row-Sorted :
      (r : ListingRow) (l : List ListingRow)
      → All (λ q. r.id ≢ q.id) l
      → Sorted env l
      → Sorted env (insert_row env r l)
  unfolding insert_row
  insert_row-Sorted r [] d s = (tt, tt)
  insert_row-Sorted r (q ∷ qs) (d, ds) (h, s) = elim (Bool-cases (precedes env r q)) [
    | inl first ↦ rw first ((first, After-trans r q qs first h), (h, s))
    | inr after ↦ rw after (
      insert_row-All env (λ x. precedes env q x ≡ true) r qs
          (precedes_total env times ids r q after d) h,
      insert_row-Sorted r qs ds s,
    )
  ]

  pub order_rows-Sorted : (l : List ListingRow) → Distinct l → Sorted env (order_rows env l)
  unfolding order_rows
  order_rows-Sorted [] d = tt
  order_rows-Sorted (r ∷ rs) (d, ds) =
      insert_row-Sorted r (order_rows env rs) (order_rows-All env (λ q. r.id ≢ q.id) rs d)
        (order_rows-Sorted rs ds)

  module _ (p : ListingRow → Bool) where
    where_rows-insert_kept :
        (r : ListingRow) (l : List ListingRow)
        → p r ≡ true
        → Sorted env l
        → where_rows p (insert_row env r l) ≡ insert_row env r (where_rows p l)
    unfolding where_rows insert_row
    where_rows-insert_kept r [] h s = rw h
    where_rows-insert_kept r (q ∷ qs) h (k, s) = elim (Bool-cases (precedes env r q)) [
      | inl first ↦
          rw (first, insert_row)
            (rw (h, where_rows)
              (sym (
                insert_row-first env r (where_rows p (q ∷ qs)) (
                  where_rows-All (λ x. precedes env r x ≡ true) p (q ∷ qs)
                    (first, After-trans r q qs first k)))))
      | inr after ↦ ground (arith, where_rows-insert_kept r qs h s)
    ]

    -- It is the same to filter and to sort.
    pub where_rows-order_rows :
        (l : List ListingRow)
        → Distinct l
        → order_rows env (where_rows p l) ≡ where_rows p (order_rows env l)
    unfolding where_rows order_rows
    where_rows-order_rows [] d = refl
    where_rows-order_rows (r ∷ rs) (d, ds) = elim (Bool-cases (p r)) [
      | inl kept ↦
          rw (kept, where_rows)
            (ap (insert_row env r) (where_rows-order_rows rs ds)
              ∙ sym (where_rows-insert_kept r (order_rows env rs) kept (order_rows-Sorted rs ds)))
      | inr dropped ↦
          rw (dropped, where_rows)
            (where_rows-order_rows rs ds
              ∙ sym (where_rows-insert_dropped env p r (order_rows env rs) dropped))
    ]
