-- ===== src/Catalog/Licenses/Once.antt =====
-- One license for one order: services/catalog/internal/adapters/pg/license_repository.go.
use gosplash.Prelude.{
  ℕ, String, List, Option, none, some, eq_iff, ◌≡◌, refl, ap, ◌∙◌, sym, Bool-cases, inl, inr, subst,
  All, ◌∷◌, suc, [], zero,
}
use gosplash.Prelude.Int.{ℤ}
use gosplash.Catalog.Licenses.{
  License, Atomic, find_license, insert_unless, act_all, LicenseEnv, Licenses, arrive, read_license,
  winner, after_insert, insert_new, after_select, grant, write_rows, as_of, act,
}
use gosplash.Catalog.Licenses.Holds.{Holds, insert-Holds, act-Holds}

-- A license that is there.
there : (o : String) (l : License) (ls : List License) → find_license o ls ≡ some l → Holds o l ls
there o l ls h = record {
  held = l;
  found = h;
  same_id = refl;
  same_listing = refl;
  same_buyer = refl;
}

module _ (o : String) where
  -- Whatever license of the order an earlier table had, the table still has, but for its status.
  unfoldable pub Grown : Licenses → Type 0
  Grown w = All (λ old. (x : License) → find_license o old ≡ some x → Holds o x w.rows) w.past

  -- One state follows another: licenses stay, and earlier tables are still no more than the table.
  abbrev After : Licenses → Licenses → Type 0
  After w w' = (Grown w → Grown w') × ((l : License) → Holds o l w.rows → Holds o l w'.rows)

  After-trans : (u v w : Licenses) → After u v → After v w → After u w
  After-trans u v w (f, g) (f', g') = (λ h. f' (f h), λ l h. g' l (g l h))

  All-weaken :
      (P Q : List License → Type 0)
      → ((x : List License) → P x → Q x)
      → (xs : List (List License)) → All P xs
      → All Q xs
  All-weaken P Q f [] h = tt
  All-weaken P Q f (x ∷ xs) (h, hs) = (f x h, All-weaken P Q f xs hs)

  write-After :
      (ls : List License) (w : Licenses)
      → ((l : License) → Holds o l w.rows → Holds o l ls)
      → After w (write_rows ls w)
  unfolding write_rows Grown
  write-After ls w keeps = (
    λ grown. (
      λ x h. keeps x (there o x w.rows h),
      All-weaken (λ old. (x : License) → find_license o old ≡ some x → Holds o x w.rows)
          (λ old. (x : License) → find_license o old ≡ some x → Holds o x ls)
          (λ old f x h. keeps x (f x h)) w.past grown,
    ),
    keeps,
  )

  act_all-After : (acts : List Atomic) (w : Licenses) → After w (act_all acts w)
  unfolding act_all
  act_all-After [] w = (λ h. h, λ l h. h)
  act_all-After (a ∷ rest) w =
      let w' = write_rows (act a w.rows) w in
      After-trans w w' (act_all rest w')
        (write-After (act a w.rows) w (λ l. act-Holds o l a w.rows)) (act_all-After rest w')

  -- A license found in an earlier table is in the table.
  as_of-Holds :
      (n : ℕ) (now : List License) (past : List (List License)) (x : License) (rows : List License)
      → ((y : License) → find_license o now ≡ some y → Holds o y rows)
      → All (λ old. (y : License) → find_license o old ≡ some y → Holds o y rows) past
      → find_license o (as_of n now past) ≡ some x
      → Holds o x rows
  unfolding as_of
  as_of-Holds zero now past x rows f grown h = f x h
  as_of-Holds (suc n) now [] x rows f grown h = f x h
  as_of-Holds (suc n) now (before ∷ past) x rows f (g, gs) h =
      as_of-Holds n before past x rows g gs h

  -- What a call answers is the license of the order in the table, but for its status.
  abbrev Granted : Option License × Licenses → Type 0
  Granted result = (l : License) → result.0 ≡ some l → Holds o l result.1.rows

  -- What a SELECT finds.
  abbrev Reads : Option (Option License) × Licenses → Type 0
  Reads p = (x : License) → p.0 ≡ some (some x) → Holds o x p.1.rows

module _ (env : LicenseEnv) (o : String) where
  arrive-After : (w : Licenses) → After o w (arrive env w)
  unfolding arrive Grown
  arrive-After w = act_all-After o (env.others w.statements) w

  read_license-Reads : (w : Licenses) → Grown o w → Reads o (read_license env o w)
  unfolding read_license Grown
  read_license-Reads w grown x = elim (Bool-cases (env.sql_ok w.statements)) [
    | inr refused ↦ rw refused (λ h. cc)
    | inl ok ↦
        let w' = arrive env w in
        rw ok (λ h.
          as_of-Holds o (env.lag w.statements) w'.rows w'.past x w'.rows (λ y. there o y w'.rows)
            ((arrive-After w).0 grown) (cc))
  ]

  read_license-After : (q : String) (w : Licenses) → After o w (read_license env q w).1
  unfolding read_license
  read_license-After q w = arrive-After w

  winner-Granted : (p : Option (Option License) × Licenses) → Reads o p → Granted o (winner env p)
  unfolding winner
  winner-Granted (none, w) read l h = absurd (cc)
  winner-Granted (some none, w) read l h = absurd (cc)
  winner-Granted (some (some x), w) read l h = read l (ap some h)

  winner-After :
      (w : Licenses) (p : Option (Option License) × Licenses)
      → After o w p.1
      → After o w (winner env p).1
  unfolding winner
  winner-After w (none, u) f = f
  winner-After w (some none, u) f = f
  winner-After w (some (some x), u) f = f

  -- The new row, or the row that is there.
  after_insert-After :
      (x : License) (found : Option License) (w : Licenses)
      → find_license x.order_id w.rows ≡ found
      → After o w (after_insert env x found w).1
  unfolding after_insert
  after_insert-After x none w e =
      write-After o (insert_unless none x w.rows) w
        (λ l h. subst (λ f. Holds o l (insert_unless f x w.rows)) e (insert-Holds o l x w.rows h))
  after_insert-After x (some old) w e =
      winner-After w (read_license env x.order_id w) (read_license-After x.order_id w)

  insert_new-After : (x : License) (w : Licenses) → After o w (insert_new env x w).1
  unfolding insert_new
  insert_new-After x w = elim (Bool-cases (env.sql_ok w.statements)) [
    | inr refused ↦ rw refused (arrive-After w)
    | inl ok ↦
        let w' = arrive env w in
        let found = find_license x.order_id w'.rows in
        rw ok (
          After-trans o w w' (after_insert env x found w').1 (arrive-After w)
            (after_insert-After x found w' refl))
  ]

  after_select-After :
      (x : License) (w : Licenses) (p : Option (Option License) × Licenses)
      → After o w p.1
      → After o w (after_select env x p).1
  unfolding after_select
  after_select-After x w (none, u) f = f
  after_select-After x w (some none, u) f =
      After-trans o w u (insert_new env x u).1 f (insert_new-After x u)
  after_select-After x w (some (some old), u) f = f

  grant-After :
      (id listing : String) (buyer : ℤ) (q : String) (w : Licenses)
      → After o w (grant env id listing buyer q w).1
  unfolding grant
  grant-After id listing buyer q w =
      after_select-After _ w (read_license env q w) (read_license-After q w)

  after_insert-Granted :
      (x : License) (found : Option License) (w : Licenses)
      → x.order_id ≡ o
      → Grown o w
      → Granted o (after_insert env x found w)
  unfolding after_insert insert_unless write_rows
  after_insert-Granted x none w mine grown l h =
      let same : x ≡ l = cc in
      there o l (x ∷ w.rows) (rw (find_license, (eq_iff x.order_id o).1 mine) (ap some same))
  after_insert-Granted x (some old) w mine grown l h =
      winner-Granted (read_license env x.order_id w)
        (subst (λ q. Reads o (read_license env q w)) (sym mine) (read_license-Reads w grown)) l h

  insert_new-Granted :
      (x : License) (w : Licenses) → x.order_id ≡ o → Grown o w → Granted o (insert_new env x w)
  unfolding insert_new
  insert_new-Granted x w mine grown = elim (Bool-cases (env.sql_ok w.statements)) [
    | inr refused ↦ rw refused (λ l h. absurd (cc))
    | inl ok ↦
        let w' = arrive env w in
        rw ok (
          after_insert-Granted x (find_license x.order_id w'.rows) w' mine
            ((arrive-After w).0 grown))
  ]

  after_select-Granted :
      (x : License) (p : Option (Option License) × Licenses)
      → x.order_id ≡ o
      → Grown o p.1
      → Reads o p
      → Granted o (after_select env x p)
  unfolding after_select
  after_select-Granted x (none, w) mine grown read l h = absurd (cc)
  after_select-Granted x (some none, w) mine grown read l h = insert_new-Granted x w mine grown l h
  after_select-Granted x (some (some old), w) mine grown read l h = read l (ap some h)

  grant-Granted :
      (id listing : String) (buyer : ℤ) (w : Licenses)
      → Grown o w
      → Granted o (grant env id listing buyer o w)
  unfolding grant
  grant-Granted id listing buyer w grown =
      after_select-Granted _ (read_license env o w) refl ((read_license-After o w).0 grown)
        (read_license-Reads w grown)

-- However statements fail, however far the replica is behind whenever it answers a SELECT, and
-- whatever other calls for any order do between the statements and between the calls: when `Grant`
-- has answered a license for an order, every later `Grant` for that order that answers has a license
-- with the same id, listing and buyer, whatever it was asked for. The earlier tables that a replica
-- may still show must have no license of the order but the one that the table has.
pub grants_agree :
    (env later : LicenseEnv) (order_id id id' listing listing' : String) (buyer buyer' : ℤ)
    (acts : List Atomic) (n : ℕ) (w : Licenses) (l l' : License)
    → Grown order_id w
    → let first = grant env id listing buyer order_id w in
      let next : Licenses = record (act_all acts first.1) { statements = n } in
      first.0 ≡ some l
      → (grant later id' listing' buyer' order_id next).0 ≡ some l'
      → (l'.id ≡ l.id) × (l'.listing_id ≡ l.listing_id) × (l'.buyer_id ≡ l.buyer_id)
unfolding Grown
grants_agree env later o id id' listing listing' buyer buyer' acts n w l l' grown one two =
    let first = grant env id listing buyer o w in
    let between = act_all-After o acts first.1 in
    let next : Licenses = record (act_all acts first.1) { statements = n } in
    let grown' : Grown o next = between.0 ((grant-After env o id listing buyer o w).0 grown) in
    let kept = between.1 l (grant-Granted env o id listing buyer w grown l one) in
    let h = (grant-After later o id' listing' buyer' o next).1 l kept in
    let h' = grant-Granted later o id' listing' buyer' next grown' l' two in
    let again : some h'.held ≡ some h.held = sym h'.found ∙ h.found in
    let same : h'.held ≡ h.held = cc in
    (
      sym h'.same_id ∙ (ap (λ x. x.id) same ∙ h.same_id),
      sym h'.same_listing ∙ (ap (λ x. x.listing_id) same ∙ h.same_listing),
      sym h'.same_buyer ∙ (ap (λ x. x.buyer_id) same ∙ h.same_buyer),
    )
