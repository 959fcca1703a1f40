-- ===== src/Catalog/Licenses.antt =====
-- The licenses of orders: services/catalog/internal/adapters/pg/license_repository.go. Other calls may
-- act between any two statements, and any statement may fail.
pub mod Holds
pub mod Once
use gosplash.Prelude.{
  ℕ, zero, suc, String, List, [], ◌∷◌, Option, none, some, Bool, true, false, str_eq, if◌then◌else◌,
  ◌&&◌,
}
use gosplash.Prelude.Int.{ℤ}

-- `License`, without its times.
pub record License : Type 0 where
  pub id : String
  pub listing_id : String
  pub buyer_id : ℤ
  pub order_id : String
  pub status : String
  pub reason : String

-- What one statement of a call does to the table.
pub data Atomic : Type 0 where
  insert_license : License → Atomic
  revoke_license : String → String → Atomic

unfoldable pub find_license : String → List License → Option License
find_license o [] = none
find_license o (l ∷ ls) = if str_eq l.order_id o then some l else find_license o ls

-- INSERT ... ON CONFLICT (order_id) DO NOTHING, given what is there.
unfoldable pub insert_unless : Option License → License → List License → List License
insert_unless (some old) l ls = ls
insert_unless none l ls = l ∷ ls

-- UPDATE ... WHERE order_id AND status = granted
unfoldable pub revoked : String → String → License → License
revoked o reason l =
    if str_eq l.order_id o && str_eq l.status "granted"
    then record l { status = "revoked"; reason = reason }
    else l

unfoldable pub revoke_rows : String → String → List License → List License
unfolding revoked
revoke_rows o reason [] = []
revoke_rows o reason (l ∷ ls) = revoked o reason l ∷ revoke_rows o reason ls

unfoldable pub act : Atomic → List License → List License
unfolding insert_unless find_license revoke_rows
act (insert_license l) ls = insert_unless (find_license l.order_id ls) l ls
act (revoke_license o reason) ls = revoke_rows o reason ls

-- `sql_ok` says whether the n-th statement succeeds, `others` what other calls do before it, and
-- `lag` how many writes the database that answers it is behind, if it is a SELECT outside a
-- transaction: the dbresolver of pkg/dbx/db.go sends that to the replica, if there is one.
pub record LicenseEnv : Type 0 where
  pub sql_ok : ℕ → Bool
  pub others : ℕ → List Atomic
  pub lag : ℕ → ℕ

-- The table of the primary, and what it was before each of its writes, newest first.
pub record Licenses : Type 0 where
  pub rows : List License
  pub past : List (List License)
  pub statements : ℕ

unfoldable pub write_rows : List License → Licenses → Licenses
write_rows ls w = record w { rows = ls; past = w.rows ∷ w.past }

unfoldable pub act_all : List Atomic → Licenses → Licenses
unfolding act write_rows
act_all [] w = w
act_all (a ∷ rest) w = act_all rest (write_rows (act a w.rows) w)

-- The table as it was so many writes ago.
unfoldable pub as_of : ℕ → List License → List (List License) → List License
as_of zero now past = now
as_of (suc n) now [] = now
as_of (suc n) now (before ∷ past) = as_of n before past

module _ (env : LicenseEnv) where
  -- The tables that the next statement finds.
  unfoldable pub arrive : Licenses → Licenses
  unfolding act_all
  arrive w = record (act_all (env.others w.statements) w) { statements = suc w.statements }

  -- SELECT, which a replica may answer; none is an error.
  unfoldable pub read_license : String → Licenses → Option (Option License) × Licenses
  unfolding arrive find_license as_of
  read_license o w =
      let w' = arrive w in
      let found = find_license o (as_of (env.lag w.statements) w'.rows w'.past) in
      (if env.sql_ok w.statements then some found else none, w')

  -- The winner of a race, read again, by a SELECT of the same kind: no row is an error.
  unfoldable pub winner : Option (Option License) × Licenses → Option License × Licenses
  winner (some (some l), w) = (some l, w)
  winner (some none, w) = (none, w)
  winner (none, w) = (none, w)

  unfoldable pub after_insert : License → Option License → Licenses → Option License × Licenses
  unfolding winner read_license insert_unless write_rows
  after_insert l none w = (some l, write_rows (insert_unless none l w.rows) w)
  after_insert l (some old) w = winner (read_license l.order_id w)

  unfoldable pub insert_new : License → Licenses → Option License × Licenses
  unfolding arrive after_insert find_license
  insert_new l w =
      let w' = arrive w in
      if env.sql_ok w.statements
      then after_insert l (find_license l.order_id w'.rows) w'
      else (none, w')

  unfoldable pub after_select :
      License → Option (Option License) × Licenses → Option License × Licenses
  unfolding insert_new
  after_select l (none, w) = (none, w)
  after_select l (some (some old), w) = (some old, w)
  after_select l (some none, w) = insert_new l w

  -- `Grant`, given the new id; none is an error.
  unfoldable pub grant : String → String → ℤ → String → Licenses → Option License × Licenses
  unfolding after_select read_license
  grant id listing_id buyer_id order_id w =
      let l : License = record {
        id = id;
        listing_id = listing_id;
        buyer_id = buyer_id;
        order_id = order_id;
        status = "granted";
        reason = "";
      } in
      after_select l (read_license order_id w)

  unfoldable pub is_granted : Option License → Bool
  is_granted none = false
  is_granted (some l) = str_eq l.status "granted"

  -- `Revoke`: whether a license was revoked; none is an error.
  unfoldable pub revoke : String → String → Licenses → Option Bool × Licenses
  unfolding arrive is_granted find_license revoke_rows write_rows
  revoke order_id reason w =
      let w' = arrive w in
      if env.sql_ok w.statements
      then (
        some (is_granted (find_license order_id w'.rows)),
        write_rows (revoke_rows order_id reason w'.rows) w',
      )
      else (none, w')
