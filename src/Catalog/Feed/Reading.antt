-- ===== src/Catalog/Feed/Reading.antt =====
-- A reader of the feed, what other calls may do meanwhile, and which rows lie after one of them:
-- services/catalog/internal/adapters/pg/listing_repository.go.
use gosplash.Catalog.Feed.Order.{StrictOrder, Sorted, precedes_asym, precedes_irrefl}
use gosplash.Prelude.{
  ℕ, zero, suc, String, List, [], ◌∷◌, ◌++◌, Option, none, some, true, ◌≡◌, ◌≢◌, All, str_eq,
  if◌then◌else◌, Bool, ap, refl, false, leb, ◌<◌, arith,
}
use gosplash.Prelude.Int.{ℤ}
use gosplash.Catalog.Db.{ListingRow}
use gosplash.Catalog.Cursor.{ReadsBack}
use gosplash.Catalog.Feed.{
  FeedEnv, FeedTables, Listing, Page, page, refused, panicked, precedes, list_listings, where_rows,
  is_after,
}
use gosplash.Catalog.Feed.Pages.{Readable}

-- A reader that goes on with the cursor of each page until there is none, by fuel; none is a page
-- that was refused, or a want of fuel.
unfoldable pub join : List Listing → Option (List Listing) → Option (List Listing)
join ls none = none
join ls (some rest) = some (ls ++ rest)

unfoldable pub read_on : Page → (String → Option (List Listing)) → Option (List Listing)
unfolding join
read_on (page ls next) rest = if str_eq next "" then some ls else join ls (rest next)
read_on refused rest = none
read_on panicked rest = none

module _ (env : FeedEnv) (lim : ℤ) (tags : List String) (tables : ℕ → FeedTables) where
  -- From page number k on, each page on the tables that it finds.
  unfoldable pub read_feed : ℕ → ℕ → String → Option (List Listing)
  unfolding read_on list_listings
  read_feed zero k cursor = none
  read_feed (suc fuel) k cursor =
      read_on (list_listings env true lim cursor tags (tables k))
        (λ next. read_feed fuel (suc k) next)

-- What the rows of the feed become when listings are published meanwhile: these come before all
-- that were there.
pub data Grown (env : FeedEnv) (old : List ListingRow)
    : List ListingRow → List ListingRow → Type 0 where
  unchanged : Grown env old [] []
  kept :
      (r : ListingRow) {rs qs : List ListingRow}
      → Grown env old rs qs
      → Grown env old (r ∷ rs) (r ∷ qs)
  published :
      (q : ListingRow) {rs qs : List ListingRow}
      → All (λ r. precedes env q r ≡ true) old
      → Grown env old rs qs
      → Grown env old rs (q ∷ qs)

-- A row that a reader can be shown: it has a time that a cursor carries, an id, and thumbnails that
-- can be read.
pub record Shown (env : FeedEnv) (r : ListingRow) : Type 0 where
  pub at : String
  pub timed : r.published_at ≡ some at
  pub carried : ReadsBack env.lib at
  pub named : r.id ≢ ""
  pub readable : Readable env r

pub not_leb : (a b : ℕ) → leb a b ≡ false → b < a
not_leb a b h = ground arith

pub All-last :
    (P : ListingRow → Type 0) (xs : List ListingRow) (x : ListingRow) (ys : List ListingRow)
    → All P (xs ++ x ∷ ys)
    → P x
All-last P [] x ys (h, hs) = h
All-last P (y ∷ xs) x ys (h, hs) = All-last P xs x ys hs

pub All-rest : (P : ListingRow → Type 0) (xs ys : List ListingRow) → All P (xs ++ ys) → All P ys
All-rest P [] ys h = h
All-rest P (x ∷ xs) ys (h, hs) = All-rest P xs ys hs

pub All-front : (P : ListingRow → Type 0) (xs ys : List ListingRow) → All P (xs ++ ys) → All P xs
All-front P [] ys h = tt
All-front P (x ∷ xs) ys (h, hs) = (h, All-front P xs ys hs)

where_rows_whole :
    (p : ListingRow → Bool) (l : List ListingRow) → All (λ r. p r ≡ true) l → where_rows p l ≡ l
unfolding where_rows
where_rows_whole p [] h = refl
where_rows_whole p (r ∷ rs) (h, hs) = rw (h) (ap (◌∷◌ r) (where_rows_whole p rs hs))

pub where_rows-any : (env : FeedEnv) (l : List ListingRow) → where_rows (is_after env none) l ≡ l
unfolding where_rows is_after
where_rows-any env [] = refl
where_rows-any env (r ∷ rs) = ap (◌∷◌ r) (where_rows-any env rs)

module _ (env : FeedEnv) (times : StrictOrder env.time_lt) (ids : StrictOrder env.uuid_lt) where
  -- What the rows of a sorted list leave that a row of it precedes.
  pub where_rows-after :
      (xs : List ListingRow) (x : ListingRow) (ys : List ListingRow)
      → Sorted env (xs ++ x ∷ ys)
      → where_rows (precedes env x) (xs ++ x ∷ ys) ≡ ys
  unfolding where_rows
  where_rows-after [] x ys (h, s) =
      rw (precedes_irrefl env times ids x) (where_rows_whole (precedes env x) ys h)
  where_rows-after (y ∷ xs) x ys (h, s) =
      let earlier = All-last (λ q. precedes env y q ≡ true) xs x ys h in
      rw (precedes_asym env times ids y x earlier) (where_rows-after xs x ys s)

  -- What was published meanwhile is not among the rows after one that was there.
  pub Grown-where :
      (x : ListingRow) (old : List ListingRow)
      → ((P : ListingRow → Type 0) → All P old → P x)
      → {rs qs : List ListingRow} → Grown env old rs qs
      → where_rows (precedes env x) qs ≡ where_rows (precedes env x) rs
  unfolding where_rows
  Grown-where x old m unchanged = refl
  Grown-where x old m (kept r g) =
      ap (λ l. if precedes env x r then r ∷ l else l) (Grown-where x old m g)
  Grown-where x old m (published q h g) =
      rw (precedes_asym env times ids q x (m (λ r. precedes env q r ≡ true) h))
        (Grown-where x old m g)
