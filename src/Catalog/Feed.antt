-- ===== src/Catalog/Feed.antt =====
-- The feed of listings: `List` of services/catalog/internal/adapters/pg/listing_repository.go with
-- `trimPage`, and `ListListings` of adapters/grpc/server.go.
pub mod Order
pub mod Pages
pub mod Reading
pub mod Complete
mod Tests
use gosplash.Prelude.{
  ℕ, zero, suc, ◌+◌, String, List, [], ◌∷◌, Option, none, some, Bool, true, false, ◌&&◌, ◌||◌,
  str_eq, if◌then◌else◌, length, leb, ltb, ◌==◌,
}
use gosplash.Prelude.Int.{ℤ, pos, negsuc}
use gosplash.Kafka.Record.{Header}
use gosplash.Catalog.Db.{ListingRow, AuthorSnapshot, find_author}
use gosplash.Catalog.Cursor.{CursorLib, PageCursor, encode_cursor, decode_cursor}

-- `domain.Listing`; no time of publication stands for the zero time.
pub record Listing : Type 0 where
  pub row : ListingRow
  pub author_name : String
  pub thumbnails : List Header

-- What a query takes from its surroundings: the order of the columns `published_at` and `id`, the
-- libraries, and JSON of thumbnails.
pub record FeedEnv : Type 0 where
  pub time_lt : String → String → Bool
  pub uuid_lt : String → String → Bool
  pub lib : CursorLib
  pub unmarshal_thumbnails : String → Option (List Header)

-- The two tables, as the query finds them.
pub record FeedTables : Type 0 where
  pub listings : List ListingRow
  pub authors : List AuthorSnapshot

-- An error, or an index out of range, ends a call without a page.
pub data Page : Type 0 where
  page : List Listing → String → Page
  refused panicked : Page

-- tags && requested
unfoldable pub has_tag : List String → String → Bool
has_tag [] t = false
has_tag (s ∷ ss) t = str_eq s t || has_tag ss t

unfoldable pub overlap : List String → List String → Bool
unfolding has_tag
overlap tags [] = false
overlap tags (t ∷ ts) = has_tag tags t || overlap tags ts

unfoldable pub tags_match : List String → List String → Bool
unfolding overlap
tags_match [] tags = true
tags_match (t ∷ ts) tags = overlap tags (t ∷ ts)

-- WHERE
unfoldable pub where_rows : (ListingRow → Bool) → List ListingRow → List ListingRow
where_rows p [] = []
where_rows p (r ∷ rs) = let rest = where_rows p rs in if p r then r ∷ rest else rest

-- LIMIT
unfoldable pub limit : ℕ → List ListingRow → List ListingRow
limit zero rs = []
limit (suc n) [] = []
limit (suc n) (r ∷ rs) = r ∷ limit n rs

-- The row with a number, from zero.
unfoldable pub row_at : ℕ → List ListingRow → Option ListingRow
row_at n [] = none
row_at zero (r ∷ rs) = some r
row_at (suc n) (r ∷ rs) = row_at n rs

-- COALESCE over the LEFT JOIN
unfoldable pub author_of : Option AuthorSnapshot → String
author_of none = ""
author_of (some a) = a.name

-- The limit of `ListListings`.
unfoldable pub page_limit : ℤ → ℕ
page_limit (pos n) = if n == 0 || ltb 100 n then 20 else n
page_limit (negsuc n) = 20

module _ (env : FeedEnv) where
  -- status = published, and the tags
  unfoldable pub is_wanted : List String → ListingRow → Bool
  unfolding tags_match
  is_wanted tags r = str_eq r.status "published" && tags_match tags r.tags

  -- (published_at, id) < (c.published_at, c.id), which NULL is not
  unfoldable pub lies_below : PageCursor → Option String → String → Bool
  lies_below c none i = false
  lies_below c (some t) i =
      env.time_lt t c.published_at || (str_eq t c.published_at && env.uuid_lt i c.id)

  unfoldable pub is_after : Option PageCursor → ListingRow → Bool
  unfolding lies_below
  is_after none r = true
  is_after (some c) r = lies_below c r.published_at r.id

  -- ORDER BY published_at DESC, id DESC, where NULL comes first
  unfoldable pub comes_first : Option String → String → Option String → String → Bool
  comes_first none i none j = env.uuid_lt j i
  comes_first none i (some t) j = true
  comes_first (some s) i none j = false
  comes_first (some s) i (some t) j = env.time_lt t s || (str_eq t s && env.uuid_lt j i)

  unfoldable pub precedes : ListingRow → ListingRow → Bool
  unfolding comes_first
  precedes a b = comes_first a.published_at a.id b.published_at b.id

  unfoldable pub insert_row : ListingRow → List ListingRow → List ListingRow
  insert_row r [] = r ∷ []
  insert_row r (q ∷ qs) =
      let rest = insert_row r qs in if precedes r q then r ∷ q ∷ qs else q ∷ rest

  unfoldable pub order_rows : List ListingRow → List ListingRow
  unfolding insert_row
  order_rows [] = []
  order_rows (r ∷ rs) = insert_row r (order_rows rs)

  -- The query of `List`.
  unfoldable pub fetch : ℕ → Option PageCursor → List String → List ListingRow → List ListingRow
  unfolding limit order_rows where_rows is_wanted is_after
  fetch n cur tags rows =
      limit (n + 1) (order_rows (where_rows (is_after cur) (where_rows (is_wanted tags) rows)))

  -- `cursorKey`, encoded
  unfoldable pub cursor_of : String → Option String → String
  unfolding encode_cursor
  cursor_of i none = ""
  cursor_of i (some t) = encode_cursor env.lib (record { published_at = t; id = i })

  unfoldable pub next_cursor : Option ListingRow → Option String
  unfolding cursor_of
  next_cursor none = none
  next_cursor (some r) = some (cursor_of r.id r.published_at)

  -- The index `limit - 1` of a page; of an empty page it is out of range.
  unfoldable pub last_of : ℕ → List ListingRow → Option ListingRow
  unfolding row_at
  last_of zero rs = none
  last_of (suc n) rs = row_at n rs

  unfoldable pub cut_page : List ListingRow → Option String → Option (List ListingRow × String)
  cut_page rows none = none
  cut_page rows (some c) = some (rows, c)

  -- `trimPage`; none is an index out of range.
  unfoldable pub trim_page : List ListingRow → ℕ → Option (List ListingRow × String)
  unfolding cut_page next_cursor last_of limit
  trim_page rows n =
      let cut = limit n rows in
      if leb (length rows) n then some (rows, "") else cut_page cut (next_cursor (last_of n cut))

  -- `toDomain`, which fails on thumbnails that are no JSON, and the loop over the rows.
  unfoldable pub thumbnails_of : String → Option (List Header)
  thumbnails_of raw = if str_eq raw "" then some [] else env.unmarshal_thumbnails raw

  unfoldable pub to_domain : List AuthorSnapshot → ListingRow → Option Listing
  unfolding thumbnails_of author_of find_author
  to_domain authors r = elim (thumbnails_of r.thumbnails) [
    | none ↦ none
    | some m ↦ some (record {
      row = r;
      author_name = author_of (find_author r.author_id authors);
      thumbnails = m;
    })
  ]

  unfoldable pub cons_both : Option Listing → Option (List Listing) → Option (List Listing)
  cons_both (some l) (some ls) = some (l ∷ ls)
  cons_both (some l) none = none
  cons_both none ls = none

  unfoldable pub to_domains : List AuthorSnapshot → List ListingRow → Option (List Listing)
  unfolding cons_both to_domain
  to_domains authors [] = some []
  to_domains authors (r ∷ rs) = cons_both (to_domain authors r) (to_domains authors rs)

  unfoldable pub finish_page : List AuthorSnapshot → Option (List ListingRow × String) → Page
  unfolding to_domains
  finish_page authors none = panicked
  finish_page authors (some (rows, next)) = elim (to_domains authors rows) [
    | none ↦ refused
    | some ls ↦ page ls next
  ]

  -- `List` after its cursor, given whether the query succeeds.
  unfoldable pub list_after : Bool → ℕ → Option PageCursor → List String → FeedTables → Page
  unfolding finish_page trim_page fetch
  list_after ok n cur tags db =
      if ok then finish_page db.authors (trim_page (fetch n cur tags db.listings) n) else refused

  -- `ListingRepository.List`
  unfoldable pub list : Bool → ℕ → String → List String → FeedTables → Page
  unfolding list_after decode_cursor
  list ok n cursor tags db =
      if str_eq cursor ""
      then list_after ok n none tags db
      else elim (decode_cursor env.lib cursor) [
        | none ↦ refused
        | some c ↦ list_after ok n (some c) tags db
      ]

  -- `ListListings`
  unfoldable pub list_listings : Bool → ℤ → String → List String → FeedTables → Page
  unfolding page_limit list
  list_listings ok limit cursor tags db = list ok (page_limit limit) cursor tags db
