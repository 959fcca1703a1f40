-- ===== src/Catalog/Feed/Complete.antt =====
-- Reading the feed page by page: `ListListings` of services/catalog/internal/adapters/grpc/server.go
-- down to the query, called again with the cursor of its last answer.
use gosplash.Catalog.Feed.Order.{
  StrictOrder, Distinct, is_after-eq, order_rows-All, where_rows-order_rows, order_rows-Sorted,
}
use gosplash.Prelude.{
  ℕ, zero, suc, String, List, [], ◌∷◌, ◌++◌, some, true, ◌≡◌, All, str_eq, ◌∙◌, ap, refl, false,
  ◌+◌, map, Bool-cases, leb, length, ltb, inl, inr, ◌<◌, arith, leb→le, append_assoc, sym,
  length-append,
}
use mathlib.Core.Path.{fun_ext}
use mathlib.Core.List.{map-append}
use gosplash.Prelude.Int.{ℤ, pos, negsuc}
use gosplash.Catalog.Db.{ListingRow, AuthorSnapshot}
use gosplash.Catalog.Cursor.{
  encode_cursor, str_eq-ne, encode_cursor-ne, PageCursor, decode_cursor-encode_cursor,
}
use gosplash.Catalog.Feed.{
  FeedEnv, FeedTables, Listing, page, precedes, list_listings, where_rows, is_after, page_limit,
  cursor_of, list, finish_page, trim_page, limit, is_wanted, list_after, fetch, order_rows,
  to_domains,
}
use gosplash.Catalog.Feed.Pages.{Readable, Cut, to_domains-rows, trim_page_last, trim_page-Cut}
use gosplash.Catalog.Feed.Reading.{
  join, read_on, read_feed, Grown, Shown, All-last, All-rest, All-front, where_rows-any,
  where_rows-after, Grown-where, not_leb,
}

page_limit-suc : (lim : ℤ) → (m : ℕ) × (page_limit lim ≡ suc m)
unfolding page_limit
page_limit-suc (pos zero) = (19, refl)
page_limit-suc (pos (suc n)) = elim (Bool-cases (ltb 100 (suc n))) [
  | inl over ↦ (19, ground arith)
  | inr within ↦ (n, ground arith)
]
page_limit-suc (negsuc n) = (19, refl)

cursor_of-eq :
    (env : FeedEnv) (x : ListingRow) (h : Shown env x)
    → cursor_of env x.id x.published_at
      ≡ encode_cursor env.lib (record { published_at = h.at; id = x.id })
unfolding cursor_of
cursor_of-eq env x h = rw h.timed

cursor_of-ne :
    (env : FeedEnv) (x : ListingRow)
    → Shown env x
    → str_eq (cursor_of env x.id x.published_at) "" ≡ false
cursor_of-ne env x h =
    rw (cursor_of-eq env x h) (str_eq-ne _ "" (encode_cursor-ne env.lib _ h.carried))

All-Readable : (env : FeedEnv) (l : List ListingRow) → All (Shown env) l → All (Readable env) l
All-Readable env [] h = tt
All-Readable env (r ∷ rs) (h, hs) = (h.readable, All-Readable env rs hs)

module _ (env : FeedEnv) (lim : ℤ) (tags : List String) (tables : ℕ → FeedTables) where
  read_feed-suc :
      (fuel k : ℕ) (cursor : String) (ls : List Listing) (next : String)
      → list env true (page_limit lim) cursor tags (tables k) ≡ page ls next
      → read_feed env lim tags tables (suc fuel) k cursor
        ≡ read_on (page ls next) (λ c. read_feed env lim tags tables fuel (suc k) c)
  unfolding read_feed
  read_feed-suc fuel k cursor ls next e =
      ap (λ p. read_on p (λ c. read_feed env lim tags tables fuel (suc k) c)) (opened e)
    where
      opened :
          list env true (page_limit lim) cursor tags (tables k) ≡ page ls next
          → list_listings env true lim cursor tags (tables k) ≡ page ls next
      opened h = unfold list_listings in h

  finish_page-eq :
      (authors : List AuthorSnapshot) (rs : List ListingRow) (ls : List Listing) (next : String)
      → to_domains env authors rs ≡ some ls
      → finish_page env authors (some (rs, next)) ≡ page ls next
  unfolding finish_page
  finish_page-eq authors rs ls next e = rw (e, finish_page) refl

  -- The rest of the feed from one page on, given what the query of that page fetches.
  read_page :
      (m fuel k : ℕ) (cursor : String) (l : List ListingRow)
      → page_limit lim ≡ suc m
      → list env true (suc m) cursor tags (tables k)
        ≡ finish_page env (tables k).authors (trim_page env (limit (suc m + 1) l) (suc m))
      → All (Shown env) l
      → ((c : Cut m l)
          → (ls : List Listing) × (read_feed env lim tags tables fuel
                (suc k)
                (cursor_of env c.last.id c.last.published_at)
              ≡ some ls)
            × (map (λ x. x.row) ls ≡ c.rest))
      → (ls : List Listing) × (read_feed env lim tags tables (suc fuel) k cursor ≡ some ls)
        × (map (λ x. x.row) ls ≡ l)
  unfolding read_on
  read_page m fuel k cursor l lim_eq call shown rest = elim (Bool-cases (leb (length l) (suc m))) [
    | inl whole ↦
        let (ls, done, same) =
          to_domains-rows env (tables k).authors l (All-Readable env l shown) in
        let trimmed = trim_page_last env (suc m) l (leb→le _ _ whole) in
        let answer = call ∙ ap (finish_page env (tables k).authors) trimmed in
        (
          ls,
          read_feed-suc fuel k cursor ls "" (
              ap (λ n. list env true n cursor tags (tables k)) lim_eq
              ∙ answer
              ∙ finish_page-eq _ l ls "" done),
          same,
        )
    | inr more ↦
        let (c, trimmed) = trim_page-Cut env m l (not_leb (length l) (suc m) more) in
        let shown' : All (Shown env) (c.before ++ c.last ∷ c.rest) = rw c.parts at shown in
        let last_shown = All-last (Shown env) c.before c.last c.rest shown' in
        let first : All (Shown env) (c.before ++ c.last ∷ []) =
          All-front (Shown env) (c.before ++ c.last ∷ []) c.rest
            (rw (append_assoc c.before (c.last ∷ []) c.rest) shown') in
        let (ls, done, same) =
          to_domains-rows env (tables k).authors (c.before ++ c.last ∷ [])
            (All-Readable env _ first) in
        let (ls', done', same') = rest c in
        let next = cursor_of env c.last.id c.last.published_at in
        let answer = call ∙ ap (finish_page env (tables k).authors) trimmed in
        (
          ls ++ ls',
          read_feed-suc fuel k cursor ls next (
                ap (λ n. list env true n cursor tags (tables k)) lim_eq
                ∙ answer
                ∙ finish_page-eq _ (c.before ++ c.last ∷ []) ls next done)
              ∙ rw (cursor_of-ne env c.last last_shown) (rw (done', join) refl),
          map-append (λ x. x.row) ls ls'
              ∙ ap (λ rs. rs ++ map (λ x. x.row) ls') same
              ∙ ap (λ rs. (c.before ++ c.last ∷ []) ++ rs) same'
              ∙ append_assoc c.before (c.last ∷ []) c.rest
              ∙ sym c.parts,
        )
  ]

  module _ (times : StrictOrder env.time_lt) (ids : StrictOrder env.uuid_lt) where
    -- The whole feed on the tables of the first page.
    abbrev wanted : ℕ → List ListingRow
    wanted k = where_rows (is_wanted env tags) (tables k).listings

    first_page :
        (n : ℕ)
        → list env true n "" tags (tables 0)
          ≡ finish_page env
              (tables 0).authors
              (trim_page env (limit (n + 1) (order_rows env (wanted 0))) n)
    unfolding list list_after fetch
    first_page n = rw (where_rows-any env (wanted 0)) refl

    later_page :
        (n k : ℕ) (xs : List ListingRow) (x : ListingRow) (ys : List ListingRow)
        → order_rows env (wanted 0) ≡ xs ++ x ∷ ys
        → Shown env x
        → Distinct (wanted 0)
        → Grown env (wanted 0) (wanted 0) (wanted k)
        → list env true n (cursor_of env x.id x.published_at) tags (tables k)
          ≡ finish_page env (tables k).authors (trim_page env (limit (n + 1) ys) n)
    unfolding list list_after fetch
    later_page n k xs x ys parts h d g =
        let key : PageCursor = record { published_at = h.at; id = x.id } in
        let left : where_rows (is_after env (some key)) (wanted k)
            ≡ where_rows (precedes env x) (wanted 0) =
          rw (fun_ext (is_after-eq env x h.at h.timed)) (
            Grown-where env times ids x (wanted 0)
              (λ P hs. All-last P xs x ys (rw parts at (order_rows-All env P (wanted 0) hs))) g) in
        let fetched : order_rows env (where_rows (is_after env (some key)) (wanted k)) ≡ ys =
          ap (order_rows env) left
          ∙ where_rows-order_rows env times ids (precedes env x) (wanted 0) d
          ∙ ap (where_rows (precedes env x)) parts
          ∙ where_rows-after env times ids xs x ys
              (rw parts at (order_rows-Sorted env times ids (wanted 0) d)) in
        rw (cursor_of-ne env x h) (
          rw (cursor_of-eq env x h)
            (rw (decode_cursor-encode_cursor env.lib key h.carried h.named) (rw fetched refl)))

    module _ (m : ℕ) (lim_eq : page_limit lim ≡ suc m) (d : Distinct (wanted 0))
        (shown : All (Shown env) (order_rows env (wanted 0)))
        (grown : (k : ℕ) → Grown env (wanted 0) (wanted 0) (wanted k)) where
      -- The pages after a row of the feed.
      read_after :
          (fuel k : ℕ) (xs : List ListingRow) (x : ListingRow) (ys : List ListingRow)
          → order_rows env (wanted 0) ≡ xs ++ x ∷ ys
          → length ys < fuel
          → (ls : List Listing) × (read_feed env lim tags tables fuel k
                (cursor_of env x.id x.published_at)
              ≡ some ls)
            × (map (λ l. l.row) ls ≡ ys)
      read_after zero k xs x ys parts h = absurd (omega arith)
      read_after (suc fuel) k xs x ys parts h =
          let whole : All (Shown env) (xs ++ x ∷ ys) = rw parts at shown in
          read_page m fuel k _ ys lim_eq
            (later_page (suc m) k xs x ys parts (All-last (Shown env) xs x ys whole) d (grown k))
            (All-rest (Shown env) (x ∷ []) ys (All-rest (Shown env) xs (x ∷ ys) whole))
            λ c.
              read_after fuel (suc k) (xs ++ x ∷ c.before) c.last c.rest
                (parts
                  ∙ ap (λ l. xs ++ x ∷ l) c.parts
                  ∙ sym (append_assoc xs (x ∷ c.before) (c.last ∷ c.rest)))
                (omega (arith, ap length c.parts, length-append c.before (c.last ∷ c.rest)))

-- The feed is whole, read page by page: take tables whose published rows with the tags have ids of
-- their own, times that a cursor carries and thumbnails that can be read; columns in strict orders;
-- and queries that succeed. While other calls publish listings that come before those that were
-- there, and change no other, a reader that goes from cursor to cursor, with any limit, comes to a
-- page without one, and its pages together are the rows that were there, each once, in the order of
-- the query without LIMIT.
pub feed_complete :
    (env : FeedEnv) (lim : ℤ) (tags : List String) (tables : ℕ → FeedTables) (fuel : ℕ)
    → let wanted = λ (k : ℕ). where_rows (is_wanted env tags) (tables k).listings in
      StrictOrder env.time_lt
      → StrictOrder env.uuid_lt
      → Distinct (wanted 0)
      → All (Shown env) (wanted 0)
      → ((k : ℕ) → Grown env (wanted 0) (wanted 0) (wanted k))
      → length (order_rows env (wanted 0)) < fuel
      → (ls : List Listing) × (read_feed env lim tags tables fuel 0 "" ≡ some ls)
        × (map (λ l. l.row) ls ≡ order_rows env (wanted 0))
feed_complete env lim tags tables zero times ids d shown grown h = absurd (omega arith)
feed_complete env lim tags tables (suc fuel) times ids d shown grown h =
    let (m, lim_eq) = page_limit-suc lim in
    let feed = order_rows env (where_rows (is_wanted env tags) (tables 0).listings) in
    let all_shown : All (Shown env) feed = order_rows-All env (Shown env) _ shown in
    read_page env lim tags tables m fuel 0 "" feed lim_eq
      (first_page env lim tags tables times ids (suc m)) all_shown
      λ c.
        read_after env lim tags tables times ids m lim_eq d all_shown grown fuel 1 c.before c.last
          c.rest c.parts
          (omega (arith, ap length c.parts, length-append c.before (c.last ∷ c.rest)))
