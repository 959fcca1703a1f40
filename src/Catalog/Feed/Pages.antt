-- ===== src/Catalog/Feed/Pages.antt =====
-- One page of the feed: `trimPage` of services/catalog/internal/adapters/pg/cursor.go on what the
-- query has fetched.
use gosplash.Kafka.Record.{Header}
use gosplash.Prelude.{
  ℕ, zero, suc, ◌+◌, ◌≤◌, ◌<◌, List, [], ◌∷◌, ◌++◌, some, true, false, ◌≡◌, refl, arith, All,
  length, ap, leb, map, ◌∙◌,
}
use native.Mathlib.Numerals.{add-one}
use gosplash.Catalog.Db.{ListingRow, AuthorSnapshot, find_author}
use gosplash.Catalog.Feed.{
  FeedEnv, Listing, limit, row_at, cursor_of, next_cursor, last_of, trim_page, to_domain,
  to_domains, cons_both, thumbnails_of, author_of,
}

le→leb : (a b : ℕ) → a ≤ b → leb a b ≡ true
le→leb a b h = ground arith

gt→leb : (a b : ℕ) → b < a → leb a b ≡ false
gt→leb a b h = ground arith

limit_whole : (n : ℕ) (l : List ListingRow) → length l ≤ n → limit n l ≡ l
unfolding limit
limit_whole zero [] h = refl
limit_whole zero (r ∷ rs) h = absurd (omega arith)
limit_whole (suc n) [] h = refl
limit_whole (suc n) (r ∷ rs) h = ap (◌∷◌ r) (limit_whole n rs (omega arith))

limit-limit : (n : ℕ) (l : List ListingRow) → limit n (limit (suc n) l) ≡ limit n l
unfolding limit
limit-limit zero l = refl
limit-limit (suc n) [] = refl
limit-limit (suc n) (r ∷ rs) = ap (◌∷◌ r) (limit-limit n rs)

limit-length_over : (n : ℕ) (l : List ListingRow) → n < length l → n < length (limit (suc n) l)
unfolding limit
limit-length_over n [] h = absurd (omega arith)
limit-length_over zero (r ∷ rs) h = omega arith
limit-length_over (suc n) (r ∷ rs) h = omega (arith, limit-length_over n rs (omega arith))

-- The rows of a page and the rows after it, where there are more than the page takes.
pub record Cut (m : ℕ) (l : List ListingRow) : Type 0 where
  pub before : List ListingRow
  pub last : ListingRow
  pub rest : List ListingRow
  pub parts : l ≡ before ++ last ∷ rest
  pub taken : limit (suc m) l ≡ before ++ last ∷ []
  pub found : row_at m (before ++ last ∷ []) ≡ some last

cut : (m : ℕ) (l : List ListingRow) → suc m < length l → Cut m l
unfolding limit row_at
cut m [] h = absurd (omega arith)
cut zero (r ∷ rs) h = record {
  before = [];
  last = r;
  rest = rs;
  parts = refl;
  taken = refl;
  found = refl;
}
cut (suc m) (r ∷ rs) h =
    let c = cut m rs (omega arith) in
    record {
      before = r ∷ c.before;
      last = c.last;
      rest = c.rest;
      parts = ap (◌∷◌ r) c.parts;
      taken = ap (◌∷◌ r) c.taken;
      found = c.found;
    }

module _ (env : FeedEnv) where
  -- The last page has all that is left and no cursor; any other ends at the row of its cursor.
  pub trim_page_last :
      (n : ℕ) (l : List ListingRow)
      → length l ≤ n
      → trim_page env (limit (n + 1) l) n ≡ some (l, "")
  unfolding trim_page
  trim_page_last n l h = rw (limit_whole (n + 1) l (omega arith)) (rw (le→leb (length l) n h))

  pub trim_page-Cut :
      (m : ℕ) (l : List ListingRow)
      → suc m < length l
      → (c : Cut m l) × (trim_page env (limit (suc m + 1) l) (suc m)
          ≡ some (c.before ++ c.last ∷ [], cursor_of env c.last.id c.last.published_at))
  unfolding trim_page next_cursor last_of
  trim_page-Cut m l h =
      let c = cut m l h in
      let over : leb (length (limit (suc m + 1) l)) (suc m) ≡ false =
        rw (add-one (suc m)) (gt→leb _ _ (limit-length_over (suc m) l h)) in
      let taken : limit (suc m) (limit (suc m + 1) l) ≡ c.before ++ c.last ∷ [] =
        rw (add-one (suc m)) (limit-limit (suc m) l ∙ c.taken) in
      (c, rw (over, trim_page) (rw taken (rw (c.found, next_cursor) refl)))

  -- A row whose thumbnails can be read becomes a listing.
  abbrev pub Readable : ListingRow → Type 0
  Readable r = (m : List Header) × (thumbnails_of env r.thumbnails ≡ some m)

  pub to_domains-rows :
      (authors : List AuthorSnapshot) (rs : List ListingRow)
      → All Readable rs
      → (ls : List Listing) × (to_domains env authors rs ≡ some ls) × (map (λ l. l.row) ls ≡ rs)
  unfolding to_domains to_domain
  to_domains-rows authors [] h = ([], refl, refl)
  to_domains-rows authors (r ∷ rs) ((m, e), h) =
      let (ls, done, same) = to_domains-rows authors rs h in
      (
        record {
          row = r;
          author_name = author_of (find_author r.author_id authors);
          thumbnails = m;
        }
            ∷ ls,
        rw (e, to_domain) (rw (done, cons_both)),
        ap (◌∷◌ r) same,
      )
