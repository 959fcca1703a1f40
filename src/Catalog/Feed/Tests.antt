-- ===== src/Catalog/Feed/Tests.antt =====
-- Runs of the feed (services/catalog/internal/adapters/pg), and its theorem at an example.
use gosplash.Prelude.{
  ℕ, zero, suc, String, List, [], ◌∷◌, Option, none, some, Bool, true, false, ◌&&◌, ◌||◌, ◌≡◌, ◌≢◌,
  refl, arith, str_eq, if◌then◌else◌, ltb, ◌==◌, map, eq_iff, All,
}
use gosplash.Prelude.Int.{pos, negsuc}
use gosplash.Catalog.Db.{ListingRow}
use gosplash.Catalog.Cursor.{CursorLib, has_bar}
use gosplash.Catalog.Feed.{
  FeedEnv, FeedTables, Listing, order_rows, where_rows, is_wanted, precedes, thumbnails_of,
}
use gosplash.Catalog.Feed.Order.{StrictOrder, Distinct}
use gosplash.Catalog.Feed.Reading.{read_feed, Shown, Grown, kept, published, unchanged}
use gosplash.Catalog.Feed.Complete.{feed_complete}
use Prim.Native.Char.{code}
use text.Mathlib.TextEquality.{Char-path}

-- Texts in the order of their code points.
unfoldable text_lt : String → String → Bool
text_lt String.[] String.[] = false
text_lt String.[] (String.◌∷◌ d t) = true
text_lt (String.◌∷◌ c s) String.[] = false
text_lt (String.◌∷◌ c s) (String.◌∷◌ d t) =
    ltb (code c) (code d) || (code c == code d && text_lt s t)

text_lt_irrefl : (s : String) → text_lt s s ≡ false
unfolding text_lt
text_lt_irrefl String.[] = refl
text_lt_irrefl (String.◌∷◌ c s) = ground (arith, text_lt_irrefl s)

text_lt_trans : (s t u : String) → text_lt s t ≡ true → text_lt t u ≡ true → text_lt s u ≡ true
unfolding text_lt
text_lt_trans s String.[] String.[] h k = cc
text_lt_trans String.[] t (String.◌∷◌ e u) h k = refl
text_lt_trans (String.◌∷◌ c s) String.[] u h k = cc
text_lt_trans s (String.◌∷◌ d t) String.[] h k = cc
text_lt_trans (String.◌∷◌ c s) (String.◌∷◌ d t) (String.◌∷◌ e u) h k =
    ground (arith, text_lt_trans s t u)

text_lt_total : (s t : String) → text_lt s t ≡ false → text_lt t s ≡ false → s ≡ t
unfolding text_lt
text_lt_total String.[] String.[] h k = refl
text_lt_total String.[] (String.◌∷◌ d t) h k = cc
text_lt_total (String.◌∷◌ c s) String.[] h k = cc
text_lt_total (String.◌∷◌ c s) (String.◌∷◌ d t) h k =
    ground (arith, Char-path c d, text_lt_total s t)

text_order : StrictOrder text_lt
text_order = record { irrefl = text_lt_irrefl; trans = text_lt_trans; total = text_lt_total }

-- Two times, and a base64 that leaves its text alone.
abbrev few : CursorLib
few = record {
  encode64 = λ s. s;
  decode64 = λ s. some s;
  format_int = λ n. elim n [ pos k ↦ if k == 1 then "1" else "2" | negsuc k ↦ "-" ];
  parse_int = λ s. some (if str_eq s "1" then pos 1 else pos 2);
  unix_nano = λ t. if str_eq t "t1" then pos 1 else pos 2;
  unix = λ n. elim n [ pos k ↦ if k == 1 then "t1" else "t2" | negsuc k ↦ "" ];
}

abbrev feed_env : FeedEnv
feed_env = record {
  time_lt = text_lt;
  uuid_lt = text_lt;
  lib = few;
  unmarshal_thumbnails = λ s. none;
}

abbrev listing : String → String → ListingRow
listing i t = record {
  id = i;
  author_id = pos 1;
  title = "";
  tags = "sea" ∷ [];
  storage_key = "";
  thumbnails = "";
  price_cents = pos 100;
  currency = "RUB";
  status = "published";
  published_at = some t;
  width = pos 0;
  height = pos 0;
}

-- Three rows, two of one time; the second page finds one more.
abbrev three : List ListingRow
three = listing "a" "t1" ∷ listing "c" "t1" ∷ listing "b" "t1" ∷ []

abbrev tables_at : ℕ → FeedTables
tables_at zero = record { listings = three; authors = [] }
tables_at (suc k) = record { listings = listing "d" "t2" ∷ three; authors = [] }

ids_of : Option (List Listing) → List String
ids_of none = []
ids_of (some ls) = map (λ l. l.row.id) ls

three_pages :
    ids_of (read_feed feed_env (pos 1) ("sea" ∷ []) tables_at 4 0 "") ≡ "c" ∷ "b" ∷ "a" ∷ []
unfolding ids_of read_feed precedes text_lt
three_pages = refl

text_ne : (s t : String) → str_eq s t ≡ false → s ≢ t
text_ne s t h e = ground (arith, eq_iff s t)

listing-Shown : (i : String) → i ≢ "" → Shown feed_env (listing i "t1")
unfolding has_bar thumbnails_of
listing-Shown i h = record {
  at = "t1";
  timed = refl;
  carried = record {
    base64 = λ s. refl;
    nonempty = λ s e. e;
    number = refl;
    plain = refl;
    time = refl;
  };
  named = h;
  readable = ([], refl);
}

tables_at-Grown :
    (k : ℕ)
    → Grown feed_env three three
        (where_rows (is_wanted feed_env ("sea" ∷ [])) (tables_at k).listings)
unfolding where_rows is_wanted precedes text_lt
tables_at-Grown zero = kept _ (kept _ (kept _ unchanged))
tables_at-Grown (suc k) =
    published _ (refl, (refl, (refl, tt))) (kept _ (kept _ (kept _ unchanged)))

three-Shown : All (Shown feed_env) three
three-Shown = (
  listing-Shown "a" (text_ne "a" "" refl),
  (listing-Shown "c" (text_ne "c" "" refl), (listing-Shown "b" (text_ne "b" "" refl), tt)),
)

three-Distinct : Distinct three
three-Distinct =
    ((text_ne "a" "c" refl, (text_ne "a" "b" refl, tt)), ((text_ne "c" "b" refl, tt), (tt, tt)))

feed_complete_example :
    (ls : List Listing) × (read_feed feed_env (pos 1) ("sea" ∷ []) tables_at 4 0 "" ≡ some ls)
    × (map (λ l. l.row) ls
        ≡ order_rows feed_env (where_rows (is_wanted feed_env ("sea" ∷ [])) three))
unfolding order_rows precedes text_lt where_rows is_wanted
feed_complete_example =
    feed_complete feed_env (pos 1) ("sea" ∷ []) tables_at 4 text_order text_order three-Distinct
      three-Shown tables_at-Grown (omega arith)
