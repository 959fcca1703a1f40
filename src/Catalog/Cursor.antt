-- ===== src/Catalog/Cursor.antt =====
-- Cursors of the feed: services/catalog/internal/adapters/pg/cursor.go. `base64`, `strconv` and
-- `time` are parameters.
use gosplash.Prelude.{
  String, Option, none, some, ◌≡◌, ◌==◌, if◌then◌else◌, ap, ◌≢◌, str_eq, Bool, false, ◌||◌, arith,
  eq_iff, Bool-cases, inl, inr,
}
use gosplash.Prelude.Int.{ℤ}
use Prim.Native.Char.{code, Char}
use text.Mathlib.TextLemmas.{cons-append, nil-append, append-eq-nil_iff, cons≢nil}
use Prim.Native.String.{◌++◌ as append}

-- The libraries that a cursor goes through; none is an error. A time is a text of the column
-- `published_at`.
pub record CursorLib : Type 0 where
  pub encode64 : String → String
  pub decode64 : String → Option String
  pub format_int : ℤ → String
  pub parse_int : String → Option ℤ
  pub unix_nano : String → ℤ
  pub unix : ℤ → String

-- `pageCursor`
pub record PageCursor : Type 0 where
  pub published_at : String
  pub id : String

-- `strings.SplitN(s, "|", 2)`, if it has two parts.
unfoldable pub put_first : Option (String × String) → Char → Option (String × String)
put_first none c = none
put_first (some (a, b)) c = some (String.◌∷◌ c a, b)

unfoldable pub split_bar : String → Option (String × String)
unfolding put_first
split_bar String.[] = none
split_bar (String.◌∷◌ c s) =
    let rest = put_first (split_bar s) c in if code c == b'|' then some ("", s) else rest

module _ (lib : CursorLib) where
  unfoldable pub encode_cursor : PageCursor → String
  encode_cursor c =
      lib.encode64 (append (lib.format_int (lib.unix_nano c.published_at)) (append "|" c.id))

  -- The two parts of a cursor.
  unfoldable pub read_parts : String × String → Option PageCursor
  read_parts (at, i) = elim (lib.parse_int at) [
    | none ↦ none
    | some ns ↦ if str_eq i "" then none else some (record { published_at = lib.unix ns; id = i })
  ]

  unfoldable pub read_text : Option (String × String) → Option PageCursor
  unfolding read_parts
  read_text none = none
  read_text (some p) = read_parts p

  unfoldable pub decode_cursor : String → Option PageCursor
  unfolding read_text split_bar
  decode_cursor s = elim (lib.decode64 s) [ none ↦ none | some raw ↦ read_text (split_bar raw) ]

-- No bar in a text.
unfoldable pub has_bar : String → Bool
has_bar String.[] = false
has_bar (String.◌∷◌ c s) = code c == b'|' || has_bar s

-- What a decoded cursor owes to the libraries: a time in the range of UnixNano is read back, and
-- an integer is written without a bar.
pub record ReadsBack (lib : CursorLib) (t : String) : Type 0 where
  pub base64 : (s : String) → lib.decode64 (lib.encode64 s) ≡ some s
  pub nonempty : (s : String) → lib.encode64 s ≡ "" → s ≡ ""
  pub number : lib.parse_int (lib.format_int (lib.unix_nano t)) ≡ some (lib.unix_nano t)
  pub plain : has_bar (lib.format_int (lib.unix_nano t)) ≡ false
  pub time : lib.unix (lib.unix_nano t) ≡ t

split_bar-append :
    (a b : String) → has_bar a ≡ false → split_bar (append a (append "|" b)) ≡ some (a, b)
unfolding split_bar has_bar put_first
split_bar-append String.[] b h =
    rw (nil-append (append "|" b)) (rw (cons-append "|" "" b) (rw (nil-append b)))
split_bar-append (String.◌∷◌ c s) b h = elim (Bool-cases (code c == b'|')) [
  | inl bar ↦ absurd (ground arith)
  | inr other ↦ rw (cons-append c s (append "|" b)) (
      rw (other, split_bar)
        (ap (λ p. put_first p c) (split_bar-append s b (rw (other, has_bar) at h))))
]

pub str_eq-ne : (s t : String) → s ≢ t → str_eq s t ≡ false
str_eq-ne s t h = elim (Bool-cases (str_eq s t)) [
  | inl e ↦ absurd (h ((eq_iff s t).0 e))
  | inr e ↦ e
]

-- A cursor is read back, and is not the empty text that stands for the first page.
pub decode_cursor-encode_cursor :
    (lib : CursorLib) (c : PageCursor)
    → ReadsBack lib c.published_at
    → c.id ≢ ""
    → decode_cursor lib (encode_cursor lib c) ≡ some c
unfolding decode_cursor encode_cursor
decode_cursor-encode_cursor lib c r h =
    let raw = append (lib.format_int (lib.unix_nano c.published_at)) (append "|" c.id) in
    let parts = split_bar-append (lib.format_int (lib.unix_nano c.published_at)) c.id r.plain in
    let given : str_eq c.id "" ≡ false = str_eq-ne c.id "" h in
    rw (r.base64 raw, decode_cursor)
      (rw parts (rw (r.number, read_parts) (rw (given) (rw (r.time)))))

bar-ne : (s : String) → append "|" s ≢ ""
bar-ne s e = cons≢nil (append-eq-nil_iff.0 e).0

pub encode_cursor-ne :
    (lib : CursorLib) (c : PageCursor) → ReadsBack lib c.published_at → encode_cursor lib c ≢ ""
unfolding encode_cursor
encode_cursor-ne lib c r e =
    let raw = append (lib.format_int (lib.unix_nano c.published_at)) (append "|" c.id) in
    let empty = (append-eq-nil_iff.0 (r.nonempty raw e)).1 in absurd (bar-ne c.id empty)
