-- ===== src/Outbox/Ident.antt =====
-- The table of a service: `TableFor` and `sanitizeIdent` of pkg/outbox/model.go. A text is the list
-- of its code points, as Go ranges over it.
use gosplash.Prelude.{
  ℕ, ◌+◌, List, [], ◌∷◌, ◌++◌, Bool, true, ◌&&◌, ◌||◌, leb, ◌==◌, if◌then◌else◌, map, ◌≡◌, refl,
  arith, All, String, ap, ◌-◌,
}
use Prim.Native.Char.{code}

-- The code points of a literal.
abbrev pub codes : String → List ℕ
codes String.[] = []
codes (String.◌∷◌ c s) = code c ∷ codes s

abbrev pub between : ℕ → ℕ → ℕ → Bool
between lo hi r = leb lo r && leb r hi

-- A small letter, a digit or an underscore; and a capital letter.
unfoldable pub is_plain : ℕ → Bool
is_plain r = between 97 122 r || (between 48 57 r || r == 95)

unfoldable pub is_capital : ℕ → Bool
is_capital r = between 65 90 r

unfoldable pub sanitize_rune : ℕ → ℕ
unfolding is_plain is_capital
sanitize_rune r = if is_plain r then r else if is_capital r then r + (97 - 65) else 95

-- `sanitizeIdent`
unfoldable pub sanitize_ident : List ℕ → List ℕ
unfolding sanitize_rune
sanitize_ident s = map sanitize_rune s

-- `TableFor`
unfoldable pub table_for : List ℕ → List ℕ
unfolding sanitize_ident
table_for service = codes "outbox_" ++ sanitize_ident service

sanitize_rune-is_plain : (r : ℕ) → is_plain (sanitize_rune r) ≡ true
unfolding sanitize_rune is_plain is_capital
sanitize_rune-is_plain r = ground arith

sanitize_rune-eq : (r : ℕ) → is_plain r ≡ true → sanitize_rune r ≡ r
unfolding sanitize_rune is_plain is_capital
sanitize_rune-eq r h = ground arith

All-append :
    (xs ys : List ℕ)
    → All (λ r. is_plain r ≡ true) xs
    → All (λ r. is_plain r ≡ true) ys
    → All (λ r. is_plain r ≡ true) (xs ++ ys)
All-append [] ys _ hy = hy
All-append (x ∷ xs) ys (px, hx) hy = (px, All-append xs ys hx hy)

sanitize_ident-plain : (s : List ℕ) → All (λ r. is_plain r ≡ true) (sanitize_ident s)
unfolding sanitize_ident
sanitize_ident-plain [] = tt
sanitize_ident-plain (r ∷ s) = (sanitize_rune-is_plain r, sanitize_ident-plain s)

sanitize_ident-eq : (s : List ℕ) → All (λ r. is_plain r ≡ true) s → sanitize_ident s ≡ s
unfolding sanitize_ident
sanitize_ident-eq [] _ = refl
sanitize_ident-eq (r ∷ s) (h, hs) =
    rw (sanitize_rune-eq r h) (ap (λ t. r ∷ t) (sanitize_ident-eq s hs))

prefix-plain : All (λ r. is_plain r ≡ true) (codes "outbox_")
unfolding is_plain
prefix-plain = (refl, (refl, (refl, (refl, (refl, (refl, (refl, tt)))))))

-- The name of a table, put into SQL as text, consists of small letters, digits and underscores
-- whatever the service is called; and a name of a service that consists of such characters is
-- itself what follows "outbox_".
pub table_for-plain :
    (service : List ℕ)
    → All (λ r. is_plain r ≡ true) (table_for service)
      × (All (λ r. is_plain r ≡ true) service → table_for service ≡ codes "outbox_" ++ service)
unfolding table_for
table_for-plain service = (
  All-append (codes "outbox_") (sanitize_ident service) prefix-plain (sanitize_ident-plain service),
  λ h. ap (λ s. codes "outbox_" ++ s) (sanitize_ident-eq service h),
)
