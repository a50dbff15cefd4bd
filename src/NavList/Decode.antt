-- ===== src/NavList/Decode.antt =====
-- A reader for the markup of `navList`: what a browser has to find in it. It is written against
-- the form of the markup, and not against the function that makes it.
use benji.Prelude.{
  ℕ, zero, suc, ◌≡◌, Option, none, some, [], ◌∷◌, List, ◌++◌, arith, Text, codes, ◌==◌,
  strip_prefix, if◌then◌else◌, ◌≢◌,
}
use benji.NavList.Decimal.{read_digits}

-- A link as the markup shows it.
pub record Link : Type 0 where
  pub depth : ℕ
  pub indent : ℕ
  pub target : Option Text
  pub href : Option Text
  pub text : Text

infixl 5 ◌>>=◌
abbrev pub ◌>>=◌ {ℓ κ} : {A : Type ℓ} {B : Type κ} → Option A → (A → Option B) → Option B
none >>= k = none
some a >>= k = k a

-- The text up to a stop character, and the rest with it.
unfoldable pub read_until : ℕ → Text → Text × Text
read_until stop [] = ([], [])
read_until stop (c ∷ s) =
    let (word, rest) = read_until stop s in if c == stop then ([], c ∷ s) else (c ∷ word, rest)

-- An attribute in quotes, if its opening is there.
abbrev read_value : Text → Option (Option Text × Text)
read_value s = do
  let (v, rest) = read_until b'"' s
  s' ← strip_prefix (codes "\"") rest
  some (some v, s')

unfoldable pub read_attribute : Text → Text → Option (Option Text × Text)
read_attribute opening s = elim (strip_prefix opening s) [
  | none ↦ some (none, s)
  | some found ↦ read_value found
]

unfoldable pub read_link : Text → Option (Link × Text)
read_link s₀ = do
  s₁ ← strip_prefix (codes "<a class=\"link depth-") s₀
  let (depth, s₂) = read_digits 0 s₁
  s₃ ← strip_prefix (codes "\"") s₂
  (target, s₄) ← read_attribute (codes " target=\"") s₃
  (href, s₅) ← read_attribute (codes " href=\"") s₄
  s₆ ← strip_prefix (codes "><span class=\"indent-") s₅
  let (indent, s₇) = read_digits 0 s₆
  s₈ ← strip_prefix (codes "\"></span>") s₇
  let (text, s₉) = read_until b'<' s₈
  rest ← strip_prefix (codes "</a>") s₉
  some (record { depth = depth; indent = indent; target = target; href = href; text = text }, rest)

-- Reads links to the end of the text, with fuel for one more than there are links.
unfoldable pub read_links : ℕ → Text → Option (List Link)
read_links zero s = none
read_links (suc fuel) [] = some []
read_links (suc fuel) (c ∷ s) = do
  (l, rest) ← read_link (c ∷ s)
  ls ← read_links fuel rest
  some (l ∷ ls)

abbrev pub Avoids : ℕ → Text → Type 0
Avoids stop [] = Unit
Avoids stop (c ∷ s) = (c ≢ stop) × Avoids stop s

pub read_until-append :
    (stop : ℕ) (word rest : Text)
    → Avoids stop word
    → read_until stop (word ++ stop ∷ rest) ≡ (word, stop ∷ rest)
unfolding read_until
read_until-append stop [] rest h = ground arith
read_until-append stop (c ∷ word) rest (p, h) =
    rw (read_until-append stop word rest h) (ground arith)
