-- ===== src/Placeholder/Names.antt =====
-- The names of the text fields that stand in for password fields: `/-polyfill-field$/`,
-- `.replace('-polyfill-field', '')` and the case-insensitive `.replace(/…/i, …)`.
use benji.Prelude.{
  ℕ, ◌+◌, ◌==◌, ◌≡◌, refl, ◌∙◌, ap, Bool, true, false, ◌&&◌, ◌||◌, Option, none, some, [], ◌∷◌,
  ◌++◌, arith, Text, codes, text_eq, text_eq_refl, strip_prefix, leb, if◌then◌else◌, is_some,
}
use benji.Placeholder.{suffix}

-- `text.match(/end$/)`, for an end without special characters.
unfoldable pub ends_with : Text → Text → Bool
ends_with end [] = text_eq [] end
ends_with end (c ∷ s) = text_eq (c ∷ s) end || ends_with end s

-- `text.replace(part, by)` replaces the first occurrence, where there is one.
unfoldable pub replace_first : Text → Text → Text → Text
replace_first part by [] = elim (strip_prefix part []) [ none ↦ [] | some rest ↦ by ++ rest ]
replace_first part by (c ∷ s) =
    let later = c ∷ replace_first part by s in
    elim (strip_prefix part (c ∷ s)) [ none ↦ later | some rest ↦ by ++ rest ]

abbrev pub occurs : Text → Text → Bool
occurs part [] = is_some (strip_prefix part [])
occurs part (c ∷ s) = is_some (strip_prefix part (c ∷ s)) || occurs part s

-- Letters of ASCII, with upper case as lower case.
abbrev lower : ℕ → ℕ
lower c = if leb b'A' c && leb c b'Z' then c + 32 else c

abbrev strip_prefix_ci : Text → Text → Option Text
strip_prefix_ci [] s = some s
strip_prefix_ci (_ ∷ _) [] = none
strip_prefix_ci (a ∷ pre) (b ∷ s) = if lower a == lower b then strip_prefix_ci pre s else none

-- `text.replace(/part/i, by)`, for a part that is not empty.
unfoldable pub replace_first_ci : Text → Text → Text → Text
replace_first_ci part by [] = []
replace_first_ci part by (c ∷ s) =
    let later = c ∷ replace_first_ci part by s in
    elim (strip_prefix_ci part (c ∷ s)) [ none ↦ later | some rest ↦ by ++ rest ]

pub ends_with-append : (end s : Text) → ends_with end (s ++ end) ≡ true
unfolding ends_with
ends_with-append [] [] = refl
ends_with-append (c ∷ end) [] = ground (arith, text_eq_refl end)
ends_with-append end (c ∷ s) = ground (arith, ends_with-append end s)

-- Each of the ends of `pre` that is not empty does not begin `part`.
abbrev NoneBegins : Text → Text → Type 0
NoneBegins part [] = Unit
NoneBegins part (a ∷ pre) = (strip_prefix (a ∷ pre) part ≡ none) × NoneBegins part pre

straddle :
    (part pre s : Text)
    → NoneBegins part pre
    → strip_prefix pre s ≡ none
    → strip_prefix pre (s ++ part) ≡ none
straddle part [] s n h = cc
straddle part (a ∷ pre) [] n h = n.0
straddle part (a ∷ pre) (b ∷ s) n h = ground (arith, straddle part pre s n.1)

-- No end of the suffix is a beginning of it.
suffix-NoneBegins : NoneBegins suffix (codes "polyfill-field")
suffix-NoneBegins = ground arith

or_false : (a b : Bool) → (a || b) ≡ false → (a ≡ false) × (b ≡ false)
or_false a b h = ground arith

straddle_cons :
    (part pre s : Text) (a c : ℕ)
    → NoneBegins part pre
    → is_some (strip_prefix (a ∷ pre) (c ∷ s)) ≡ false
    → strip_prefix (a ∷ pre) (c ∷ (s ++ part)) ≡ none
straddle_cons part pre s a c n h = ground (arith, straddle part pre s n)

replace_first_miss :
    (part by s : Text) (c : ℕ)
    → strip_prefix part (c ∷ s) ≡ none
    → replace_first part by (c ∷ s) ≡ c ∷ replace_first part by s
unfolding replace_first
replace_first_miss part by s c h = rw (replace_first, h)

-- A name that does not hold the suffix already is what is left when the suffix is put behind it and
-- the first occurrence of the suffix is taken away.
pub replace_first-suffix :
    (name : Text) → occurs suffix name ≡ false → replace_first suffix [] (name ++ suffix) ≡ name
replace_first-suffix [] h = unfold replace_first in refl
replace_first-suffix (c ∷ name) h =
    let (here, later) =
      or_false (is_some (strip_prefix suffix (c ∷ name))) (occurs suffix name) h in
    replace_first_miss suffix [] (name ++ suffix) c
      (straddle_cons suffix (codes "polyfill-field") name b'-' c suffix-NoneBegins here)
    ∙ ap (λ s. c ∷ s) (replace_first-suffix name later)
