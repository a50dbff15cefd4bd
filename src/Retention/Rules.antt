-- ===== src/Retention/Rules.antt =====
-- `_parse_rules` of src/benji/retentionfilter.py: a policy such as "latest3,days7" as rules in the order
-- of the valid categories.
pub mod Sound
use benji.Prelude.{
  ℕ, ◌==◌, Bool, false, ◌&&◌, ◌||◌, not, Option, none, some, List, [], ◌∷◌, ◌++◌, Text, codes,
  text_eq, leb, is_some, if◌then◌else◌,
}
use benji.NavList.Decimal.{is_digit, read_digits}
use benji.Retention.{Category, latest, every, hours, days, weeks, months, years, Rules, lookup}

-- The exceptions: all are a ValueError but the last, which is a UsageError.
pub data RuleError : Type 0 where
  empty_element invalid_element invalid_category listed_twice not_positive : RuleError

pub data Parsed {ℓ} (A : Type ℓ) : Type ℓ where
  parsed : A → Parsed A
  failed : RuleError → Parsed A

-- `text.split(',')`
abbrev onto_first : ℕ → List Text → List Text
onto_first c [] = (c ∷ []) ∷ []
onto_first c (t ∷ ts) = (c ∷ t) ∷ ts

unfoldable pub split : Text → List Text
split [] = [] ∷ []
split (c ∷ s) = let rest = split s in if c == b',' then [] ∷ rest else onto_first c rest

abbrev is_letter : ℕ → Bool
is_letter c = leb b'a' c && leb c b'z'

-- The letters that a text begins with, and what is left.
abbrev span_letters : Text → Text × Text
span_letters [] = ([], [])
span_letters (c ∷ s) =
    let (letters, rest) = span_letters s in if is_letter c then (c ∷ letters, rest) else ([], c ∷ s)

-- `$` stands for the end of the text, or for a line feed that ends it.
abbrev is_end : Text → Bool
is_end s = text_eq s [] || text_eq s (10 ∷ [])

abbrev starts_with_digit : Text → Bool
starts_with_digit [] = false
starts_with_digit (c ∷ s) = is_digit c

-- `re.search(r'^([a-z]+)([0-9]+)$', token)`, with the second group as a number.
unfoldable pub match_element : Text → Option (Text × ℕ)
match_element token =
    let (name, rest) = span_letters token in
    let (timecount, end) = read_digits 0 rest in
    if not (text_eq name []) && starts_with_digit rest && is_end end
    then some (name, timecount)
    else none

-- `_valid_categories`
abbrev pub valid_categories : List (Text × Category)
valid_categories =
    (codes "latest", latest)
    ∷ (codes "hours", every hours)
    ∷ (codes "days", every days)
    ∷ (codes "weeks", every weeks)
    ∷ (codes "months", every months)
    ∷ (codes "years", every years)
    ∷ []

abbrev pub find_category : List (Text × Category) → Text → Option Category
find_category [] name = none
find_category ((n, c) ∷ more) name =
    let rest = find_category more name in if text_eq n name then some c else rest

-- One token of the loop, in front of the rules that are read already.
unfoldable pub read_element : Text → Rules → Parsed Rules
read_element token rules =
    if text_eq token [] then failed empty_element else elim (match_element token) [
      | none ↦ failed invalid_element
      | some (name, timecount) ↦ elim (find_category valid_categories name) [
        | none ↦ failed invalid_category
        | some category ↦
            if is_some (lookup category rules)
            then failed listed_twice
            else if leb timecount 0
            then failed not_positive
            else parsed (rules ++ (category, timecount) ∷ [])
      ]
    ]

unfoldable pub read_elements : List Text → Rules → Parsed Rules
read_elements [] rules = parsed rules
read_elements (token ∷ tokens) rules = elim (read_element token rules) [
  | failed e ↦ failed e
  | parsed more ↦ read_elements tokens more
]

-- The rules in the order of the valid categories.
unfoldable pub arrange : List (Text × Category) → Rules → Rules
arrange [] rules = []
arrange ((_, c) ∷ more) rules =
    let rest = arrange more rules in
    elim (lookup c rules) [ none ↦ rest | some timecount ↦ (c, timecount) ∷ rest ]

unfoldable pub parse_rules : Text → Parsed Rules
parse_rules spec = elim (read_elements (split spec) []) [
  | failed e ↦ failed e
  | parsed rules ↦ parsed (arrange valid_categories rules)
]
