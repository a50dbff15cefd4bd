-- ===== src/Retention/Rules/Sound.antt =====
-- What a policy that is accepted means.
use benji.Prelude.{
  ℕ, ◌<◌, ◌≡◌, refl, sym, ◌∙◌, Bool, true, false, ◌||◌, none, some, List, [], ◌∷◌, ◌++◌, arith,
  Text, text_eq, if◌then◌else◌, Option-cases, Bool-cases, inl, inr, ◌⊎◌, All, All-append, All-map,
}
use benji.Retention.{
  Category, latest, every, hours, days, weeks, months, years, Rules, category_eq, rank, lookup,
}
use benji.Retention.Rules.{
  RuleError, Parsed, parsed, failed, split, match_element, valid_categories, find_category,
  read_element, read_elements, arrange, parse_rules,
}

abbrev pub IsPositive : Category × ℕ → Type 0
IsPositive rule = 0 < rule.1

-- An element is a category with a positive count, and the rules have that count for it.
abbrev pub IsInForce : Rules → Text → Type 0
IsInForce rules token =
    (name : Text) × (n : ℕ) × (c : Category) × (match_element token ≡ some (name, n))
    × (find_category valid_categories name ≡ some c)
    × (lookup c rules ≡ some n)
    × (0 < n)

-- In the order of the valid categories, each at most once.
abbrev pub IsRising : Rules → Type 0
IsRising [] = Unit
IsRising ((c, n) ∷ rules) = All (λ r. rank c < rank r.0) rules × IsRising rules

lookup-append :
    (c : Category) (n : ℕ) (xs ys : Rules) → lookup c xs ≡ some n → lookup c (xs ++ ys) ≡ some n
lookup-append c n [] ys h = cc
lookup-append c n ((d, m) ∷ xs) ys h = ground (arith, lookup-append c n xs ys)

lookup-last :
    (c : Category) (n : ℕ) (xs : Rules) → lookup c xs ≡ none → lookup c (xs ++ (c, n) ∷ []) ≡ some n
lookup-last c n [] h = ground arith
lookup-last c n ((d, m) ∷ xs) h = ground (arith, lookup-last c n xs)

abbrev Read : Text → Rules → Rules → Type 0
Read token rules more =
    (name : Text) × (n : ℕ) × (c : Category) × (match_element token ≡ some (name, n))
    × (find_category valid_categories name ≡ some c)
    × (lookup c rules ≡ none)
    × (0 < n)
    × (more ≡ rules ++ (c, n) ∷ [])

read_element_sound :
    (token : Text) (rules more : Rules)
    → read_element token rules ≡ parsed more
    → Read token rules more
unfolding read_element
read_element_sound token rules more h = elim (Bool-cases (text_eq token [])) [
  | inl e ↦ ground arith
  | inr e ↦ elim (Option-cases (match_element token)) [
    | inl m ↦ ground arith
    | inr ((name, n), m) ↦ elim (Option-cases (find_category valid_categories name)) [
      | inl f ↦ ground arith
      | inr (c, f) ↦ elim (Option-cases (lookup c rules)) [
        | inr (k, l) ↦ ground arith
        | inl l ↦
            let positive : 0 < n = ground arith in
            let same : more ≡ rules ++ (c, n) ∷ [] = ground arith in
            (name, n, c, m, f, l, positive, same)
      ]
    ]
  ]
]

Parsed-cases :
    {A : Type 0} (r : Parsed A) → ((e : RuleError) × (r ≡ failed e)) ⊎ ((a : A) × (r ≡ parsed a))
Parsed-cases (failed e) = inl (e, refl)
Parsed-cases (parsed a) = inr (a, refl)

-- What reading the tokens onto some rules gives.
abbrev Grows : List Text → Rules → Rules → Type 0
Grows tokens rules final =
    ((c : Category) (n : ℕ) → lookup c rules ≡ some n → lookup c final ≡ some n)
    × All (IsInForce final) tokens
    × (All IsPositive rules → All IsPositive final)

read_elements_sound :
    (tokens : List Text) (rules final : Rules)
    → read_elements tokens rules ≡ parsed final
    → Grows tokens rules final
unfolding read_elements
read_elements_sound [] rules final h =
    let same : rules ≡ final = ground arith in (rw same (λ c n l. l), tt, rw same (λ p. p))
read_elements_sound (token ∷ tokens) rules final h =
    elim (Parsed-cases (read_element token rules)) [
      | inl (e, r) ↦ ground arith
      | inr (more, r) ↦
          let further : read_elements tokens more ≡ parsed final = ground arith in
          let (kept, in_force, positive) = read_elements_sound tokens more final further in
          let (name, n, c, m, f, l, p, same) = read_element_sound token rules more r in
          let there : lookup c more ≡ some n = rw same (lookup-last c n rules l) in
          (
            (λ d k here. kept d k (rw same (lookup-append d k rules ((c, n) ∷ []) here))),
            ((name, n, c, m, f, kept c n there, p), in_force),
            (λ ps. positive (rw same (All-append IsPositive rules ((c, n) ∷ []) ps (p, tt)))),
          )
    ]

abbrev listed : Category → List (Text × Category) → Bool
listed c [] = false
listed c ((_, d) ∷ more) = category_eq c d || listed c more

lookup-same :
    (c d : Category) (rules : Rules) → category_eq c d ≡ true → lookup c rules ≡ lookup d rules
lookup-same c d [] h = refl
lookup-same c d ((b, n) ∷ rules) h = ground (arith, lookup-same c d rules)

lookup-arrange :
    (c : Category) (categories : List (Text × Category)) (rules : Rules)
    → lookup c (arrange categories rules) ≡ (if listed c categories then lookup c rules else none)
unfolding arrange
lookup-arrange c [] rules = refl
lookup-arrange c ((t, d) ∷ more) rules = elim (Option-cases (lookup d rules)) [
  | inl e ↦ ground (arith, lookup-arrange c more rules, lookup-same c d rules)
  | inr (n, e) ↦ ground (arith, lookup-arrange c more rules, lookup-same c d rules)
]

every_listed : (c : Category) → listed c valid_categories ≡ true
every_listed latest = refl
every_listed (every hours) = refl
every_listed (every days) = refl
every_listed (every weeks) = refl
every_listed (every months) = refl
every_listed (every years) = refl

lookup-IsPositive :
    (c : Category) (n : ℕ) (rules : Rules) → All IsPositive rules → lookup c rules ≡ some n → 0 < n
lookup-IsPositive c n [] ps h = cc
lookup-IsPositive c n ((d, m) ∷ rules) (p, ps) h = ground (arith, lookup-IsPositive c n rules ps)

arrange-none :
    (t : Text) (c : Category) (more : List (Text × Category)) (rules : Rules)
    → lookup c rules ≡ none
    → arrange ((t, c) ∷ more) rules ≡ arrange more rules
unfolding arrange
arrange-none t c more rules e = ground arith

arrange-some :
    (t : Text) (c : Category) (n : ℕ) (more : List (Text × Category)) (rules : Rules)
    → lookup c rules ≡ some n
    → arrange ((t, c) ∷ more) rules ≡ (c, n) ∷ arrange more rules
unfolding arrange
arrange-some t c n more rules e = ground arith

All-arrange :
    (P : Category × ℕ → Type 0) (categories : List (Text × Category)) (rules : Rules)
    → All (λ t. (n : ℕ) → lookup t.1 rules ≡ some n → P (t.1, n)) categories
    → All P (arrange categories rules)
unfolding arrange
All-arrange P [] rules h = tt
All-arrange P ((t, c) ∷ more) rules (p, h) = elim (Option-cases (lookup c rules)) [
  | inl e ↦ rw (arrange-none t c more rules e) (All-arrange P more rules h)
  | inr (n, e) ↦ rw (arrange-some t c n more rules e) (p n e, All-arrange P more rules h)
]

All-always :
    (P : Text × Category → Type 0) (xs : List (Text × Category))
    → ((x : Text × Category) → P x)
    → All P xs
All-always P [] f = tt
All-always P (x ∷ xs) f = (f x, All-always P xs f)

abbrev AreRising : List (Text × Category) → Type 0
AreRising [] = Unit
AreRising ((_, c) ∷ more) = All (λ t. rank c < rank t.1) more × AreRising more

arrange-IsRising :
    (categories : List (Text × Category)) (rules : Rules)
    → AreRising categories
    → IsRising (arrange categories rules)
unfolding arrange
arrange-IsRising [] rules h = tt
arrange-IsRising ((t, c) ∷ more) rules (above, h) = elim (Option-cases (lookup c rules)) [
  | inl e ↦ rw (arrange-none t c more rules e) (arrange-IsRising more rules h)
  | inr (n, e) ↦ rw (arrange-some t c n more rules e) (
    All-arrange (λ r. rank c < rank r.0) more rules (All-map more (λ t l m _. l) above),
    arrange-IsRising more rules h,
  )
]

-- A policy that is accepted: every element of it, between the commas, is a valid category with a
-- positive count, and that count is the one that the rules have for the category. The rules are in
-- the order of the valid categories, none is there twice, and every count is positive.
pub parse_rules_sound :
    (spec : Text) (rules : Rules)
    → parse_rules spec ≡ parsed rules
    → All (IsInForce rules) (split spec) × IsRising rules × All IsPositive rules
unfolding parse_rules
parse_rules_sound spec rules h = elim (Parsed-cases (read_elements (split spec) [])) [
  | inl (e, r) ↦ ground arith
  | inr (read, r) ↦
      let same : arrange valid_categories read ≡ rules = ground arith in
      let (_, in_force, positive) = read_elements_sound (split spec) [] read r in
      let found : (c : Category) → lookup c (arrange valid_categories read) ≡ lookup c read =
        λ c. lookup-arrange c valid_categories read ∙ rw (every_listed c) refl in
      rw (sym same) (
        All-map (split spec) (λ t f. (f.0, f.1, f.2, f.3, f.4, found f.2 ∙ f.5, f.6)) in_force,
        arrange-IsRising valid_categories read (ground arith),
        All-arrange IsPositive valid_categories read (
            All-always (λ t. (n : ℕ) → lookup t.1 read ≡ some n → 0 < n) valid_categories
              (λ t n l. lookup-IsPositive t.1 n read (positive tt) l)),
      )
]
