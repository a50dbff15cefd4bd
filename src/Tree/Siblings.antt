-- ===== src/Tree/Siblings.antt =====
-- Lists of siblings: the one before an element, and an element put behind another.
use benji.Prelude.{
  ℕ, ◌==◌, ◌≡◌, refl, true, false, Option, none, some, List, [], ◌∷◌, ◌++◌, arith, Bool-cases, inl,
  inr, if◌then◌else◌, contains, remove, remove_absent, IsNodup, contains-append, ==_refl,
}

-- The element before `e`, where `last` stands before the list.
abbrev pub before_from : Option ℕ → ℕ → List ℕ → Option ℕ
before_from last e [] = none
before_from last e (x ∷ xs) = let rest = before_from (some x) e xs in if e == x then last else rest

abbrev pub before : ℕ → List ℕ → Option ℕ
before = before_from none

-- `e` directly behind `a`.
abbrev pub insert_behind : ℕ → ℕ → List ℕ → List ℕ
insert_behind a e [] = []
insert_behind a e (x ∷ xs) =
    let rest = insert_behind a e xs in if a == x then x ∷ e ∷ xs else x ∷ rest

contains_of_before :
    (x e b : ℕ) (xs : List ℕ) → before_from (some x) e xs ≡ some b → contains (x ∷ xs) b ≡ true
contains_of_before x e b [] h = cc
contains_of_before x e b (y ∷ ys) h = ground (arith, contains_of_before y e b ys)

insert_behind-before :
    (x e b : ℕ) (xs : List ℕ)
    → (e == x) ≡ false
    → IsNodup (x ∷ xs)
    → before_from (some x) e xs ≡ some b
    → insert_behind b e (x ∷ remove e xs) ≡ x ∷ xs
insert_behind-before x e b [] ne n h = cc
insert_behind-before x e b (y ∷ ys) ne n h = elim (Bool-cases (e == y)) [
  | inl here ↦ ground (arith, remove_absent e ys)
  | inr later ↦ ground (arith, insert_behind-before y e b ys later n.1, contains_of_before y e b ys)
]

-- Taking an element out and putting it back behind the one that stood before it changes nothing.
pub insert_behind-remove :
    (e b : ℕ) (xs : List ℕ)
    → IsNodup xs
    → before e xs ≡ some b
    → insert_behind b e (remove e xs) ≡ xs
insert_behind-remove e b [] n h = cc
insert_behind-remove e b (x ∷ xs) n h = ground (arith, insert_behind-before x e b xs)

before_from-ne :
    (x e b : ℕ) (xs : List ℕ)
    → (e == x) ≡ false
    → before_from (some x) e xs ≡ some b
    → (e == b) ≡ false
before_from-ne x e b [] ne h = cc
before_from-ne x e b (y ∷ ys) ne h = ground (arith, before_from-ne y e b ys)

pub before-ne : (e b : ℕ) (xs : List ℕ) → before e xs ≡ some b → (e == b) ≡ false
before-ne e b [] h = cc
before-ne e b (x ∷ xs) h = ground (arith, before_from-ne x e b xs)

pub contains-before : (e b : ℕ) (xs : List ℕ) → before e xs ≡ some b → contains xs b ≡ true
contains-before e b [] h = cc
contains-before e b (x ∷ xs) h = ground (arith, contains_of_before x e b xs)

-- The element in front of `e` is the one before it.
before_from-append :
    (last : Option ℕ) (e a : ℕ) (xs ys : List ℕ)
    → contains xs e ≡ false
    → (e == a) ≡ false
    → before_from last e (xs ++ a ∷ e ∷ ys) ≡ some a
before_from-append last e a [] ys h ne = rw (ne, ==_refl e)
before_from-append last e a (x ∷ xs) ys h ne = ground (arith, before_from-append (some x) e a xs ys)

pub before-append :
    (e a : ℕ) (xs ys : List ℕ)
    → contains xs e ≡ false
    → (e == a) ≡ false
    → before e (xs ++ a ∷ e ∷ ys) ≡ some a
before-append = before_from-append none

pub insert_behind-append :
    (a e : ℕ) (xs ys : List ℕ)
    → contains xs a ≡ false
    → insert_behind a e (xs ++ a ∷ ys) ≡ xs ++ a ∷ e ∷ ys
insert_behind-append a e [] ys h = rw (==_refl a)
insert_behind-append a e (x ∷ xs) ys h = ground (arith, insert_behind-append a e xs ys)

-- An element of a list without repetitions stands neither before nor behind itself.
pub IsNodup-middle :
    (x : ℕ) (xs ys : List ℕ)
    → IsNodup (xs ++ x ∷ ys)
    → (contains xs x ≡ false) × (contains ys x ≡ false)
IsNodup-middle x [] ys n = (refl, n.0)
IsNodup-middle x (y ∷ xs) ys n =
    ground (arith, IsNodup-middle x xs ys n.1, contains-append xs (x ∷ ys) y)
