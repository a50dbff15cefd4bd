-- ===== src/Tests/Forest.antt =====
-- A page with one parent, the element 0, over which the operations on the order of elements meet
-- their laws.
use benji.Prelude.{
  ℕ, ◌==◌, ==_refl, ◌≡◌, ◌↔◌, refl, ◌∙◌, true, false, Option, none, some, List, [], ◌∷◌, arith,
  contains, contains-remove, remove, IsNodup, Bool-cases, inl, inr, if◌then◌else◌,
}
use benji.JQuery.{Node}
use benji.Tree.{Tree, IsTree}
use benji.Tree.Siblings.{before, insert_behind}

pub record Forest : Type 0 where
  pub order : List Node
  pub marks : Node → Option Node
  pub nodup : IsNodup order

pub remove-IsNodup : (e : ℕ) (xs : List ℕ) → IsNodup xs → IsNodup (remove e xs)
remove-IsNodup e [] n = tt
remove-IsNodup e (x ∷ xs) (fresh, n) = ground (arith, remove-IsNodup e xs n, contains-remove e xs x)

contains-insert_behind :
    (a e : ℕ) (xs : List ℕ) (x : ℕ)
    → contains xs x ≡ false
    → (x == e) ≡ false
    → contains (insert_behind a e xs) x ≡ false
contains-insert_behind a e [] x h ne = refl
contains-insert_behind a e (y ∷ xs) x h ne = ground (arith, contains-insert_behind a e xs x)

pub insert_behind-IsNodup :
    (a e : ℕ) (xs : List ℕ) → contains xs e ≡ false → IsNodup xs → IsNodup (insert_behind a e xs)
insert_behind-IsNodup a e [] h n = tt
insert_behind-IsNodup a e (x ∷ xs) h (fresh, n) =
    ground (arith, insert_behind-IsNodup a e xs, contains-insert_behind a e xs x)

pub removed : (e : ℕ) (xs : List ℕ) → contains (remove e xs) e ≡ false
removed e xs = contains-remove e xs e ∙ rw ==_refl

abbrev to_top : Node → Forest → Forest
to_top e p = record {
  order = e ∷ remove e p.order;
  marks = p.marks;
  nodup = (removed e p.order, remove-IsNodup e p.order p.nodup);
}

abbrev to_behind : Node → Node → Forest → Forest
to_behind e a p = record {
  order = insert_behind a e (remove e p.order);
  marks = p.marks;
  nodup =
      insert_behind-IsNodup a e (remove e p.order) (removed e p.order)
        (remove-IsNodup e p.order p.nodup);
}

abbrev children_of : Forest → Node → List Node
children_of p q = if q == 0 then p.order else []

abbrev pub forest : Tree
forest = record {
  Page = Forest;
  children = children_of;
  query = λ s p. p.order;
  parent = λ e p. if contains p.order e then some 0 else none;
  prev = λ e p. before e p.order;
  prepend_to = λ e q p. to_top e p;
  insert_after = λ e a p. to_behind e a p;
  data_of = λ e p. p.marks e;
  set_data = λ e v p. record p { marks = λ x. if x == e then some v else p.marks x };
  remove_data = λ e p. record p { marks = λ x. if x == e then none else p.marks x };
}

parent-root :
    (e q : Node) (p : Forest)
    → ◌≡◌ {A = Option Node} (if contains p.order e then some 0 else none) (some q)
    → q ≡ 0
parent-root e q p h = ground arith

children-IsNodup : (p : Forest) (q : Node) → IsNodup (children_of p q)
children-IsNodup p q = elim (Bool-cases (q == 0)) [
  | inl root ↦ rw root p.nodup
  | inr other ↦ rw other tt
]

parent-children :
    (e q : Node) (p : Forest)
    → (◌≡◌ {A = Option Node} (if contains p.order e then some 0 else none) (some q))
      ↔ (contains (children_of p q) e ≡ true)
parent-children e q p = ground arith

children-order :
    (r : Node) (p : Forest) (xs : List Node)
    → (if r == 0 then xs else []) ≡ (if r == 0 then xs else children_of p r)
children-order r p xs = ground arith

pub forest-IsTree : IsTree forest
forest-IsTree = record {
  nodup = children-IsNodup;
  parent_iff = parent-children;
  prev-before = λ e q p h. rw (parent-root e q p h);
  children-prepend_to =
      λ e q p r h. rw (parent-root e q p h) (children-order r p (e ∷ remove e p.order));
  children-insert_after = λ e a q p r h k ne.
      rw (parent-root e q p h) (children-order r p (insert_behind a e (remove e p.order)));
  children-set_data = λ e v p r. refl;
  children-remove_data = λ e p r. refl;
  data_of-prepend_to = λ e q p x. refl;
  data_of-insert_after = λ e a p x. refl;
  data_of-set_data = λ e v p x. refl;
  data_of-remove_data = λ e p x. refl;
}
