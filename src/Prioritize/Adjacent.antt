-- ===== src/Prioritize/Adjacent.antt =====
-- Two neighbours, moved to the top and back together: they change places.
use benji.Prelude.{
  ℕ, ◌==◌, ◌≡◌, ◌∙◌, ap, true, false, none, some, List, [], ◌∷◌, ◌++◌, arith, contains,
  contains-append, remove, remove-append, remove_absent, IsNodup, ==_refl,
}
use benji.JQuery.{Node}
use benji.Tree.{Tree, IsTree}
use benji.Tree.Siblings.{before, insert_behind, before-append, insert_behind-append}
use benji.Prioritize.{elements, prioritize_one, prioritize_each, prioritize}
use benji.Prioritize.Restore.{move_lem, restore_lem}

-- What a list without repetitions says of three neighbours and those around them.
record Apart (xs : List ℕ) (a x y : ℕ) (ys : List ℕ) : Type 0 where
  xs_a : contains xs a ≡ false
  xs_x : contains xs x ≡ false
  xs_y : contains xs y ≡ false
  ys_x : contains ys x ≡ false
  ys_y : contains ys y ≡ false
  x_a : (x == a) ≡ false
  y_a : (y == a) ≡ false
  x_y : (x == y) ≡ false
  y_x : (y == x) ≡ false

IsNodup-Apart :
    (xs : List ℕ) (a x y : ℕ) (ys : List ℕ) → IsNodup (xs ++ a ∷ x ∷ y ∷ ys) → Apart xs a x y ys
IsNodup-Apart [] a x y ys n = ground arith
IsNodup-Apart (z ∷ xs) a x y ys n =
    ground (arith, IsNodup-Apart xs a x y ys n.1, contains-append xs (a ∷ x ∷ y ∷ ys) z)

module _ (xs ys : List ℕ) (a x y : ℕ) (s : Apart xs a x y ys) where
  take_x : remove x (xs ++ a ∷ x ∷ y ∷ ys) ≡ xs ++ a ∷ y ∷ ys
  take_x =
      ground (arith, s, remove-append x xs (a ∷ x ∷ y ∷ ys), remove_absent x xs, remove_absent x ys)

  take_y : remove y (x ∷ (xs ++ a ∷ y ∷ ys)) ≡ x ∷ (xs ++ a ∷ ys)
  take_y =
      ground (arith, s, remove-append y xs (a ∷ y ∷ ys), remove_absent y xs, remove_absent y ys)

  before_y : before y (x ∷ (xs ++ a ∷ y ∷ ys)) ≡ some a
  before_y = before-append y a (x ∷ xs) ys (ground (arith, s)) s.y_a

  put_x : insert_behind a x (remove x (y ∷ x ∷ (xs ++ a ∷ ys))) ≡ y ∷ (xs ++ a ∷ x ∷ ys)
  put_x = ground (
    arith,
    s,
    remove-append x xs (a ∷ ys),
    remove_absent x xs,
    remove_absent x ys,
    insert_behind-append a x xs ys,
  )

  put_y : insert_behind a y (remove y (y ∷ (xs ++ a ∷ x ∷ ys))) ≡ xs ++ a ∷ y ∷ x ∷ ys
  put_y = ground (
    arith,
    s,
    remove-append y xs (a ∷ x ∷ ys),
    remove_absent y xs,
    remove_absent y ys,
    insert_behind-append a y xs (x ∷ ys),
  )

module _ (T : Tree) (L : IsTree T) where
  move_at :
      (e q b : Node) (p : T.Page)
      → contains (T.children p q) e ≡ true
      → T.data_of e p ≡ none
      → before e (T.children p q) ≡ some b
      → T.children (prioritize_one T true e p) q ≡ e ∷ remove e (T.children p q)
  move_at e q b p below free at = (move_lem T L e q b p q e below free at).0 ∙ rw ==_refl

  restore_at :
      (e q b : Node) (p : T.Page)
      → contains (T.children p q) e ≡ true
      → contains (T.children p q) b ≡ true
      → (e == b) ≡ false
      → T.data_of e p ≡ some b
      → T.children (prioritize_one T false e p) q ≡ insert_behind b e (remove e (T.children p q))
  restore_at e q b p below beside ne marked =
      (restore_lem T L e q b p q e below beside ne marked).0 ∙ rw ==_refl

  module _ (q a x y : Node) (xs ys : List Node) (s : Apart xs a x y ys) where
    -- Both are first, the later one before the earlier, and both are marked with the one before.
    neighbours_up :
        (p : T.Page)
        → T.children p q ≡ xs ++ a ∷ x ∷ y ∷ ys
        → T.data_of x p ≡ none
        → T.data_of y p ≡ none
        → (T.children (prioritize_one T true y (prioritize_one T true x p)) q
            ≡ y ∷ x ∷ (xs ++ a ∷ ys))
          × (T.data_of x (prioritize_one T true y (prioritize_one T true x p)) ≡ some a)
          × (T.data_of y (prioritize_one T true y (prioritize_one T true x p)) ≡ some a)
    neighbours_up p order free_x free_y =
        let p₁ = prioritize_one T true x p in
        let x_in : contains (T.children p q) x ≡ true =
          rw order (contains-append xs _ x ∙ ground arith) in
        let x_at : before x (T.children p q) ≡ some a =
          rw order (before-append x a xs (y ∷ ys) s.xs_x s.x_a) in
        let move_x = λ (z : Node). (move_lem T L x q a p q z x_in free_x x_at).1 in
        let order₁ : T.children p₁ q ≡ x ∷ (xs ++ a ∷ y ∷ ys) =
          move_at x q a p x_in free_x x_at ∙ rw order (ap (λ l. x ∷ l) (take_x xs ys a x y s)) in
        let y_in : contains (T.children p₁ q) y ≡ true =
          rw order₁ (ground (arith, contains-append xs (a ∷ y ∷ ys) y)) in
        let y_at : before y (T.children p₁ q) ≡ some a = rw order₁ (before_y xs ys a x y s) in
        let y_free : T.data_of y p₁ ≡ none = move_x y ∙ rw s.y_x free_y in
        let move_y = λ (z : Node). (move_lem T L y q a p₁ q z y_in y_free y_at).1 in
        (
          move_at y q a p₁ y_in y_free y_at ∙ rw order₁ (ap (λ l. y ∷ l) (take_y xs ys a x y s)),
          move_y x ∙ rw s.x_y (move_x x ∙ rw ==_refl),
          move_y y ∙ rw ==_refl,
        )

    neighbours_down :
        (p : T.Page)
        → T.children p q ≡ y ∷ x ∷ (xs ++ a ∷ ys)
        → T.data_of x p ≡ some a
        → T.data_of y p ≡ some a
        → T.children (prioritize_one T false y (prioritize_one T false x p)) q
          ≡ xs ++ a ∷ y ∷ x ∷ ys
    neighbours_down p order mark_x mark_y =
        let p₁ = prioritize_one T false x p in
        let x_in : contains (T.children p q) x ≡ true = rw order (ground arith) in
        let a_in : contains (T.children p q) a ≡ true =
          rw order (ground (arith, contains-append xs (a ∷ ys) a)) in
        let order₁ : T.children p₁ q ≡ y ∷ (xs ++ a ∷ x ∷ ys) =
          restore_at x q a p x_in a_in s.x_a mark_x ∙ rw order (put_x xs ys a x y s) in
        let y_in : contains (T.children p₁ q) y ≡ true = rw order₁ (ground arith) in
        let a_in₁ : contains (T.children p₁ q) a ≡ true =
          rw order₁ (ground (arith, contains-append xs (a ∷ x ∷ ys) a)) in
        let mark_y₁ : T.data_of y p₁ ≡ some a =
          (restore_lem T L x q a p q y x_in a_in s.x_a mark_x).1 ∙ rw s.y_x mark_y in
        restore_at y q a p₁ y_in a_in₁ s.y_a mark_y₁ ∙ rw order₁ (put_y xs ys a x y s)

  -- Two neighbours that are not marked and stand behind some element: moved to the top and back in
  -- one call each, they have changed places. The comment in the source promises their original
  -- locations.
  pub neighbours_swap :
      (p : T.Page) (q a x y : Node) (xs ys : List Node)
      → T.children p q ≡ xs ++ a ∷ x ∷ y ∷ ys
      → T.data_of x p ≡ none
      → T.data_of y p ≡ none
      → T.children
          (prioritize T (elements (x ∷ y ∷ [])) false (prioritize T (elements (x ∷ y ∷ [])) true p))
          q
        ≡ xs ++ a ∷ y ∷ x ∷ ys
  unfolding prioritize prioritize_each
  neighbours_swap p q a x y xs ys order free_x free_y =
      let s = IsNodup-Apart xs a x y ys (rw order at (L.nodup p q)) in
      let (up, mark_x, mark_y) = neighbours_up q a x y xs ys s p order free_x free_y in
      neighbours_down q a x y xs ys s (prioritize_one T true y (prioritize_one T true x p)) up
        mark_x mark_y
