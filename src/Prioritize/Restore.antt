-- ===== src/Prioritize/Restore.antt =====
-- One element, moved to the top and back.
use benji.Prelude.{
  ◌==◌, ◌≡◌, refl, sym, ◌∙◌, ap, true, false, none, some, ◌∷◌, arith, Bool-cases, Option-cases, inl,
  inr, if◌then◌else◌, contains, contains-remove, ◌⊎◌, remove, remove_again, ==_refl, ==_iff,
}
use benji.JQuery.{Node}
use benji.Tree.{Tree, IsTree}
use benji.Tree.Siblings.{before, insert_behind, insert_behind-remove, before-ne, contains-before}
use benji.Prioritize.{move_to_top, move_back, prioritize_one}

module _ (T : Tree) (L : IsTree T) where
  prioritize_one-move :
      (e q b : Node) (p : T.Page)
      → T.parent e p ≡ some q
      → T.data_of e p ≡ none
      → T.prev e p ≡ some b
      → prioritize_one T true e p ≡ T.set_data e b (T.prepend_to e q p)
  unfolding prioritize_one move_to_top
  prioritize_one-move e q b p has free at = ground arith

  prioritize_one-restore :
      (e q b : Node) (p : T.Page)
      → T.parent e p ≡ some q
      → T.data_of e p ≡ some b
      → prioritize_one T false e p ≡ T.remove_data e (T.insert_after e b p)
  unfolding prioritize_one move_back
  prioritize_one-restore e q b p has marked = ground arith

  -- Moving an element that has one before it puts it first below its parent, and marks it with the
  -- one that stood before it. All else stays.
  pub move_lem :
      (e q b : Node) (p : T.Page) (r x : Node)
      → contains (T.children p q) e ≡ true
      → T.data_of e p ≡ none
      → before e (T.children p q) ≡ some b
      → (T.children (prioritize_one T true e p) r
          ≡ (if r == q then e ∷ remove e (T.children p q) else T.children p r))
        × (T.data_of x (prioritize_one T true e p) ≡ (if x == e then some b else T.data_of x p))
  move_lem e q b p r x below free at =
      let has = (L.parent_iff e q p).1 below in
      rw (prioritize_one-move e q b p has free (L.prev-before e q p has ∙ at)) (
        L.children-set_data e b _ r ∙ L.children-prepend_to e q p r has,
        L.data_of-set_data e b _ x ∙ rw (L.data_of-prepend_to e q p x),
      )

  -- Moving a marked element back puts it behind the one that it is marked with, if that stands below
  -- the same parent, and takes the mark off. All else stays.
  pub restore_lem :
      (e q b : Node) (p : T.Page) (r x : Node)
      → contains (T.children p q) e ≡ true
      → contains (T.children p q) b ≡ true
      → (e == b) ≡ false
      → T.data_of e p ≡ some b
      → (T.children (prioritize_one T false e p) r
          ≡ (if r == q then insert_behind b e (remove e (T.children p q)) else T.children p r))
        × (T.data_of x (prioritize_one T false e p) ≡ (if x == e then none else T.data_of x p))
  restore_lem e q b p r x below beside ne marked =
      let has = (L.parent_iff e q p).1 below in
      rw (prioritize_one-restore e q b p has marked) (
        L.children-remove_data e _ r
            ∙ L.children-insert_after e b q p r has ((L.parent_iff b q p).1 beside) ne,
        L.data_of-remove_data e _ x ∙ rw (L.data_of-insert_after e b p x),
      )

  -- Nothing to move: no parent, or nothing before the element.
  stays_true :
      (e : Node) (p : T.Page)
      → T.data_of e p ≡ none
      → (T.parent e p ≡ none) ⊎ (T.prev e p ≡ none)
      → prioritize_one T true e p ≡ p
  unfolding prioritize_one move_to_top
  stays_true e p free (inl orphan) = ground arith
  stays_true e p free (inr first) = ground arith

  -- Nothing to move back: no mark.
  pub stays_false : (e : Node) (p : T.Page) → T.data_of e p ≡ none → prioritize_one T false e p ≡ p
  unfolding prioritize_one move_to_top
  stays_false e p free = ground arith

  moved_back :
      (e q b : Node) (p : T.Page) (r x : Node)
      → contains (T.children p q) e ≡ true
      → T.data_of e p ≡ none
      → before e (T.children p q) ≡ some b
      → (T.children (prioritize_one T false e (prioritize_one T true e p)) r ≡ T.children p r)
        × (T.data_of x (prioritize_one T false e (prioritize_one T true e p)) ≡ T.data_of x p)
  moved_back e q b p r x below free at =
      let p' = prioritize_one T true e p in
      let xs = T.children p q in
      let top : T.children p' q ≡ e ∷ remove e xs =
        (move_lem e q b p q x below free at).0 ∙ rw ==_refl in
      let marked : T.data_of e p' ≡ some b = (move_lem e q b p q e below free at).1 ∙ rw ==_refl in
      let ne = before-ne e b xs at in
      let below' : contains (T.children p' q) e ≡ true = rw top (rw ==_refl) in
      let beside : contains (T.children p' q) b ≡ true =
        rw top (ground (arith, contains-remove e xs b, contains-before e b xs at)) in
      let (order, marks) = restore_lem e q b p' r x below' beside ne marked in
      (
        order ∙ elim (Bool-cases (r == q)) [
          | inl same ↦
              let eq = (==_iff r q).0 same in
              rw (same, top, remove_again)
                (insert_behind-remove e b xs (L.nodup p q) at ∙ ap (T.children p) (sym eq))
          | inr other ↦ rw other ((move_lem e q b p r x below free at).0 ∙ rw other)
        ],
        marks ∙ elim (Bool-cases (x == e)) [
          | inl same ↦ rw same (sym free ∙ ap (λ y. T.data_of y p) (sym ((==_iff x e).0 same)))
          | inr other ↦ rw other ((move_lem e q b p r x below free at).1 ∙ rw other)
        ],
      )

  -- An element that is not marked, moved to the top and back, wherever it stands: below every
  -- parent the elements are as before, in the same order, and so is every mark.
  pub prioritize_restores :
      (e : Node) (p : T.Page) (r x : Node)
      → T.data_of e p ≡ none
      → (T.children (prioritize_one T false e (prioritize_one T true e p)) r ≡ T.children p r)
        × (T.data_of x (prioritize_one T false e (prioritize_one T true e p)) ≡ T.data_of x p)
  prioritize_restores e p r x free = elim (Option-cases (T.parent e p)) [
    | inl orphan ↦ rw (stays_true e p free (inl orphan)) (rw (stays_false e p free) (refl, refl))
    | inr (q, has) ↦ elim (Option-cases (T.prev e p)) [
      | inl first ↦ rw (stays_true e p free (inr first)) (rw (stays_false e p free) (refl, refl))
      | inr (b, at) ↦
          moved_back e q b p r x ((L.parent_iff e q p).0 has) free
            (sym (L.prev-before e q p has) ∙ at)
    ]
  ]

  marked_true : (e b : Node) (p : T.Page) → T.data_of e p ≡ some b → prioritize_one T true e p ≡ p
  unfolding prioritize_one move_back
  marked_true e b p marked = ground arith

  -- Moving an element to the top twice does what moving it once does, marked or not.
  pub prioritize_again :
      (e : Node) (p : T.Page)
      → prioritize_one T true e (prioritize_one T true e p) ≡ prioritize_one T true e p
  prioritize_again e p =
      let twice = λ (same : prioritize_one T true e p ≡ p). ap (prioritize_one T true e) same in
      elim (Option-cases (T.data_of e p)) [
        | inr (b, marked) ↦ twice (marked_true e b p marked)
        | inl free ↦ elim (Option-cases (T.parent e p)) [
          | inl orphan ↦ twice (stays_true e p free (inl orphan))
          | inr (q, has) ↦ elim (Option-cases (T.prev e p)) [
            | inl first ↦ twice (stays_true e p free (inr first))
            | inr (b, at) ↦ marked_true e b (prioritize_one T true e p) (
                ap (T.data_of e) (prioritize_one-move e q b p has free at)
                ∙ L.data_of-set_data e b _ e
                ∙ rw ==_refl)
          ]
        ]
      ]
