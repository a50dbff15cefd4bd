-- ===== src/Prioritize.antt =====
-- `$.prioritize` of website/src/assets/js/util.js: it moves elements to the first positions below
-- their parents, and back.
pub mod Restore
pub mod Adjacent
use benji.Prelude.{Bool, true, false, not, Option, none, some, List, [], ◌∷◌, Text, if◌then◌else◌}
use benji.JQuery.{Node}
use benji.Tree.{Tree}

-- What the caller gives: elements, or a selector. `typeof` never gives 'jQuery', so either is
-- wrapped; wrapping elements again leaves them as they are.
pub data Selection : Type 0 where
  elements : List Node → Selection
  selector : Text → Selection

module _ (T : Tree) where
  -- The branch "Not moved? Move it."
  unfoldable pub move_to_top : Bool → Node → Node → T.Page → T.Page
  move_to_top condition e parent p = if not condition then p else elim (T.prev e p) [
    | none ↦ p
    | some place ↦ T.set_data e place (T.prepend_to e parent p)
  ]

  -- The branch "Moved already?".
  unfoldable pub move_back : Bool → Node → Node → T.Page → T.Page
  move_back condition e place p =
      if condition then p else T.remove_data e (T.insert_after e place p)

  -- The function given to `$elements.each`.
  unfoldable pub prioritize_one : Bool → Node → T.Page → T.Page
  prioritize_one condition e p = elim (T.parent e p) [
    | none ↦ p
    | some parent ↦ elim (T.data_of e p) [
      | none ↦ move_to_top condition e parent p
      | some place ↦ move_back condition e place p
    ]
  ]

  unfoldable pub prioritize_each : Bool → List Node → T.Page → T.Page
  prioritize_each condition [] p = p
  prioritize_each condition (e ∷ es) p = prioritize_each condition es (prioritize_one condition e p)

  unfoldable pub prioritize : Selection → Bool → T.Page → T.Page
  prioritize (elements es) condition p = prioritize_each condition es p
  prioritize (selector s) condition p = prioritize_each condition (T.query s p) p
