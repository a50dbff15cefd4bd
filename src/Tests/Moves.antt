-- ===== src/Tests/Moves.antt =====
-- Elements moved below one parent.
use benji.Prelude.{◌≡◌, refl, none, List, [], ◌∷◌, true, false}
use benji.Prioritize.{elements, prioritize, prioritize_one, move_to_top}
use benji.Prioritize.Restore.{prioritize_restores}
use benji.Prioritize.Adjacent.{neighbours_swap}
use benji.Site.{Change}
use benji.Tests.Forest.{Forest, forest, forest-IsTree}

abbrev trees : Forest
trees = record {
  order = 5 ∷ 6 ∷ 7 ∷ 8 ∷ [];
  marks = λ e. none;
  nodup = (refl, (refl, (refl, (refl, tt))));
}

moved_first : (prioritize_one forest true 7 trees).order ≡ 7 ∷ 5 ∷ 6 ∷ 8 ∷ []
unfolding prioritize_one move_to_top
moved_first = refl

prioritize_restores_example :
    (forest.children (prioritize_one forest false 7 (prioritize_one forest true 7 trees)) 0
      ≡ 5 ∷ 6 ∷ 7 ∷ 8 ∷ [])
    × (forest.data_of 7 (prioritize_one forest false 7 (prioritize_one forest true 7 trees)) ≡ none)
prioritize_restores_example = prioritize_restores forest forest-IsTree 7 trees 0 7 refl

neighbours_swap_example :
    forest.children
      (prioritize forest
        (elements (6 ∷ 7 ∷ []))
        false
        (prioritize forest (elements (6 ∷ 7 ∷ [])) true trees))
      0
    ≡ 5 ∷ 7 ∷ 6 ∷ 8 ∷ []
neighbours_swap_example =
    neighbours_swap forest forest-IsTree trees 0 5 6 7 [] (8 ∷ []) refl refl refl

abbrev narrow : List Change
narrow = record { name = "medium"; active = true } ∷ record { name = "small"; active = true } ∷ []
