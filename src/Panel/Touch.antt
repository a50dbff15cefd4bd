-- ===== src/Panel/Touch.antt =====
-- The numbers of a touch: a coordinate that may be undefined or null, differences that may be NaN,
-- and the decision whether a movement is a swipe that hides the panel.
use benji.Prelude.{
  Bool, true, false, ◌&&◌, ◌||◌, Option, none, some, Text, codes, text_eq, if◌then◌else◌,
}
use benji.Prelude.Int.{ℤ, pos, negsuc, ltb_ℤ, ◌+ℤ◌, ◌-ℤ◌}

-- `$this.touchPosX` and `$this.touchPosY`: undefined until the first touch, null after a swipe.
pub data Position : Type 0 where
  undefined null : Position
  at : ℤ → Position

pub data Number : Type 0 where
  nan : Number
  int : ℤ → Number

abbrev pub is_null : Position → Bool
is_null null = true
is_null _ = false

-- `position - coordinate`; null counts as 0.
abbrev pub minus : Position → ℤ → Number
minus undefined n = nan
minus null n = int (pos 0 -ℤ n)
minus (at m) n = int (m -ℤ n)

-- Every comparison with NaN is false.
abbrev pub less : Number → Number → Bool
less (int m) (int n) = ltb_ℤ m n
less _ _ = false

abbrev pub boundary : ℤ
boundary = pos 20

abbrev pub delta : ℤ
delta = pos 50

-- `-1 * boundary` and `-1 * delta`.
abbrev pub minus_boundary : ℤ
minus_boundary = negsuc 19

abbrev pub minus_delta : ℤ
minus_delta = negsuc 49

-- The four cases of the `switch` on the side; a missing or another side never hides.
abbrev swiped_left : Number → Number → Bool
swiped_left x y = (less y (int boundary) && less (int minus_boundary) y) && less (int delta) x

abbrev swiped_right : Number → Number → Bool
swiped_right x y =
    (less y (int boundary) && less (int minus_boundary) y) && less x (int minus_delta)

abbrev swiped_top : Number → Number → Bool
swiped_top x y = (less x (int boundary) && less (int minus_boundary) x) && less (int delta) y

abbrev swiped_bottom : Number → Number → Bool
swiped_bottom x y =
    (less x (int boundary) && less (int minus_boundary) x) && less y (int minus_delta)

unfoldable pub is_swipe : Option Text → Number → Number → Bool
is_swipe none x y = false
is_swipe (some side) x y =
    if text_eq side (codes "left")
    then swiped_left x y
    else if text_eq side (codes "right")
    then swiped_right x y
    else if text_eq side (codes "top")
    then swiped_top x y
    else if text_eq side (codes "bottom")
    then swiped_bottom x y
    else false

-- Scrolling on past the top or past the bottom, for a panel of the given height with so much of
-- its content from the scroll position on.
unfoldable pub is_overscroll : ℤ → ℤ → ℤ → Number → Bool
is_overscroll scrolled left height y =
    (ltb_ℤ scrolled (pos 0) && less y (int (pos 0)))
    || ((ltb_ℤ (height -ℤ pos 2) left && ltb_ℤ left (height +ℤ pos 2)) && less (int (pos 0)) y)
