-- ===== src/Panel/Handlers/Swipe.antt =====
-- Touches on a panel: which movements are swipes, and what a movement does.
use benji.Prelude.{
  ◌≡◌, refl, Bool, true, false, not, ◌&&◌, Option, none, some, arith, Text, Bool-cases, inl, inr,
  ◌⊎◌, ◌↔◌, codes, text_eq, text_eq_sound,
}
use benji.Prelude.Int.{ℤ, pos, negsuc, ◌<ℤ◌, ltb_ℤ, ◌-ℤ◌}
use benji.JQuery.{JQuery, IsLawful}
use benji.Panel.{Panel}
use benji.Panel.Touch.{Position, undefined, null, at, nan, int, is_swipe, is_overscroll}
use benji.Panel.Handlers.{
  Event, Input, World, cancel, is_visible, hide, on_touch_start, on_touch_move, hold_scroll,
}
use benji.Panel.Handlers.Visibility.{hide_outcome}

-- Less than 20 pixels off the axis.
abbrev pub IsStraight : ℤ → Type 0
IsStraight n = (negsuc 19 <ℤ n) × (n <ℤ pos 20)

-- A swipe towards a side moves more than 50 pixels that way, and stays near the other axis. The
-- differences are those from the new position to the first one, so moving left makes x positive.
pub data Swipes (x y : ℤ) : Text → Type 0 where
  left : IsStraight y → pos 50 <ℤ x → Swipes x y (codes "left")
  right : IsStraight y → x <ℤ negsuc 49 → Swipes x y (codes "right")
  top : IsStraight x → pos 50 <ℤ y → Swipes x y (codes "top")
  bottom : IsStraight x → y <ℤ negsuc 49 → Swipes x y (codes "bottom")

abbrev pub Within : Option Text → ℤ → ℤ → Type 0
Within none x y = ⊥
Within (some side) x y = Swipes x y side

ltb_ℤ-sound : (a b : ℤ) → ltb_ℤ a b ≡ true → a <ℤ b
ltb_ℤ-sound a b h = ground arith

&&-sound : (a b : Bool) → (a && b) ≡ true → (a ≡ true) × (b ≡ true)
&&-sound a b h = ground arith

is_swipe_sound :
    (side : Text) (x y : ℤ) → is_swipe (some side) (int x) (int y) ≡ true → Swipes x y side
unfolding is_swipe
is_swipe_sound side x y h = elim (Bool-cases (text_eq side (codes "left"))) [
  | inl e ↦ rw (text_eq_sound side _ e) (left (ground arith) (ground arith))
  | inr not_left ↦ elim (Bool-cases (text_eq side (codes "right"))) [
    | inl e ↦ rw (text_eq_sound side _ e) (right (ground arith) (ground arith))
    | inr not_right ↦ elim (Bool-cases (text_eq side (codes "top"))) [
      | inl e ↦ rw (text_eq_sound side _ e) (top (ground arith) (ground arith))
      | inr not_top ↦ elim (Bool-cases (text_eq side (codes "bottom"))) [
        | inl e ↦ rw (text_eq_sound side _ e) (bottom (ground arith) (ground arith))
        | inr not_bottom ↦ ground arith
      ]
    ]
  ]
]

is_swipe_complete :
    (side : Text) (x y : ℤ) → Swipes x y side → is_swipe (some side) (int x) (int y) ≡ true
unfolding is_swipe
is_swipe_complete _ x y (left s m) = ground arith
is_swipe_complete _ x y (right s m) = ground arith
is_swipe_complete _ x y (top s m) = ground arith
is_swipe_complete _ x y (bottom s m) = ground arith

-- The decision is exact: for the configured side, or none, a movement counts as a swipe if and
-- only if it is one towards that side.
pub is_swipe_iff :
    (side : Option Text) (x y : ℤ) → (is_swipe side (int x) (int y) ≡ true) ↔ Within side x y
is_swipe_iff none x y = unfold is_swipe in ground arith
is_swipe_iff (some side) x y = (is_swipe_sound side x y, is_swipe_complete side x y)

abbrev pub IsIdle : Position → Position → Type 0
IsIdle x y = ((x ≡ null) ⊎ (y ≡ null)) ⊎ ((x ≡ undefined) × (y ≡ undefined))

-- No comparison with NaN holds, so no side is reached.
is_swipe-nan : (side : Option Text) → is_swipe side nan nan ≡ false
unfolding is_swipe
is_swipe-nan none = refl
is_swipe-nan (some side) = ground arith

module _ (J : JQuery) where
  -- Without a `touchstart` since the panel was installed, or since it was hidden by a swipe, a
  -- `touchmove` does nothing. In the first case the positions are undefined and not null, so the
  -- guard lets the call through, and it is the comparisons with NaN that all fail.
  pub touch_move_idle :
      (k : Panel) (i : Input) (v : Event) (w : World J)
      → IsIdle w.touch_x w.touch_y
      → on_touch_move J k i v w ≡ (w, v)
  unfolding on_touch_move hold_scroll is_overscroll
  touch_move_idle k i v w (inl n) = ground arith
  touch_move_idle k i v w (inr (x, y)) = rw (x, y) (rw is_swipe-nan (ground arith))

  -- A touch that starts at one input and moves to another.
  abbrev pub drag : Panel → Input → Input → Event → World J → World J × Event
  drag k i j v w = on_touch_move J k j v (on_touch_start J k i v w).0

  drag-swipe :
      (k : Panel) (i j : Input) (v : Event) (w : World J)
      → k.config.hide_on_swipe ≡ true
      → is_swipe k.config.side (int (i.page_x -ℤ j.page_x)) (int (i.page_y -ℤ j.page_y)) ≡ true
      → drag k i j v w
        ≡ ((hide J k.config none (record w { touch_x = null; touch_y = null })).0, cancel v)
  unfolding on_touch_move on_touch_start
  drag-swipe k i j v w on h = rw (on, h)

  module _ (L : IsLawful J) where
    -- Where swiping is on: a movement towards the panel's side hides the panel and is cancelled, and
    -- no later movement has an effect before the next touch starts.
    pub drag_hides :
        (k : Panel) (i j m : Input) (u v : Event) (w : World J)
        → k.config.hide_on_swipe ≡ true
        → Within k.config.side (i.page_x -ℤ j.page_x) (i.page_y -ℤ j.page_y)
        → (is_visible J k.config (drag k i j v w).0.page ≡ false)
          × ((drag k i j v w).1 ≡ cancel v)
          × (on_touch_move J k m u (drag k i j v w).0 ≡ ((drag k i j v w).0, u))
    drag_hides k i j m u v w on within =
        let ready = record w { touch_x = null; touch_y = null } in
        let outcome = hide_outcome J L k.config none ready in
        rw (drag-swipe k i j v w on ((is_swipe_iff k.config.side _ _).1 within))
          (outcome.0, refl, touch_move_idle k m u _ (inl (inl outcome.4)))

  -- Where swiping is off, or the movement is not towards the panel's side: only the touch positions
  -- are new, and the event is either cancelled or left as it is.
  pub drag_keeps :
      (k : Panel) (i j : Input) (v : Event) (w : World J)
      → (k.config.hide_on_swipe ≡ false)
        ⊎ (¬ Within k.config.side (i.page_x -ℤ j.page_x) (i.page_y -ℤ j.page_y))
      → ((drag k i j v w).0 ≡ record w { touch_x = at i.page_x; touch_y = at i.page_y })
        × (((drag k i j v w).1 ≡ cancel v) ⊎ ((drag k i j v w).1 ≡ v))
  unfolding on_touch_move on_touch_start hold_scroll
  drag_keeps k i j v w (inl off) = ground arith
  drag_keeps k i j v w (inr out) =
      elim (Bool-cases
        (is_swipe k.config.side (int (i.page_x -ℤ j.page_x)) (int (i.page_y -ℤ j.page_y)))) [
          | inl is ↦ absurd (out ((is_swipe_iff k.config.side _ _).0 is))
          | inr not ↦ ground (arith, not)
        ]
