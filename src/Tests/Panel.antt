-- ===== src/Tests/Panel.antt =====
-- A panel that is visible, hides on a click and on a swipe to the left.
use benji.Prelude.{
  ℕ, ◌==◌, ◌≡◌, refl, true, false, ◌&&◌, none, some, List, [], ◌∷◌, ◌++◌, Text, codes, arith,
  if◌then◌else◌,
}
use benji.Prelude.Int.{pos}
use benji.JQuery.{JQuery, Node, attribute, class_name, slot_eq}
use benji.Panel.{Panel, Config, UserConfig, bindings_of}
use benji.Panel.Touch.{undefined}
use benji.Panel.Handlers.{
  Event, Input, World, after_hide, redirect, cancel, cancel_given, is_visible, hide, on_toggle_link,
  on_touch_move, on_link_click,
}
use benji.Panel.Handlers.Visibility.{hide_outcome}
use benji.Panel.Handlers.Swipe.{left, drag, drag_hides}
use benji.Panel.Handlers.Links.{link_click_outcome}
use benji.Tests.Memory.{Memory, memory, memory-IsLawful}

abbrev pub find : Text → List Node
find s = []

abbrev pub J : JQuery
J = memory find

abbrev pub config : Config
config = record {
  delay = 500;
  hide_on_click = true;
  hide_on_escape = false;
  hide_on_swipe = true;
  reset_scroll = true;
  reset_forms = true;
  side = some (codes "left");
  target = 1 ∷ [];
  visible_class = "visible";
}

abbrev pub k : Panel
k = record {
  self = 1;
  id = some (codes "nav");
  config = config;
  bindings = bindings_of config (some (codes "nav"));
}

-- The element 1 is visible; the element 2 is a link.
abbrev pub page : Memory
page e s =
    if e == 1 && slot_eq (class_name "visible") s
    then some []
    else if e == 2 && slot_eq (attribute "href") s
    then some (codes "/docs")
    else none

abbrev pub start : World J
start = record { page = page; touch_x = undefined; touch_y = undefined; timers = []; visits = [] }

abbrev pub event : Event
event = record { prevented = false; stopped = false }

abbrev pub input : ℕ → ℕ → Input
input x y = record { node = 2; page_x = pos x; page_y = pos y; key_code = 0 }

hide_outcome_example :
    (is_visible J config (hide J config (some event) start).0.page ≡ false)
    × ((hide J config (some event) start).0.timers ≡ (
        if is_visible J config page
        then [] ++ record { task = after_hide; delay = 500 } ∷ []
        else []))
    × ((hide J config (some event) start).1
        ≡ (if is_visible J config page then cancel_given (some event) else some event))
    × ((hide J config (some event) start).0.page
        ≡ (if is_visible J config page then J.remove_class "visible" (1 ∷ []) page else page))
    × ((hide J config (some event) start).0.touch_x ≡ undefined)
    × ((hide J config (some event) start).0.touch_y ≡ undefined)
    × ((hide J config (some event) start).0.visits ≡ [])
hide_outcome_example = hide_outcome J (memory-IsLawful find) config (some event) start

abbrev toggled : World J
toggled = (on_toggle_link J k (input 0 0) event (on_toggle_link J k (input 0 0) event start).0).0

drag_hides_example :
    (is_visible J config (drag J k (input 90 10) (input 30 12) event start).0.page ≡ false)
    × ((drag J k (input 90 10) (input 30 12) event start).1 ≡ cancel event)
    × (on_touch_move J k (input 0 0) event (drag J k (input 90 10) (input 30 12) event start).0
        ≡ ((drag J k (input 90 10) (input 30 12) event start).0, event))
drag_hides_example =
    drag_hides J (memory-IsLawful find) k (input 90 10) (input 30 12) (input 0 0) event event start
      refl (left (omega arith) (omega arith))

link_click_outcome_example :
    (is_visible J config (on_link_click J k (input 0 0) event start).0.page ≡ false)
    × ((on_link_click J k (input 0 0) event start).1 ≡ cancel event)
    × ((on_link_click J k (input 0 0) event start).0.timers
        ≡ []
          ++ ((if is_visible J config page
                then record { task = after_hide; delay = 500 } ∷ []
                else [])
              ++ record { task = redirect (codes "/docs") none; delay = 510 } ∷ []))
    × ((on_link_click J k (input 0 0) event start).0.visits ≡ [])
link_click_outcome_example =
    link_click_outcome J (memory-IsLawful find) k (input 0 0) event start (codes "/docs") refl
      ((λ e. cc), (λ e. cc), (λ e. cc))

abbrev user : UserConfig
user = record {
  delay = some 500;
  hide_on_click = none;
  hide_on_escape = none;
  hide_on_swipe = none;
  reset_scroll = none;
  reset_forms = none;
  side = none;
  target = none;
  visible_class = none;
}
