-- ===== src/Panel/Install.antt =====
-- What a call of `panel` installs on a collection.
use benji.Prelude.{
  ℕ, ◌==◌, ◌≡◌, ◌+◌, Bool, true, false, ◌&&◌, Option, none, some, List, [], ◌∷◌, map, All, String,
  Text, codes, text_eq, if◌then◌else◌, any, length,
}
use benji.JQuery.{JQuery, IsLawful, Node, Slot}
use benji.Panel.{
  Panel, Place, on_panel, on_body, on_window, Binding, Handler, UserConfig, Installed, option_or,
  own_links, link_click, touch_start, touch_move, swallow, self_link, body_hide, toggle_link,
  escape_key,
}

-- The events that a panel is there for: a click on a link in it; a click or touch in it, and each kind
-- of touch; a click in it on a link to itself; a click or the end of a touch in the body; a click in
-- the body on a link to it; and a key. An event on a link is passed on, and is one in the panel or the
-- body too.
pub data Occasion : Type 0 where
  link_in_panel click_in_panel touchstart_in_panel touchmove_in_panel touchend_in_panel : Occasion
  own_link_in_panel click_in_body touchend_in_body own_link_in_body key_in_window : Occasion

abbrev place_of : Occasion → Place
place_of click_in_body = on_body
place_of touchend_in_body = on_body
place_of own_link_in_body = on_body
place_of key_in_window = on_window
place_of _ = on_panel

abbrev event_of : Occasion → String
event_of touchstart_in_panel = "touchstart"
event_of touchmove_in_panel = "touchmove"
event_of touchend_in_panel = "touchend"
event_of touchend_in_body = "touchend"
event_of key_in_window = "keydown"
event_of _ = "click"

abbrev selector_of : Option Text → Occasion → Option Text
selector_of id link_in_panel = some (codes "a")
selector_of id own_link_in_panel = some (own_links id)
selector_of id own_link_in_body = some (own_links id)
selector_of id _ = none

-- The events that a call of `on` names, which are parted by spaces.
abbrev add_to_first : ℕ → List Text → List Text
add_to_first c [] = (c ∷ []) ∷ []
add_to_first c (w ∷ ws) = (c ∷ w) ∷ ws

pub words : Text → List Text
words [] = [] ∷ []
words (c ∷ cs) = let rest = words cs in if c == 32 then [] ∷ rest else add_to_first c rest

abbrev same_place : Place → Place → Bool
same_place on_panel on_panel = true
same_place on_body on_body = true
same_place on_window on_window = true
same_place _ _ = false

abbrev same_selector : Option Text → Option Text → Bool
same_selector none none = true
same_selector (some s) (some t) = text_eq s t
same_selector _ _ = false

abbrev is_for : Option Text → Occasion → Binding → Bool
is_for id o b =
    same_place b.place (place_of o)
    && same_selector b.selector (selector_of id o)
    && any (text_eq (codes (event_of o))) (words (codes b.events))

-- The handlers that bindings call on an occasion, in order.
pub called : Option Text → Occasion → List Binding → List Handler
called id o [] = []
called id o (b ∷ bs) = let rest = called id o bs in if is_for id o b then b.handler ∷ rest else rest

-- How often the bindings subscribe to an event.
pub subscriptions : List Binding → ℕ
subscriptions [] = 0
subscriptions (b ∷ bs) = length (words (codes b.events)) + subscriptions bs

-- What is to happen on each occasion, with the two options of the call.
abbrev pub expected : Bool → Bool → Occasion → List Handler
expected clicks escapes link_in_panel = if clicks then link_click ∷ [] else []
expected clicks escapes click_in_panel = swallow ∷ []
expected clicks escapes touchstart_in_panel = touch_start ∷ swallow ∷ []
expected clicks escapes touchmove_in_panel = touch_move ∷ swallow ∷ []
expected clicks escapes touchend_in_panel = swallow ∷ []
expected clicks escapes own_link_in_panel = self_link ∷ []
expected clicks escapes click_in_body = body_hide ∷ []
expected clicks escapes touchend_in_body = body_hide ∷ []
expected clicks escapes own_link_in_body = toggle_link ∷ []
expected clicks escapes key_in_window = if escapes then escape_key ∷ [] else []

-- A panel calls on an occasion what is expected there, and subscribes to no more events than those.
pub record IsBoundFor (u : UserConfig) (o : Occasion) (k : Panel) : Type 0 where
  pub calls :
      called k.id o k.bindings
      ≡ expected (option_or u.hide_on_click false) (option_or u.hide_on_escape false) o
  pub no_more :
      subscriptions k.bindings
      ≡ 10
        + (if option_or u.hide_on_click false then 1 else 0)
        + (if option_or u.hide_on_escape false then 1 else 0)

module _ (J : JQuery) (L : IsLawful J) (u : UserConfig) (o : Occasion) where
  -- What is to be shown of what a call leaves.
  abbrev IsOutcome : List Node → J.Page → Installed J → Type 0
  IsOutcome es p i =
      (map (λ k. k.self) i.panels ≡ es)
      × All (IsBoundFor u o) i.panels
      × ((e : Node) (s : Slot) → J.look i.page e s ≡ J.look p e s)
