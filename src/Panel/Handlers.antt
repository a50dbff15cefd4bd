-- ===== src/Panel/Handlers.antt =====
-- The handlers of a panel, its `_hide` method and the functions that it hands to
-- `window.setTimeout`. Each is a function on what the closures share.
pub mod Visibility
pub mod Swipe
pub mod Links
pub mod Reach
pub mod Frame
use benji.Prelude.{
  ℕ, ◌+◌, ◌==◌, Bool, true, false, not, ◌||◌, ◌&&◌, Option, none, some, List, [], ◌∷◌, ◌++◌, Text,
  codes, text_eq, maybe_eq, text_or, if◌then◌else◌,
}
use benji.Prelude.Int.{ℤ, pos, ◌-ℤ◌}
use benji.JQuery.{JQuery, Node}
use benji.Panel.{
  Panel, Config, Handler, link_click, touch_start, touch_move, swallow, self_link, body_hide,
  toggle_link, escape_key, own_href,
}
use benji.Panel.Touch.{Position, undefined, null, at, is_null, minus, is_swipe, is_overscroll}

-- What a handler can do to the event that it is given.
pub record Event : Type 0 where
  pub prevented : Bool
  pub stopped : Bool

abbrev pub prevent_default : Event → Event
prevent_default v = record v { prevented = true }

abbrev pub stop_propagation : Event → Event
stop_propagation v = record v { stopped = true }

-- `event.preventDefault(); event.stopPropagation();`, and what `return false` means to jQuery.
abbrev pub cancel : Event → Event
cancel v = stop_propagation (prevent_default v)

abbrev pub cancel_given : Option Event → Option Event
cancel_given none = none
cancel_given (some v) = some (cancel v)

-- The functions given to `window.setTimeout`: the end of `_hide`, and the redirect of a link.
pub data Task : Type 0 where
  after_hide : Task
  redirect : Text → Option Text → Task

pub record Timer : Type 0 where
  pub task : Task
  pub delay : ℕ

-- `window.open(href)` and `window.location.href = href`.
pub data Visit : Type 0 where
  open_window assign_location : Text → Visit

-- What an event brings: the element that was hit, the touch's coordinates, the key.
pub record Input : Type 0 where
  pub node : Node
  pub page_x : ℤ
  pub page_y : ℤ
  pub key_code : ℕ

-- `!href || href == '#' || href == '' || href == '#' + id`
abbrev pub is_inert : Option Text → Option Text → Bool
is_inert id none = true
is_inert id (some href) =
    text_eq href [] || text_eq href (codes "#") || text_eq href [] || text_eq href (own_href id)

module _ (J : JQuery) where
  pub record World : Type 0 where
    pub page : J.Page
    pub touch_x : Position
    pub touch_y : Position
    pub timers : List Timer
    pub visits : List Visit

  abbrev set_timeout : Task → ℕ → World → World
  set_timeout task delay w = record w {
    timers = w.timers ++ record { task = task; delay = delay } ∷ [];
  }

  abbrev pub is_visible : Config → J.Page → Bool
  is_visible c p = J.has_class c.visible_class c.target p

  -- `$this._hide`; the event is `none` where the call gives none.
  unfoldable pub hide : Config → Option Event → World → World × Option Event
  hide c v w = if not (is_visible c w.page) then (w, v) else (
    set_timeout after_hide c.delay
        (record w { page = J.remove_class c.visible_class c.target w.page }),
    cancel_given v,
  )

  -- `_hide()` and `_hide(event)` as statements of a handler.
  abbrev hide_quietly : Config → World → World
  hide_quietly c w = (hide c none w).0

  abbrev hide_on : Config → Event → World → World × Event
  hide_on c v w =
      let (w', v') = hide c (some v) w in (w', elim v' [ none ↦ v | some after ↦ after ])

  -- `$this.find('form').each(function() { this.reset(); })`
  pub reset_each : List Node → J.Page → J.Page
  reset_each [] p = p
  reset_each (f ∷ fs) p = reset_each fs (J.reset f p)

  unfoldable pub finish_hide : Config → Node → J.Page → J.Page
  finish_hide c self p =
      let scrolled = if c.reset_scroll then J.set_scroll_top (pos 0) self p else p in
      if c.reset_forms
      then reset_each (J.find (codes "form") (self ∷ []) scrolled) scrolled
      else scrolled

  -- Runs a function that was given to `setTimeout`.
  unfoldable pub run_task : Panel → Task → World → World
  run_task k after_hide w = record w { page = finish_hide k.config k.self w.page }
  run_task k (redirect href target) w =
      if maybe_eq target (codes "_blank")
      then record w { visits = w.visits ++ open_window href ∷ [] }
      else record w { visits = w.visits ++ assign_location href ∷ [] }

  unfoldable pub on_link_click : Panel → Input → Event → World → World × Event
  on_link_click k i v w =
      let href = J.attr "href" (i.node ∷ []) w.page in
      let target = J.attr "target" (i.node ∷ []) w.page in
      if is_inert k.id href then (w, v) else (
        set_timeout (redirect (text_or href) target) (k.config.delay + 10)
            (hide_quietly k.config w),
        cancel v,
      )

  unfoldable pub on_touch_start : Panel → Input → Event → World → World × Event
  on_touch_start k i v w = (record w { touch_x = at i.page_x; touch_y = at i.page_y }, v)

  -- The part of the `touchmove` handler behind the swipe.
  unfoldable pub hold_scroll : Panel → Input → Event → World → World × Event
  hold_scroll k i v w =
      let left = J.scroll_height k.self w.page -ℤ J.scroll_top k.self w.page in
      if is_overscroll (J.scroll_top k.self w.page) left (J.outer_height k.self w.page)
        (minus w.touch_y i.page_y)
      then (w, cancel v)
      else (w, v)

  unfoldable pub on_touch_move : Panel → Input → Event → World → World × Event
  on_touch_move k i v w =
      if is_null w.touch_x || is_null w.touch_y
      then (w, v)
      else if k.config.hide_on_swipe
          && is_swipe k.config.side (minus w.touch_x i.page_x) (minus w.touch_y i.page_y)
      then (hide_quietly k.config (record w { touch_x = null; touch_y = null }), cancel v)
      else hold_scroll k i v w

  unfoldable pub on_swallow : Panel → Input → Event → World → World × Event
  on_swallow k i v w = (w, stop_propagation v)

  unfoldable pub on_self_link : Panel → Input → Event → World → World × Event
  on_self_link k i v w =
      (record w { page = J.remove_class k.config.visible_class k.config.target w.page }, cancel v)

  unfoldable pub on_body_hide : Panel → Input → Event → World → World × Event
  on_body_hide k i v w = hide_on k.config v w

  unfoldable pub on_toggle_link : Panel → Input → Event → World → World × Event
  on_toggle_link k i v w =
      (record w { page = J.toggle_class k.config.visible_class k.config.target w.page }, cancel v)

  unfoldable pub on_escape_key : Panel → Input → Event → World → World × Event
  on_escape_key k i v w = if i.key_code == 27 then hide_on k.config v w else (w, v)

  -- The function that a binding names.
  unfoldable pub handle : Handler → Panel → Input → Event → World → World × Event
  handle link_click = on_link_click
  handle touch_start = on_touch_start
  handle touch_move = on_touch_move
  handle swallow = on_swallow
  handle self_link = on_self_link
  handle body_hide = on_body_hide
  handle toggle_link = on_toggle_link
  handle escape_key = on_escape_key
