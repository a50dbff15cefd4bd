-- ===== src/Panel/Handlers/Visibility.antt =====
-- When a panel is visible: `_hide`, the links that toggle it, and what else they leave alone.
use benji.Prelude.{
  ◌≡◌, refl, false, not, ◌&&◌, Option, none, [], ◌∷◌, ◌++◌, arith, is_some, if◌then◌else◌,
}
use benji.JQuery.{JQuery, IsLawful, Node, Slot, class_name, is_at, flip_mark}
use benji.JQuery.Laws.{has_class-remove_class, has_class-toggle_class}
use benji.Panel.{Panel, Config}
use benji.Panel.Handlers.{
  Event, Input, World, after_hide, cancel, cancel_given, is_visible, hide, on_toggle_link,
  on_self_link,
}

module _ (J : JQuery) (L : IsLawful J) where
  -- After `_hide` the panel is not visible. If it was visible, its class is removed, one call of
  -- `setTimeout` is made, with the configured delay, and the event, if one is given, is cancelled; if
  -- it was not, the page, the timers and the event are as before. In both cases the touch positions
  -- and the pages visited stay.
  pub hide_outcome :
      (c : Config) (v : Option Event) (w : World J)
      → (is_visible J c (hide J c v w).0.page ≡ false)
        × ((hide J c v w).0.timers ≡ (
            if is_visible J c w.page
            then w.timers ++ record { task = after_hide; delay = c.delay } ∷ []
            else w.timers))
        × ((hide J c v w).1 ≡ (if is_visible J c w.page then cancel_given v else v))
        × ((hide J c v w).0.page ≡ (
            if is_visible J c w.page
            then J.remove_class c.visible_class c.target w.page
            else w.page))
        × ((hide J c v w).0.touch_x ≡ w.touch_x)
        × ((hide J c v w).0.touch_y ≡ w.touch_y)
        × ((hide J c v w).0.visits ≡ w.visits)
  unfolding hide
  hide_outcome c v w = ground (arith, has_class-remove_class J L c.visible_class c.target w.page)

  -- A second `_hide` does nothing, whatever the events: one opening gives one closing.
  pub hide_twice :
      (c : Config) (u v : Option Event) (w : World J)
      → hide J c v (hide J c u w).0 ≡ ((hide J c u w).0, v)
  unfolding hide
  hide_twice c u v w = rw (hide, (hide_outcome c u w).0)

  -- `_hide` takes the visible class off the target, if any of it had the class, and changes nothing
  -- else that can be seen of any element.
  pub look-hide :
      (c : Config) (v : Option Event) (w : World J) (e : Node) (s : Slot)
      → J.look (hide J c v w).0.page e s ≡ (
          if is_visible J c w.page && is_at c.target (class_name c.visible_class) e s
          then none
          else J.look w.page e s)
  unfolding hide
  look-hide c v w e s = ground (arith, L.look-remove_class c.visible_class c.target w.page e s)

  -- For a target of one element: a click on the panel's own link inside it, or on a link to it
  -- elsewhere, is cancelled and starts no timer, so neither resets the scroll position or the forms.
  -- The first leaves the panel not visible. The second shows the panel if it was not visible and
  -- hides it if it was.
  pub own_links_outcome :
      (k : Panel) (i : Input) (v : Event) (w : World J) (e : Node)
      → k.config.target ≡ e ∷ []
      → (is_visible J k.config (on_self_link J k i v w).0.page ≡ false)
        × (is_visible J k.config (on_toggle_link J k i v w).0.page
            ≡ not (is_visible J k.config w.page))
        × ((on_self_link J k i v w).0.timers ≡ w.timers)
        × ((on_toggle_link J k i v w).0.timers ≡ w.timers)
        × ((on_self_link J k i v w).1 ≡ cancel v)
        × ((on_toggle_link J k i v w).1 ≡ cancel v)
  unfolding on_self_link on_toggle_link
  own_links_outcome k i v w e one = (
    has_class-remove_class J L k.config.visible_class k.config.target w.page,
    rw one (has_class-toggle_class J L k.config.visible_class e w.page),
    refl,
    refl,
    refl,
    refl,
  )

  -- Two clicks on a link to the panel, whatever its target: each class and mark is there after them
  -- if and only if it was there before, and every slot but the visible class of the target keeps
  -- what it holds.
  pub toggle_twice :
      (k : Panel) (i j : Input) (u v : Event) (w : World J) (e : Node) (s : Slot)
      → (is_some (J.look (on_toggle_link J k j v (on_toggle_link J k i u w).0).0.page e s)
          ≡ is_some (J.look w.page e s))
        × (J.look (on_toggle_link J k j v (on_toggle_link J k i u w).0).0.page e s ≡ (
            if is_at k.config.target (class_name k.config.visible_class) e s
            then flip_mark (flip_mark (J.look w.page e s))
            else J.look w.page e s))
  unfolding on_toggle_link
  toggle_twice k i j u v w e s =
      let c = k.config in
      let once = J.toggle_class c.visible_class c.target w.page in
      ground (
        arith,
        L.look-toggle_class c.visible_class c.target once e s,
        L.look-toggle_class c.visible_class c.target w.page e s,
      )
