-- ===== src/Panel/Handlers/Frame.antt =====
-- The classes that a panel leaves alone, whatever happens to it.
use benji.Prelude.{
  ◌≡◌, refl, ◌∙◌, false, Option, none, some, List, [], ◌∷◌, ◌++◌, arith, Text, String, str_eq,
  if◌then◌else◌, codes,
}
use benji.Prelude.Int.{pos}
use benji.JQuery.{JQuery, IsLawful, Node, class_name, is_at, polyfill}
use benji.Panel.{
  Panel, Handler, link_click, touch_start, touch_move, swallow, self_link, body_hide, toggle_link,
  escape_key,
}
use benji.Panel.Touch.{null}
use benji.Panel.Handlers.{
  Event, Input, World, Task, after_hide, redirect, hide, run_task, handle, finish_hide, reset_each,
  hold_scroll, on_link_click, on_touch_start, on_touch_move, on_swallow, on_self_link, on_body_hide,
  on_toggle_link, on_escape_key,
}
use benji.Panel.Handlers.Visibility.{look-hide}
use benji.Panel.Handlers.Reach.{Step, event, fire, Reach, here, next}

module _ (J : JQuery) (L : IsLawful J) (k : Panel) (e : Node) (c : String)
    (other : is_at k.config.target (class_name k.config.visible_class) e (class_name c) ≡ false)
    (not_polyfill : str_eq polyfill c ≡ false) where
  abbrev sees : J.Page → Option Text
  sees p = J.look p e (class_name c)

  hide-sees : (v : Option Event) (w : World J) → sees (hide J k.config v w).0.page ≡ sees w.page
  hide-sees v w = look-hide J L k.config v w e (class_name c) ∙ ground (arith, other)

  reset_each-sees : (fs : List Node) (p : J.Page) → sees (reset_each J fs p) ≡ sees p
  unfolding reset_each
  reset_each-sees [] p = refl
  reset_each-sees (f ∷ fs) p = reset_each-sees fs (J.reset f p) ∙ L.look-reset f p e c not_polyfill

  finish_hide-sees : (p : J.Page) → sees (finish_hide J k.config k.self p) ≡ sees p
  unfolding finish_hide
  finish_hide-sees p =
      let scrolled = if k.config.reset_scroll then J.set_scroll_top (pos 0) k.self p else p in
      ground (
        arith,
        reset_each-sees (J.find (codes "form") (k.self ∷ []) scrolled) scrolled,
        L.look-set_scroll_top (pos 0) k.self p e (class_name c),
      )

  handle-sees :
      (h : Handler) (i : Input) (v : Event) (w : World J)
      → sees (handle J h k i v w).0.page ≡ sees w.page
  unfolding handle
  handle-sees link_click i v w = unfold on_link_click in ground (arith, hide-sees none w)
  handle-sees touch_start i v w = unfold on_touch_start in refl
  handle-sees touch_move i v w =
      unfold on_touch_move hold_scroll in
      ground (arith, hide-sees none (record w { touch_x = null; touch_y = null }))
  handle-sees swallow i v w = unfold on_swallow in refl
  handle-sees self_link i v w =
      unfold on_self_link in
      L.look-remove_class k.config.visible_class k.config.target w.page e (class_name c) ∙ rw other
  handle-sees body_hide i v w = unfold on_body_hide in hide-sees (some v) w
  handle-sees toggle_link i v w =
      unfold on_toggle_link in
      L.look-toggle_class k.config.visible_class k.config.target w.page e (class_name c) ∙ rw other
  handle-sees escape_key i v w = unfold on_escape_key in ground (arith, hide-sees (some v) w)

  run_task-sees : (t : Task) (w : World J) → sees (run_task J k t w).page ≡ sees w.page
  unfolding run_task
  run_task-sees after_hide w = finish_hide-sees w.page
  run_task-sees (redirect href target) w = ground arith

  step-sees : {w w' : World J} → Step J k w w' → sees w'.page ≡ sees w.page
  step-sees (event h i v w _) = handle-sees h i v w
  step-sees (fire before after t w _) = run_task-sees t.task (record w { timers = before ++ after })

  Reach-sees : {start w : World J} → Reach J k start w → sees w.page ≡ sees start.page
  Reach-sees here = refl
  Reach-sees (next r st) = step-sees st ∙ Reach-sees r

-- Whatever events reach a panel and whatever timers fire: of every element, a class that is not the
-- visible class of the panel's target, and not the class of the placeholder polyfill, stays as it
-- was, there or not there.
pub Reach-keeps_classes :
    (J : JQuery) (L : IsLawful J) (k : Panel) (e : Node) (c : String) {start w : World J}
    → is_at k.config.target (class_name k.config.visible_class) e (class_name c) ≡ false
    → str_eq polyfill c ≡ false
    → Reach J k start w
    → J.look w.page e (class_name c) ≡ J.look start.page e (class_name c)
Reach-keeps_classes J L k e c other not_polyfill r = Reach-sees J L k e c other not_polyfill r
