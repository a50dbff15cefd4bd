-- ===== src/Panel/Handlers/Reach.antt =====
-- Every state that a panel can come to: any event may reach any function that the panel has bound,
-- and any timer may fire.
use benji.Prelude.{
  ℕ, ◌+◌, ◌==◌, ◌≡◌, refl, Bool, true, false, ◌||◌, ◌&&◌, Option, none, some, List, [], ◌∷◌, ◌++◌,
  arith, Text, Bool-cases, inl, inr, if_either, All-split, ◌⊎◌, All, All-append, codes, maybe_eq,
  text_or,
}
use benji.JQuery.{JQuery, Node}
use benji.Panel.{
  Panel, Config, Binding, Handler, link_click, touch_start, touch_move, swallow, self_link,
  body_hide, toggle_link, escape_key, bindings_of,
}
use benji.Panel.Touch.{is_null, is_swipe, minus, Position, undefined, null, at}
use benji.Panel.Handlers.{
  Event, Input, World, Timer, Task, after_hide, redirect, Visit, open_window, assign_location,
  is_inert, hide, run_task, handle, hold_scroll, on_link_click, on_touch_start, on_touch_move,
  on_swallow, on_self_link, on_body_hide, on_toggle_link, on_escape_key,
}

-- The handler of one of the bindings.
abbrev pub IsBound : Handler → List Binding → Type 0
IsBound h [] = ⊥
IsBound h (b ∷ bs) = (b.handler ≡ h) ⊎ IsBound h bs

module _ (J : JQuery) (k : Panel) where
  -- An event may reach any function that is bound, and any timer may fire. Firing takes it away.
  pub data Step : World J → World J → Type 0 where
    event :
        (h : Handler) (i : Input) (v : Event) (w : World J)
        → IsBound h k.bindings
        → Step w (handle J h k i v w).0
    fire :
        (before after : List Timer) (t : Timer) (w : World J)
        → w.timers ≡ before ++ t ∷ after
        → Step w (run_task J k t.task (record w { timers = before ++ after }))

  pub data Reach (start : World J) : World J → Type 0 where
    here : Reach start start
    next : {w w' : World J} → Reach start w → Step w w' → Reach start w'

-- A page that the panel may send the browser to: the href that an element has in a state of the run,
-- where it is not one of those that lead nowhere.
module _ (J : JQuery) (k : Panel) (start : World J) where
  abbrev pub IsTarget : Text → Type 0
  IsTarget href =
      (k.config.hide_on_click ≡ true)
      × ((w : World J) × Reach J k start w
          × ((n : Node) × (is_inert k.id (J.attr "href" (n ∷ []) w.page) ≡ false)
              × (href ≡ text_or (J.attr "href" (n ∷ []) w.page))))

  abbrev pub TimerIsSound : Timer → Type 0
  TimerIsSound t = elim t.task [
    | after_hide ↦ t.delay ≡ k.config.delay
    | redirect href target ↦ (t.delay ≡ k.config.delay + 10) × IsTarget href
  ]

  abbrev pub VisitIsSound : Visit → Type 0
  VisitIsSound (open_window href) = IsTarget href
  VisitIsSound (assign_location href) = IsTarget href

-- Both coordinates of the touch are undefined, or both are null, and only if the panel hides on a
-- swipe, or both are numbers.
abbrev pub IsPaired : Bool → Position → Position → Type 0
IsPaired swipes undefined undefined = Unit
IsPaired swipes null null = swipes ≡ true
IsPaired swipes (at _) (at _) = Unit
IsPaired swipes _ _ = ⊥

pub record IsSound (J : JQuery) (k : Panel) (start w : World J) : Type 0 where
  pub paired : IsPaired k.config.hide_on_swipe w.touch_x w.touch_y
  pub timers : All (TimerIsSound J k start) w.timers
  pub visits : All (VisitIsSound J k start) w.visits

link_click-IsBound :
    (c : Config) (id : Option Text) → IsBound link_click (bindings_of c id) → c.hide_on_click ≡ true
unfolding bindings_of
link_click-IsBound c id h = ground arith

module _ (J : JQuery) (k : Panel) (start : World J) where
  hide-IsSound :
      (v : Option Event) (w : World J)
      → IsSound J k start w
      → IsSound J k start (hide J k.config v w).0
  unfolding hide
  hide-IsSound v w s = record {
    paired = ground (arith, s.paired);
    timers = ground (
      arith,
      s.timers,
      All-append (TimerIsSound J k start) w.timers
          (record { task = after_hide; delay = k.config.delay } ∷ []) s.timers (refl, tt),
    );
    visits = ground (arith, s.visits);
  }

  on_link_click-IsSound :
      (i : Input) (v : Event) (w : World J)
      → k.config.hide_on_click ≡ true
      → Reach J k start w
      → IsSound J k start w
      → IsSound J k start (on_link_click J k i v w).0
  unfolding on_link_click
  on_link_click-IsSound i v w on run s =
      let href = J.attr "href" (i.node ∷ []) w.page in
      if_either {A = World J × Event} (λ r. IsSound J k start r.0) (is_inert k.id href) _ _ (λ _. s)
        λ away.
          let hidden = hide-IsSound none w s in
          record {
            paired = hidden.paired;
            timers =
                All-append (TimerIsSound J k start) (hide J k.config none w).0.timers _
                  hidden.timers ((refl, (on, (w, run, (i.node, away, refl)))), tt);
            visits = hidden.visits;
          }

  hold_scroll-fst : (i : Input) (v : Event) (w : World J) → (hold_scroll J k i v w).0 ≡ w
  unfolding hold_scroll
  hold_scroll-fst i v w = ground arith

  on_touch_move-IsSound :
      (i : Input) (v : Event) (w : World J)
      → IsSound J k start w
      → IsSound J k start (on_touch_move J k i v w).0
  unfolding on_touch_move
  on_touch_move-IsSound i v w s =
      let swipes =
        k.config.hide_on_swipe
        && is_swipe k.config.side (minus w.touch_x i.page_x) (minus w.touch_y i.page_y) in
      elim (Bool-cases (is_null w.touch_x || is_null w.touch_y)) [
        | inl ended ↦ rw ended s
        | inr active ↦ elim (Bool-cases swipes) [
          | inl swiped ↦
              let on : k.config.hide_on_swipe ≡ true = ground (arith, swiped) in
              rw (active, swiped)
                (hide-IsSound none (record w { touch_x = null; touch_y = null })
                  (record { paired = on; timers = s.timers; visits = s.visits }))
          | inr held ↦ rw (active, held) (rw (hold_scroll-fst i v w) s)
        ]
      ]

  handle-IsSound :
      (h : Handler) (i : Input) (v : Event) (w : World J)
      → k.bindings ≡ bindings_of k.config k.id
      → IsBound h k.bindings
      → Reach J k start w
      → IsSound J k start w
      → IsSound J k start (handle J h k i v w).0
  unfolding handle
  handle-IsSound link_click i v w e b run s =
      on_link_click-IsSound i v w (link_click-IsBound k.config k.id (rw e at b)) run s
  handle-IsSound touch_start i v w e b run s =
      unfold on_touch_start in record { paired = tt; timers = s.timers; visits = s.visits }
  handle-IsSound touch_move i v w e b run s = on_touch_move-IsSound i v w s
  handle-IsSound swallow i v w e b run s = unfold on_swallow in s
  handle-IsSound self_link i v w e b run s =
      unfold on_self_link in record { paired = s.paired; timers = s.timers; visits = s.visits }
  handle-IsSound body_hide i v w e b run s = unfold on_body_hide in hide-IsSound (some v) w s
  handle-IsSound toggle_link i v w e b run s =
      unfold on_toggle_link in record { paired = s.paired; timers = s.timers; visits = s.visits }
  handle-IsSound escape_key i v w e b run s =
      unfold on_escape_key in
      elim (Bool-cases (i.key_code == 27)) [
        | inl esc ↦ rw esc (hide-IsSound (some v) w s)
        | inr other ↦ rw other s
      ]

  run_task-IsSound :
      (task : Task) (delay : ℕ) (w : World J)
      → TimerIsSound J k start (record { task = task; delay = delay })
      → IsSound J k start w
      → IsSound J k start (run_task J k task w)
  unfolding run_task
  run_task-IsSound after_hide delay w h s = record {
    paired = s.paired;
    timers = s.timers;
    visits = s.visits;
  }
  run_task-IsSound (redirect href target) delay w (_, h) s =
      let visited = λ (v : Visit) (sound : VisitIsSound J k start v).
        All-append (VisitIsSound J k start) w.visits (v ∷ []) s.visits (sound, tt) in
      elim (Bool-cases (maybe_eq target (codes "_blank"))) [
        | inl blank ↦
            rw blank (record {
              paired = s.paired;
              timers = s.timers;
              visits = visited (open_window href) h;
            })
        | inr other ↦ rw other (record {
          paired = s.paired;
          timers = s.timers;
          visits = visited (assign_location href) h;
        })
      ]

  step-IsSound :
      {w w' : World J}
      → k.bindings ≡ bindings_of k.config k.id
      → Step J k w w'
      → Reach J k start w
      → IsSound J k start w
      → IsSound J k start w'
  step-IsSound e (event h i v w b) run s = handle-IsSound h i v w e b run s
  step-IsSound e (fire before after t w same) run s =
      let (past, (now, rest)) =
        All-split (TimerIsSound J k start) before (t ∷ after) (rw same at s.timers) in
      run_task-IsSound t.task t.delay (record w { timers = before ++ after }) now
        (record {
          paired = s.paired;
          timers = All-append (TimerIsSound J k start) before after past rest;
          visits = s.visits;
        })

  -- In every state that a panel, bound as it is installed, can come to from a sound one: the two
  -- touch positions are both undefined, both numbers, or both null, the last only if the panel hides
  -- on a swipe; each timer that is set ends a `_hide`, after the configured delay, or is a redirect 10
  -- milliseconds later; and each page that is visited or will be is the href that an element of the
  -- page had in a state of the run, where that led away, of a panel that hides on a click.
  pub Reach-IsSound :
      {w : World J}
      → k.bindings ≡ bindings_of k.config k.id
      → Reach J k start w
      → IsSound J k start start
      → IsSound J k start w
  Reach-IsSound e here s = s
  Reach-IsSound e (next r st) s = step-IsSound e st r (Reach-IsSound e r s)
