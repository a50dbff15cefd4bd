-- ===== src/Tests/PanelRuns.antt =====
-- A run of the panel: a click on its link, and the timer of the redirect before that of `_hide`.
use benji.Prelude.{◌≡◌, refl, none, [], ◌∷◌, codes, inl}
use benji.Panel.{link_click, bindings_of}
use benji.Panel.Handlers.{World, Timer, after_hide, redirect, run_task, handle, hide, on_link_click}
use benji.Panel.Handlers.Reach.{event, fire, Reach, here, next, IsBound, IsSound, Reach-IsSound}
use benji.Panel.Handlers.Frame.{Reach-keeps_classes}
use benji.JQuery.{class_name}
use benji.Tests.Memory.{memory-IsLawful}
use benji.Tests.Panel.{J, k, start, input, find}
use benji.Tests.Panel.{event as unhandled}

abbrev clicked : World J
clicked = (handle J link_click k (input 0 0) unhandled start).0

abbrev hiding : Timer
hiding = record { task = after_hide; delay = 500 }

abbrev going : Timer
going = record { task = redirect (codes "/docs") none; delay = 510 }

click_binds : IsBound link_click k.bindings
unfolding bindings_of
click_binds = inl refl

clicked-timers : clicked.timers ≡ hiding ∷ going ∷ []
unfolding handle on_link_click hide
clicked-timers = refl

abbrev gone : World J
gone = run_task J k going.task (record clicked { timers = hiding ∷ [] })

run : Reach J k start gone
run =
    next (next here (event link_click (input 0 0) unhandled start click_binds))
      (fire (hiding ∷ []) [] going clicked clicked-timers)

start-IsSound : IsSound J k start start
start-IsSound = record { paired = tt; timers = tt; visits = tt }

Reach-IsSound_example : IsSound J k start gone
Reach-IsSound_example = Reach-IsSound J k start refl run start-IsSound

Reach-keeps_classes_example :
    J.look gone.page 1 (class_name "dark") ≡ J.look start.page 1 (class_name "dark")
Reach-keeps_classes_example = Reach-keeps_classes J (memory-IsLawful find) k 1 "dark" refl refl run
