-- ===== src/Placeholder/Setup/Laws.antt =====
-- What a call of `placeholder` binds.
use benji.Prelude.{
  ◌≡◌, Bool, true, false, List, [], ◌∷◌, map, All, String, str_eq, if◌then◌else◌, length,
}
use benji.JQuery.{JQuery, Node}
use benji.Placeholder.Setup.{
  Handler, text_blur, text_focus, password_blur, twin_focus, twin_keypress, form_submit, form_reset,
  Binding,
}

-- The event that a handler is written for.
abbrev event_of : Handler → String
event_of text_blur = "blur"
event_of text_focus = "focus"
event_of password_blur = "blur"
event_of twin_focus = "focus"
event_of twin_keypress = "keypress"
event_of form_submit = "submit"
event_of form_reset = "reset"

abbrev same : Handler → Handler → Bool
same text_blur text_blur = true
same text_focus text_focus = true
same password_blur password_blur = true
same twin_focus twin_focus = true
same twin_keypress twin_keypress = true
same form_submit form_submit = true
same form_reset form_reset = true
same _ _ = false

-- The elements that the calls of `on` with a handler bind, call by call.
pub nodes_of : Handler → List Binding → List (List Node)
nodes_of h [] = []
nodes_of h (b ∷ bs) = let rest = nodes_of h bs in if same h b.handler then b.nodes ∷ rest else rest

-- The bindings of some forms: each form's submission and reset are handled once, the text fields are
-- watched once for each form, the same when they lose the focus and when they get it, twins are
-- watched alike for the focus and for a key, one for each password field that is watched, and each
-- handler gets the event that it is for.
pub record AreBound (es : List Node) (bs : List Binding) : Type 0 where
  pub submits : nodes_of form_submit bs ≡ map (λ e. e ∷ []) es
  pub resets : nodes_of form_reset bs ≡ map (λ e. e ∷ []) es
  pub texts : nodes_of text_blur bs ≡ nodes_of text_focus bs
  pub one_each : length (nodes_of text_blur bs) ≡ length es
  pub twins : nodes_of twin_focus bs ≡ nodes_of twin_keypress bs
  pub pairs : length (nodes_of password_blur bs) ≡ length (nodes_of twin_focus bs)
  pub events : All (λ b. str_eq b.event (event_of b.handler) ≡ true) bs
