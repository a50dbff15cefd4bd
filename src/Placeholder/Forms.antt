-- ===== src/Placeholder/Forms.antt =====
-- A form with the polyfill: what is done before it is submitted, and in place of its reset.
pub mod Local
pub mod Submit
pub mod Reset
use benji.Prelude.{
  Bool, ◌||◌, Option, none, some, List, [], ◌∷◌, ◌++◌, Text, codes, maybe_eq, text_eq, to_text,
  if◌then◌else◌,
}
use benji.JQuery.{JQuery, Node, polyfill}
use benji.Placeholder.{Fields, Outcome, done, thrown, each, suffix}
use benji.Placeholder.Names.{ends_with}
use benji.Placeholder.TextFields.{value_of, attribute_of, show_placeholder, clear_placeholder}
use benji.Placeholder.Twins.{twin_of}

module _ (J : JQuery) where
  -- `if (i.val() == i.attr('placeholder')) …`
  unfoldable pub clear_if_placeholder : Node → J.Page → J.Page
  clear_if_placeholder i p =
      if maybe_eq (attribute_of J "placeholder" i p) (value_of J i p)
      then clear_placeholder J i p
      else p

  -- One field of a form that is submitted: a twin loses its name, a placeholder is taken out.
  -- `.match` throws if there is no name.
  unfoldable pub submit_field : Node → J.Page → Outcome J.Page
  submit_field i p = elim (attribute_of J "name" i p) [
    | none ↦ thrown p
    | some name ↦ done (
        clear_if_placeholder i
          (if ends_with suffix name then J.set_attr "name" (some []) (i ∷ []) p else p))
  ]

  unfoldable pub on_submit : Node → J.Page → Outcome J.Page
  on_submit form p =
      each submit_field
        (J.find (codes "input[type=text],input[type=password],textarea") (form ∷ []) p) p

  -- `i.val(i.attr('defaultValue'))`
  abbrev pub set_default : Node → J.Page → J.Page
  set_default i p = J.set_val (attribute_of J "defaultValue" i p) (i ∷ []) p

  unfoldable pub reset_password : Node → J.Page → J.Page
  reset_password i p =
      let p' = set_default i p in
      let x = twin_of J i p' in
      if text_eq (value_of J i p') []
      then J.show x (J.hide (i ∷ []) p')
      else J.hide x (J.show (i ∷ []) p')

  unfoldable pub reset_text : Node → J.Page → J.Page
  reset_text i p =
      let p' = set_default i p in
      if text_eq (value_of J i p') [] then show_placeholder J i p' else p'

  -- `i.attr('checked', i.attr('defaultValue'))`
  unfoldable pub reset_checked : Node → J.Page → J.Page
  reset_checked i p = J.set_attr "checked" (attribute_of J "defaultValue" i p) (i ∷ []) p

  -- One `input` or `textarea` of a form that is reset, by its type.
  unfoldable pub reset_by_type : Text → Node → J.Page → J.Page
  reset_by_type type i p =
      if text_eq type (codes "submit") || text_eq type (codes "reset")
      then p
      else if text_eq type (codes "password")
      then reset_password i p
      else if text_eq type (codes "checkbox") || text_eq type (codes "radio")
      then reset_checked i p
      else if text_eq type (codes "text") || text_eq type (codes "textarea")
      then reset_text i p
      else set_default i p

  unfoldable pub reset_field : Fields J → Node → J.Page → Outcome J.Page
  reset_field F i p =
      let p' = J.remove_class polyfill (i ∷ []) p in done (reset_by_type (F.type_of i p') i p')

  -- `$('option:first').val()`, undefined if the page has no option.
  abbrev pub first_option : J.Page → Option Text
  first_option p = elim (J.query (codes "option:first") p) [
    | [] ↦ none
    | o ∷ _ ↦ some (value_of J o p)
  ]

  -- The browser's own reset is prevented.
  unfoldable pub on_reset : Fields J → Node → J.Page → Outcome J.Page
  on_reset F form p =
      let p' = J.set_val (first_option p) (J.find (codes "select") (form ∷ []) p) p in
      each (reset_field F) (J.find (codes "input,textarea") (form ∷ []) p') p'
