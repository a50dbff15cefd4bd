-- ===== src/Placeholder/TextFields.antt =====
-- Text fields and text areas: the placeholder is put into an empty field and marked by a class, and
-- is taken out again when the field gets the focus.
pub mod Laws
use benji.Prelude.{
  ℕ, ◌==◌, ◌≡◌, ◌≢◌, refl, ◌∙◌, ap, Bool, true, false, ◌||◌, ◌&&◌, not, Option, none, some, List,
  [], ◌∷◌, ◌++◌, arith, String, Text, codes, maybe_eq, text_eq, text_or, text_eq_sound,
  text_eq_refl, if◌then◌else◌, ==_refl, is_some, contains, Bool-cases, Option-cases, inl, inr,
}
use benji.JQuery.{
  JQuery, IsLawful, Node, Slot, value, attribute, class_name, hidden, is_at, slot_eq, polyfill,
}
use benji.Placeholder.{Outcome, done, thrown, page_of, suffix}
use benji.Placeholder.Names.{ends_with}

module _ (J : JQuery) where
  -- The value of a field and its attributes, through `$(this)`.
  abbrev pub value_of : Node → J.Page → Text
  value_of e p = J.val (e ∷ []) p

  abbrev pub attribute_of : String → Node → J.Page → Option Text
  attribute_of n e p = J.attr n (e ∷ []) p

  -- `i.addClass('polyfill-placeholder').val(i.attr('placeholder'))`
  unfoldable pub show_placeholder : Node → J.Page → J.Page
  show_placeholder e p =
      J.set_val (attribute_of "placeholder" e p) (e ∷ []) (J.add_class polyfill (e ∷ []) p)

  -- `i.removeClass('polyfill-placeholder').val('')`
  unfoldable pub clear_placeholder : Node → J.Page → J.Page
  clear_placeholder e p = J.set_val (some []) (e ∷ []) (J.remove_class polyfill (e ∷ []) p)

  -- What is done to each text field at first.
  unfoldable pub init_text : Node → J.Page → J.Page
  init_text e p =
      if text_eq (value_of e p) [] || maybe_eq (attribute_of "placeholder" e p) (value_of e p)
      then show_placeholder e p
      else p

  -- `i.attr('name').match(/-polyfill-field$/)` throws if there is no name.
  unfoldable pub unless_twin : (J.Page → Outcome J.Page) → Node → J.Page → Outcome J.Page
  unless_twin k e p = elim (attribute_of "name" e p) [
    | none ↦ thrown p
    | some name ↦ if ends_with suffix name then done p else k p
  ]

  unfoldable pub on_blur : Node → J.Page → Outcome J.Page
  on_blur e =
      unless_twin (λ p. done (if text_eq (value_of e p) [] then show_placeholder e p else p)) e

  unfoldable pub on_focus : Node → J.Page → Outcome J.Page
  on_focus e =
      unless_twin
        (λ p. done (
          if maybe_eq (attribute_of "placeholder" e p) (value_of e p)
          then clear_placeholder e p
          else p))
        e
