-- ===== src/Placeholder/Forms/Submit.antt =====
-- What a form sends: after `submit`, no placeholder and no twin.
use mathlib.Core.Path.{ap₂}
use benji.Prelude.{
  ◌==◌, ◌≡◌, refl, ◌∙◌, Bool, true, ◌&&◌, none, some, List, [], ◌∷◌, arith, Text, codes, maybe_eq,
  text_or, if◌then◌else◌, ==_refl, ==_iff, is_some, contains, IsNodup, All, Option-cases, inl, inr,
}
use benji.JQuery.{JQuery, IsLawful, Node, Slot, value, attribute, class_name, slot_eq, polyfill}
use benji.Placeholder.{done, thrown, each, suffix}
use benji.Placeholder.Names.{ends_with}
use benji.Placeholder.TextFields.Laws.{look-clear_placeholder, is_this}
use benji.Placeholder.Forms.{clear_if_placeholder, submit_field, on_submit}
use benji.Placeholder.Forms.Local.{View, IsLocal, each-local}

abbrev pub is_twin : View → Bool
is_twin l = ends_with suffix (text_or (l (attribute "name")))

abbrev pub shows_placeholder : View → Bool
shows_placeholder l = maybe_eq (l (attribute "placeholder")) (text_or (l value))

-- A field after the submission: a twin has the empty name, and a field that showed its placeholder is
-- empty and not marked.
abbrev pub submitted : View → View
submitted l s =
    if slot_eq (attribute "name") s && is_twin l
    then some []
    else if slot_eq value s && shows_placeholder l
    then some []
    else if slot_eq (class_name polyfill) s && shows_placeholder l
    then none
    else l s

abbrev pub IsNamed : View → Type 0
IsNamed l = is_some (l (attribute "name")) ≡ true

module _ (J : JQuery) (L : IsLawful J) where
  look-clear_if_placeholder :
      (e : Node) (p : J.Page) (x : Node) (s : Slot)
      → J.look (clear_if_placeholder J e p) x s ≡ (
          if x == e
          then if slot_eq value s && shows_placeholder (J.look p e)
            then some []
            else if slot_eq (class_name polyfill) s && shows_placeholder (J.look p e)
            then none
            else J.look p x s
          else J.look p x s)
  unfolding clear_if_placeholder
  look-clear_if_placeholder e p x s =
      ground
        (arith, L.attr-look "placeholder" e p, L.val-look e p, look-clear_placeholder J L e p x s)

  -- A twin loses its name.
  look-rename :
      (twin : Bool) (e : Node) (p : J.Page) (x : Node) (s : Slot)
      → J.look (if twin then J.set_attr "name" (some []) (e ∷ []) p else p) x s
        ≡ (if is_this e (attribute "name") x s && twin then some [] else J.look p x s)
  look-rename twin e p x s = ground (arith, L.look-set_attr "name" [] (e ∷ []) p x s refl)

  submit_field-done :
      (e : Node) (p : J.Page) (name : Text)
      → J.look p e (attribute "name") ≡ some name
      → submit_field J e p
        ≡ done (
            clear_if_placeholder J e
              (if ends_with suffix name then J.set_attr "name" (some []) (e ∷ []) p else p))
  unfolding submit_field
  submit_field-done e p name has = ground (arith, L.attr-look "name" e p, has)

  submit_field-local : IsLocal J IsNamed submitted (submit_field J)
  submit_field-local e p named = elim (Option-cases (J.look p e (attribute "name"))) [
    | inl no_name ↦ absurd (ground (arith, named))
    | inr (name, has) ↦
        let twin = ends_with suffix name in
        let p' = if twin then J.set_attr "name" (some []) (e ∷ []) p else p in
        let same_ph : J.look p' e (attribute "placeholder") ≡ J.look p e (attribute "placeholder") =
          look-rename twin e p e (attribute "placeholder") ∙ rw ==_refl in
        let same_value : J.look p' e value ≡ J.look p e value =
          look-rename twin e p e value ∙ rw ==_refl in
        let same : shows_placeholder (J.look p' e) ≡ shows_placeholder (J.look p e) =
          ap₂ (λ ph v. maybe_eq ph (text_or v)) same_ph same_value in
        (
          clear_if_placeholder J e p',
          submit_field-done e p name has,
          λ x s.
              look-clear_if_placeholder e p' x s
              ∙ ground (arith, same, look-rename twin e p x s, has, ==_iff x e),
        )
  ]

  -- If every field that `submit` finds in a form has a name, the handler ends without an error. Each
  -- of these fields is then empty and not marked if it showed its placeholder, and has the empty name
  -- if it is a twin; what else they show stays, and so does every other element.
  pub on_submit_outcome :
      (form : Node) (p : J.Page) (fields : List Node)
      → J.find (codes "input[type=text],input[type=password],textarea") (form ∷ []) p ≡ fields
      → IsNodup fields
      → All (λ e. IsNamed (J.look p e)) fields
      → (q : J.Page) × (on_submit J form p ≡ done q)
        × ((x : Node) (s : Slot)
            → J.look q x s ≡ (if contains fields x then submitted (J.look p x) s else J.look p x s))
  unfolding on_submit
  on_submit_outcome form p fields found n named =
      rw found (each-local J IsNamed submitted (submit_field J) submit_field-local fields p n named)

  -- A field without a name stops the handler with an error where it stands: the fields behind it are
  -- left as they are, placeholders and all.
  pub on_submit_throws :
      (form e : Node) (p : J.Page) (fields : List Node)
      → J.find (codes "input[type=text],input[type=password],textarea") (form ∷ []) p ≡ e ∷ fields
      → J.look p e (attribute "name") ≡ none
      → on_submit J form p ≡ thrown p
  unfolding on_submit submit_field each
  on_submit_throws form e p fields found no_name =
      ground (arith, found, L.attr-look "name" e p, no_name)
