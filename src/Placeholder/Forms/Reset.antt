-- ===== src/Placeholder/Forms/Reset.antt =====
-- What the fields of a form hold after its reset, by their type.
use benji.Prelude.{
  ◌==◌, ◌≡◌, ◌∙◌, ap, ◌&&◌, not, none, some, [], ◌∷◌, arith, String, Text, codes, text_eq, text_or,
  if◌then◌else◌, ==_refl, ==_iff, is_some, Bool-cases, inl, inr, ◌⊎◌,
}
use benji.JQuery.{JQuery, IsLawful, Node, Slot, value, attribute, class_name, hidden, polyfill}
use benji.Placeholder.{Fields, done}
use benji.Placeholder.TextFields.{show_placeholder}
use benji.Placeholder.TextFields.Laws.{look-show_placeholder, is_this, shown, is_marked}
use benji.Placeholder.Twins.Laws.{IsPair, is_hidden, twin_of-IsPair}
use benji.Placeholder.Forms.{
  reset_field, reset_by_type, reset_text, reset_password, reset_checked, set_default,
}

module _ (J : JQuery) (L : IsLawful J) where
  look-set_default :
      (e : Node) (p : J.Page) (x : Node) (s : Slot)
      → J.look (set_default J e p) x s ≡ (
          if is_this e value x s
          then some (text_or (J.look p e (attribute "defaultValue")))
          else J.look p x s)
  look-set_default e p x s =
      L.look-set_val _ (e ∷ []) p x s ∙ ground (arith, L.attr-look "defaultValue" e p)

  reset_text_lem :
      (e : Node) (p : J.Page) (x : Node) (s : Slot)
      → J.look (reset_text J e p) x s ≡ (
          if text_eq (text_or (J.look p e (attribute "defaultValue"))) []
          then J.look (show_placeholder J e (set_default J e p)) x s
          else J.look (set_default J e p) x s)
  unfolding reset_text
  reset_text_lem e p x s =
      let default = text_or (J.look p e (attribute "defaultValue")) in
      let now : J.look (set_default J e p) e value ≡ some default =
        look-set_default e p e value ∙ rw ==_refl in
      ground (arith, L.val-look e (set_default J e p), now)

  reset_field-text :
      (F : Fields J) (e : Node) (p : J.Page)
      → (F.type_of e (J.remove_class polyfill (e ∷ []) p) ≡ codes "text")
        ⊎ (F.type_of e (J.remove_class polyfill (e ∷ []) p) ≡ codes "textarea")
      → reset_field J F e p ≡ done (reset_text J e (J.remove_class polyfill (e ∷ []) p))
  unfolding reset_field reset_by_type
  reset_field-text F e p (inl type) = ground (arith, type)
  reset_field-text F e p (inr type) = ground (arith, type)

  reset_field-checked :
      (F : Fields J) (e : Node) (p : J.Page)
      → (F.type_of e (J.remove_class polyfill (e ∷ []) p) ≡ codes "checkbox")
        ⊎ (F.type_of e (J.remove_class polyfill (e ∷ []) p) ≡ codes "radio")
      → reset_field J F e p ≡ done (reset_checked J e (J.remove_class polyfill (e ∷ []) p))
  unfolding reset_field reset_by_type
  reset_field-checked F e p (inl type) = ground (arith, type)
  reset_field-checked F e p (inr type) = ground (arith, type)

  -- The attribute `defaultValue` of a field, or '' if it has none.
  abbrev pub default_of : Node → J.Page → Text
  default_of e p = text_or (J.look p e (attribute "defaultValue"))

  attribute-unmarked :
      (n : String) (e : Node) (p : J.Page) (x : Node)
      → J.look (J.remove_class polyfill (e ∷ []) p) x (attribute n) ≡ J.look p x (attribute n)
  attribute-unmarked n e p x =
      L.look-remove_class polyfill (e ∷ []) p x (attribute n) ∙ ground arith

  -- What the reset of a text field shows of each element, from what it showed before.
  look-reset_text :
      (e : Node) (p : J.Page) (ph : Text) (x : Node) (s : Slot)
      → J.look p e (attribute "placeholder") ≡ some ph
      → J.look (reset_text J e p) x s ≡ (
          if is_this e value x s
          then some (if text_eq (default_of e p) [] then ph else default_of e p)
          else if is_this e (class_name polyfill) x s && text_eq (default_of e p) []
          then some []
          else J.look p x s)
  look-reset_text e p ph x s has =
      let same : J.look (set_default J e p) e (attribute "placeholder") ≡ some ph =
        look-set_default e p e (attribute "placeholder") ∙ rw ==_refl has in
      reset_text_lem e p x s
      ∙ ground (
        arith,
        look-show_placeholder J L e (set_default J e p) x s,
        look-set_default e p x s,
        same,
      )

  -- The reset of a text field or text area that has a placeholder: it shows the text of its attribute
  -- `defaultValue`, not marked, or its placeholder, marked, if that is missing or empty, whatever it
  -- showed before. `defaultValue` is a property of an element and no attribute of HTML, so a field
  -- whose markup gives it a value is reset to its placeholder too. No other element changes.
  pub reset_text_outcome :
      (F : Fields J) (e : Node) (p : J.Page) (ph : Text)
      → (F.type_of e (J.remove_class polyfill (e ∷ []) p) ≡ codes "text")
        ⊎ (F.type_of e (J.remove_class polyfill (e ∷ []) p) ≡ codes "textarea")
      → J.look p e (attribute "placeholder") ≡ some ph
      → (q : J.Page) × (reset_field J F e p ≡ done q)
        × (shown J e q ≡ (if text_eq (default_of e p) [] then ph else default_of e p))
        × (is_marked J e q ≡ text_eq (default_of e p) [])
        × ((x : Node) (s : Slot) → J.look q x s ≡ (if x == e then J.look q e s else J.look p x s))
  reset_text_outcome F e p ph type has =
      let p' = J.remove_class polyfill (e ∷ []) p in
      let has' : J.look p' e (attribute "placeholder") ≡ some ph =
        attribute-unmarked "placeholder" e p e ∙ has in
      let q = reset_text J e p' in
      let elsewhere = λ (x : Node) (s : Slot). look-reset_text e p' ph x s has' in
      (
        q,
        reset_field-text F e p type,
        ap text_or (elsewhere e value) ∙ rw (==_refl, attribute-unmarked "defaultValue" e p e),
        ap is_some (elsewhere e (class_name polyfill))
            ∙ ground (
              arith,
              L.look-remove_class polyfill (e ∷ []) p e (class_name polyfill),
              attribute-unmarked "defaultValue" e p e,
            ),
        λ x s. elim (Bool-cases (x == e)) [
          | inl this ↦ rw this (ap (λ y. J.look q y s) ((==_iff x e).0 this))
          | inr other ↦
              elsewhere x s ∙ rw other (L.look-remove_class polyfill (e ∷ []) p x s ∙ rw other)
        ],
      )

  -- The reset of a checkbox or radio button that has no attribute `defaultValue`: nothing that can be
  -- seen changes but the class of the polyfill. Since the browser's own reset is prevented, the
  -- button stays checked or not as it was.
  pub reset_checked_keeps :
      (F : Fields J) (e : Node) (p : J.Page) (x : Node) (s : Slot)
      → (F.type_of e (J.remove_class polyfill (e ∷ []) p) ≡ codes "checkbox")
        ⊎ (F.type_of e (J.remove_class polyfill (e ∷ []) p) ≡ codes "radio")
      → J.look p e (attribute "defaultValue") ≡ none
      → (q : J.Page) × (reset_field J F e p ≡ done q)
        × (J.look q x s ≡ (if is_this e (class_name polyfill) x s then none else J.look p x s))
  reset_checked_keeps F e p x s type missing =
      let p' = J.remove_class polyfill (e ∷ []) p in
      let missing' : J.attr "defaultValue" (e ∷ []) p' ≡ none =
        L.attr-look "defaultValue" e p' ∙ attribute-unmarked "defaultValue" e p e ∙ missing in
      (
        reset_checked J e p',
        reset_field-checked F e p type,
        unfold reset_checked in
            ap (λ d. J.look (J.set_attr "checked" d (e ∷ []) p') x s) missing'
            ∙ L.look-set_attr_none "checked" (e ∷ []) p' x s
            ∙ L.look-remove_class polyfill (e ∷ []) p x s
            ∙ ground arith,
      )

  reset_field-password :
      (F : Fields J) (e : Node) (p : J.Page)
      → F.type_of e (J.remove_class polyfill (e ∷ []) p) ≡ codes "password"
      → reset_field J F e p ≡ done (reset_password J e (J.remove_class polyfill (e ∷ []) p))
  unfolding reset_field reset_by_type
  reset_field-password F e p type = ground (arith, type)

  reset_password_lem :
      (i x : Node) (p : J.Page)
      → IsPair J i x (set_default J i p)
      → reset_password J i p ≡ (
          if text_eq (default_of i p) []
          then J.show (x ∷ []) (J.hide (i ∷ []) (set_default J i p))
          else J.hide (x ∷ []) (J.show (i ∷ []) (set_default J i p)))
  unfolding reset_password
  reset_password_lem i x p t =
      let q = set_default J i p in
      let now : J.look q i value ≡ some (default_of i p) =
        look-set_default i p i value ∙ rw ==_refl in
      ground (arith, twin_of-IsPair J L i x q t, L.val-look i q, now)

  look-reset_password :
      (i x : Node) (p : J.Page) (e : Node) (s : Slot)
      → IsPair J i x (set_default J i p)
      → J.look (reset_password J i p) e s ≡ (
          if is_this i value e s
          then some (default_of i p)
          else if is_this i hidden e s
          then if text_eq (default_of i p) [] then some [] else none
          else if is_this x hidden e s
          then if text_eq (default_of i p) [] then none else some []
          else J.look p e s)
  look-reset_password i x p e s t =
      let q = set_default J i p in
      ap (λ r. J.look r e s) (reset_password_lem i x p t)
      ∙ ground (
        arith,
        L.look-show (x ∷ []) (J.hide (i ∷ []) q) e s,
        L.look-hide (i ∷ []) q e s,
        L.look-hide (x ∷ []) (J.show (i ∷ []) q) e s,
        L.look-show (i ∷ []) q e s,
        look-set_default i p e s,
        t.distinct,
        ==_iff e i,
        ==_iff e x,
      )

  -- The reset of a password field of a pair, as the field stands once its value is reset: its value is
  -- the text of its attribute `defaultValue`, and of the pair the field is shown if that text is not
  -- empty, and the twin if it is.
  pub reset_password_outcome :
      (F : Fields J) (i x : Node) (p : J.Page)
      → F.type_of i (J.remove_class polyfill (i ∷ []) p) ≡ codes "password"
      → IsPair J i x (set_default J i (J.remove_class polyfill (i ∷ []) p))
      → (q : J.Page) × (reset_field J F i p ≡ done q)
        × (shown J i q ≡ default_of i p)
        × (is_hidden J i q ≡ text_eq (default_of i p) [])
        × (is_hidden J x q ≡ not (text_eq (default_of i p) []))
  reset_password_outcome F i x p type t =
      let p' = J.remove_class polyfill (i ∷ []) p in
      let q = set_default J i p' in
      let same : default_of i p' ≡ default_of i p =
        ap text_or (attribute-unmarked "defaultValue" i p i) in
      let at = λ (e : Node) (s : Slot). look-reset_password i x p' e s t in
      (
        reset_password J i p',
        reset_field-password F i p type,
        ap text_or (at i value) ∙ rw ==_refl same,
        ap is_some (at i hidden) ∙ ground (arith, same, t.distinct),
        ap is_some (at x hidden) ∙ ground (arith, same, t.distinct),
      )
