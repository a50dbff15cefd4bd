-- ===== src/Placeholder/Setup.antt =====
-- The function `$.fn.placeholder` itself: its guards, and what it does to one form.
pub mod Laws
use benji.Prelude.{
  ℕ, ◌≡◌, refl, ap, Bool, true, false, Option, none, some, List, [], ◌∷◌, ◌++◌, map, String, Text,
  codes, if◌then◌else◌,
}
use benji.JQuery.{JQuery, Node}
use benji.Placeholder.{Fields, Outcome, done, thrown}
use benji.Placeholder.TextFields.{init_text, on_blur, on_focus}
use benji.Placeholder.Twins.{make_twin, on_password_blur, on_twin_focus, on_twin_keypress}
use benji.Placeholder.Forms.{on_submit, on_reset}

-- The functions that the polyfill hands to `on`.
pub data Handler : Type 0 where
  text_blur text_focus password_blur twin_focus twin_keypress form_submit form_reset : Handler

-- One call of `on`: the elements, the event and the function.
pub record Binding : Type 0 where
  pub nodes : List Node
  pub event : String
  pub handler : Handler

abbrev pub bind : List Node → String → Handler → Binding
bind nodes event handler = record { nodes = nodes; event = event; handler = handler }

module _ (J : JQuery) (F : Fields J) where
  -- The function that a binding names, on the element that the event reaches.
  unfoldable pub handle : Handler → Node → J.Page → Outcome J.Page
  handle text_blur = on_blur J
  handle text_focus = on_focus J
  handle password_blur = on_password_blur J
  handle twin_focus = on_twin_focus J
  handle twin_keypress = on_twin_keypress J
  handle form_submit = on_submit J
  handle form_reset = on_reset J F

  -- Whether the event's default is prevented: at the start of these handlers it is.
  unfoldable pub prevents : Handler → Bool
  prevents text_blur = false
  prevents text_focus = false
  prevents form_submit = false
  prevents _ = true

  -- What a call leaves: the page, the bindings made, and its value, `none` for undefined.
  pub record Installed : Type 0 where
    pub page : J.Page
    pub bindings : List Binding
    pub returned : Option (List Node)

  unfoldable pub init_texts : List Node → J.Page → J.Page
  init_texts [] p = p
  init_texts (e ∷ es) p = init_texts es (init_text J e p)

  -- The loop over the password fields.
  unfoldable pub make_twins : List Node → J.Page → J.Page × List Binding
  make_twins [] p = (p, [])
  make_twins (i ∷ is) p =
      let (x, p₁) = make_twin J F i p in
      let (p₂, more) = make_twins is p₁ in
      (
        p₂,
        bind (i ∷ []) "blur" password_blur
            ∷ bind x "focus" twin_focus
            ∷ bind x "keypress" twin_keypress
            ∷ more,
      )

  -- The part below the guards, for one form.
  unfoldable pub install : Node → J.Page → Installed
  install form p =
      let texts = J.find (codes "input[type=text],textarea") (form ∷ []) p in
      let p₁ = init_texts texts p in
      let (p₂, twins) = make_twins (J.find (codes "input[type=password]") (form ∷ []) p₁) p₁ in
      record {
        page = p₂;
        bindings =
            bind texts "blur" text_blur
            ∷ bind texts "focus" text_focus
            ∷ (twins
                ++ bind (form ∷ []) "submit" form_submit
                  ∷ bind (form ∷ []) "reset" form_reset
                  ∷ []);
        returned = some (form ∷ []);
      }

  -- `for (var i=0; i < this.length; i++) $(this[i]).placeholder();`
  unfoldable pub install_each : List Node → J.Page → Installed
  install_each [] p = record { page = p; bindings = []; returned = none }
  install_each (e ∷ es) p =
      let one = install e p in
      let rest = install_each es one.page in
      record { page = rest.page; bindings = one.bindings ++ rest.bindings; returned = none }

  -- `native` says whether the browser has placeholders of its own. `$this` is declared below the
  -- guards on the length, so both return undefined.
  unfoldable pub placeholder : Bool → List Node → J.Page → Installed
  placeholder true es p = record { page = p; bindings = []; returned = some es }
  placeholder false [] p = record { page = p; bindings = []; returned = none }
  placeholder false (e ∷ []) p = install e p
  placeholder false (e ∷ f ∷ es) p = install_each (e ∷ f ∷ es) p
