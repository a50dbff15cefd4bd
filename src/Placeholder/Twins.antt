-- ===== src/Placeholder/Twins.antt =====
-- Password fields: a text field is made beside each, and while the password is empty and has no
-- focus that twin is shown in its place.
pub mod Laws
pub mod Making
use benji.Prelude.{
  Bool, Option, none, some, List, [], ◌∷◌, ◌++◌, String, Text, codes, maybe_eq, text_eq, to_text,
  not, if◌then◌else◌,
}
use benji.JQuery.{JQuery, Node, polyfill}
use benji.Placeholder.{Fields, Outcome, done, thrown, suffix, named}
use benji.Placeholder.Names.{replace_first, replace_first_ci}
use benji.Placeholder.TextFields.{value_of, attribute_of}

-- `.replace(/type="password"/i, 'type="text"').replace(/type=password/i, 'type=text')`
unfoldable pub as_text_field : Text → Text
as_text_field html =
    replace_first_ci (codes "type=password") (codes "type=text")
      (replace_first_ci (codes "type=\"password\"") (codes "type=\"text\"") html)

module _ (J : JQuery) where
  -- `if (i.attr(n) != '') x.attr(n, i.attr(n) + '-polyfill-field');` An attribute that is missing
  -- is not equal to '', and is joined as "undefined".
  unfoldable pub set_suffixed : String → Node → List Node → J.Page → J.Page
  set_suffixed n i x p =
      if not (maybe_eq (attribute_of J n i p) [])
      then J.set_attr n (some (to_text (attribute_of J n i p) ++ suffix)) x p
      else p

  -- What the new field is given before it is put behind the password field.
  unfoldable pub dress_twin : Node → List Node → J.Page → J.Page
  dress_twin i x p =
      let named = set_suffixed "name" i x (set_suffixed "id" i x p) in
      let marked = J.add_class polyfill x named in
      J.set_val (J.attr "placeholder" x marked) x marked

  -- The twin of a password field, made and put behind it; one of the two is hidden.
  unfoldable pub make_twin : Fields J → Node → J.Page → List Node × J.Page
  make_twin F i p =
      let (x, made) = F.create (as_text_field (F.outer_html i p)) p in
      let placed = F.insert_after x i (dress_twin i x made) in
      (x, if text_eq (value_of J i placed) [] then J.hide (i ∷ []) placed else J.hide x placed)

  -- `i.parent().find('input[name=' + i.attr('name') + '-polyfill-field]')`
  abbrev pub twin_of : Node → J.Page → List Node
  twin_of i p =
      J.find (named (to_text (attribute_of J "name" i p) ++ suffix)) (J.parent (i ∷ []) p) p

  -- `blur` on the password field; the event's default is prevented.
  unfoldable pub on_password_blur : Node → J.Page → Outcome J.Page
  on_password_blur i p =
      let x = twin_of i p in
      done (if text_eq (value_of J i p) [] then J.show x (J.hide (i ∷ []) p) else p)

  -- `focus` on the twin. Its name is read with `.replace`, which throws if there is none.
  unfoldable pub on_twin_focus : Node → J.Page → Outcome J.Page
  on_twin_focus x p = elim (attribute_of J "name" x p) [
    | none ↦ thrown p
    | some name ↦
        let i = J.find (named (replace_first suffix [] name)) (J.parent (x ∷ []) p) p in
        done (J.focus i (J.show i (J.hide (x ∷ []) p)))
  ]

  -- `keypress` on the twin.
  unfoldable pub on_twin_keypress : Node → J.Page → Outcome J.Page
  on_twin_keypress x p = done (J.set_val (some []) (x ∷ []) p)
