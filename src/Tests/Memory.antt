-- ===== src/Tests/Memory.antt =====
-- A page as a function from elements and slots, over which the operations of jQuery meet their laws.
-- What `.find` finds by a selector is given.
use benji.Prelude.{
  refl, Option, none, some, List, [], ◌∷◌, String, Text, text_or, is_some, any, if◌then◌else◌,
}
use benji.Prelude.Int.{pos}
use benji.JQuery.{
  JQuery, IsLawful, Node, Slot, value, attribute, class_name, hidden, is_at, flip_mark,
}

abbrev pub Memory : Type 0
Memory = Node → Slot → Option Text

abbrev write : List Node → Slot → Option Text → Memory → Memory
write es s v p e s' = if is_at es s e s' then v else p e s'

abbrev first : List Node → Slot → Memory → Option Text
first [] s p = none
first (e ∷ _) s p = p e s

abbrev set_attr : String → Option Text → List Node → Memory → Memory
set_attr n none es p = p
set_attr n (some v) es p = write es (attribute n) (some v) p

abbrev pub memory : (Text → List Node) → JQuery
memory find = record {
  Page = Memory;
  look = λ p e s. p e s;
  query = λ s p. find s;
  find = λ s es p. find s;
  parent = λ es p. es;
  val = λ es p. text_or (first es value p);
  set_val = λ v es p. write es value (some (text_or v)) p;
  attr = λ n es p. first es (attribute n) p;
  set_attr = set_attr;
  has_class = λ c es p. any (λ e. is_some (p e (class_name c))) es;
  add_class = λ c es p. write es (class_name c) (some []) p;
  remove_class = λ c es p. write es (class_name c) none p;
  toggle_class = λ c es p e s. if is_at es (class_name c) e s then flip_mark (p e s) else p e s;
  hide = λ es p. write es hidden (some []) p;
  show = λ es p. write es hidden none p;
  focus = λ es p. p;
  css = λ n v es p. p;
  scroll_top = λ e p. pos 0;
  set_scroll_top = λ n e p. p;
  outer_height = λ e p. pos 100;
  scroll_height = λ e p. pos 300;
  reset = λ e p. p;
}

pub memory-IsLawful : (find : Text → List Node) → IsLawful (memory find)
memory-IsLawful find = record {
  val-look = λ e p. refl;
  attr-look = λ n e p. refl;
  has_class-look = λ c es p. refl;
  look-set_val = λ v es p e s. refl;
  look-set_attr_none = λ n es p e s. refl;
  look-set_attr = λ n v es p e s h. refl;
  look-add_class = λ c es p e s. refl;
  look-remove_class = λ c es p e s. refl;
  look-toggle_class = λ c es p e s. refl;
  look-hide = λ es p e s. refl;
  look-show = λ es p e s. refl;
  look-focus = λ es p e s. refl;
  look-css = λ n v es p e s. refl;
  look-set_scroll_top = λ n e' p e s. refl;
  look-reset = λ f p e c h. refl;
}
