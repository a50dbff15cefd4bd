-- ===== src/Tests/TextFields.antt =====
-- The element 1 is an empty text field, 2 one with a value, 3 one without a name, 4 a check box.
use benji.Prelude.{
  ◌==◌, ◌≡◌, refl, true, false, ◌&&◌, ◌||◌, none, some, List, [], ◌∷◌, Text, codes, if◌then◌else◌,
  contains, inl,
}
use benji.JQuery.{JQuery, IsLawful, Node, Slot, value, attribute, slot_eq}
use benji.Placeholder.{done, Fields}
use benji.Placeholder.Names.{ends_with}
use benji.Placeholder.TextFields.{on_blur, on_focus}
use benji.Placeholder.TextFields.Laws.{IsField, shown, is_marked, blur_focus}
use benji.Placeholder.Forms.{on_submit, reset_field}
use benji.Placeholder.Forms.Submit.{submitted, on_submit_outcome}
use benji.Placeholder.Forms.Reset.{reset_text_outcome}
use benji.Tests.Memory.{Memory, memory, memory-IsLawful}

abbrev find : Text → List Node
find s = 1 ∷ 2 ∷ []

abbrev J : JQuery
J = memory find

abbrev L : IsLawful J
L = memory-IsLawful find

abbrev page : Memory
page e s =
    if slot_eq (attribute "placeholder") s
    then some (codes "Your name")
    else if slot_eq (attribute "name") s && (e == 1 || e == 2)
    then some (codes "full-name")
    else if slot_eq value s && e == 2
    then some (codes "Ada")
    else none

empty-IsField : IsField J 1 page (codes "Your name")
unfolding ends_with
empty-IsField = record {
  name = codes "full-name";
  has_name = refl;
  no_twin = refl;
  has_placeholder = refl;
}

blur_focus_example :
    (q r : Memory) × (on_blur J 1 page ≡ done q)
    × (on_focus J 1 q ≡ done r)
    × (shown J 1 q ≡ codes "Your name")
    × (is_marked J 1 q ≡ true)
    × (shown J 1 r ≡ [])
    × (is_marked J 1 r ≡ false)
blur_focus_example = blur_focus J L 1 page (codes "Your name") empty-IsField (λ e. cc)

-- The user has typed the text of the placeholder.
abbrev typed : Memory
typed e s = if e == 1 && slot_eq value s then some (codes "Your name") else page e s

typed-IsField : IsField J 1 typed (codes "Your name")
unfolding ends_with
typed-IsField = record {
  name = codes "full-name";
  has_name = refl;
  no_twin = refl;
  has_placeholder = refl;
}

on_submit_outcome_example :
    (q : Memory) × (on_submit J 9 typed ≡ done q)
    × ((x : Node) (s : Slot)
        → J.look q x s
          ≡ (if contains (1 ∷ 2 ∷ []) x then submitted (J.look typed x) s else J.look typed x s))
on_submit_outcome_example =
    on_submit_outcome J L 9 typed (1 ∷ 2 ∷ []) refl (refl, (refl, tt)) (refl, (refl, tt))

abbrev nameless : Text → List Node
nameless s = 3 ∷ 1 ∷ []

abbrev types : Fields J
types = record {
  type_of = λ e p. if e == 4 then codes "checkbox" else codes "text";
  outer_html = λ e p. [];
  create = λ html p. ([], p);
  insert_after = λ es i p. p;
}

reset_text_outcome_example :
    (q : Memory) × (reset_field J types 2 page ≡ done q)
    × (shown J 2 q ≡ codes "Your name")
    × (is_marked J 2 q ≡ true)
    × ((x : Node) (s : Slot) → J.look q x s ≡ (if x == 2 then J.look q 2 s else page x s))
reset_text_outcome_example = reset_text_outcome J L types 2 page (codes "Your name") (inl refl) refl
