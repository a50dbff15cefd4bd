-- ===== src/Tests/Password.antt =====
-- The element 1 is an empty password field, and 2 its twin.
use benji.Prelude.{
  ◌==◌, ◌≡◌, refl, true, false, ◌&&◌, none, some, List, [], ◌∷◌, ◌++◌, Text, codes, if◌then◌else◌,
  text_eq, text_or,
}
use benji.JQuery.{JQuery, IsLawful, Node, attribute, hidden, slot_eq, polyfill}
use benji.Placeholder.{Fields, suffix, named}
use benji.Placeholder.TextFields.Laws.{shown, is_marked}
use benji.Placeholder.Twins.{make_twin}
use benji.Placeholder.Twins.Laws.{IsPair, is_hidden}
use benji.Placeholder.Twins.Making.{IsFields, make_twin_outcome}
use benji.Tests.Memory.{Memory, memory, memory-IsLawful}

abbrev find : Text → List Node
find s = if text_eq s (named (codes "pw" ++ suffix)) then 2 ∷ [] else 1 ∷ []

abbrev J : JQuery
J = memory find

abbrev L : IsLawful J
L = memory-IsLawful find

-- The page with the field alone, and with the twin.
abbrev before : Memory
before e s = if slot_eq (attribute "name") s && e == 1 then some (codes "pw") else none

abbrev page : Memory
page e s =
    if slot_eq (attribute "name") s && e == 2
    then some (codes "pw" ++ suffix)
    else if slot_eq hidden s && e == 1
    then some []
    else before e s

abbrev fields : Fields J
fields = record {
  type_of = λ e p. codes "password";
  outer_html = λ e p. codes "<input type=\"password\">";
  create = λ html p. (2 ∷ [], p);
  insert_after = λ es i p. p;
}

fields-IsFields : IsFields J fields
fields-IsFields = record {
  look-create = λ html p e s h. refl;
  look-insert_after = λ es i p e s. refl;
}

make_twin_outcome_example :
    ((make_twin J fields 1 before).0 ≡ 2 ∷ [])
    × (J.look (make_twin J fields 1 before).1 2 (attribute "name") ≡ some (codes "pw" ++ suffix))
    × (is_marked J 2 (make_twin J fields 1 before).1 ≡ true)
    × (shown J 2 (make_twin J fields 1 before).1
        ≡ text_or (J.look (make_twin J fields 1 before).1 2 (attribute "placeholder")))
    × (is_hidden J 2 (make_twin J fields 1 before).1 ≡ false)
    × (is_hidden J 1 (make_twin J fields 1 before).1 ≡ true)
make_twin_outcome_example =
    make_twin_outcome J L fields fields-IsFields 1 2 before (codes "pw") refl refl refl refl refl
      refl

IsPair-after_default :
    IsPair J 1 2 (J.set_val none (1 ∷ []) (J.remove_class polyfill (1 ∷ []) page))
IsPair-after_default = record {
  name = codes "pw";
  has_name = refl;
  twin_name = refl;
  plain = refl;
  distinct = refl;
  finds_twin = refl;
  finds_field = refl;
}
