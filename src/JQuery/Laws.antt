-- ===== src/JQuery/Laws.antt =====
-- What follows for `hasClass` from the laws of a page.
use benji.Prelude.{
  ◌≡◌, refl, ◌∙◌, Bool, true, false, not, List, [], ◌∷◌, arith, String, str_eq, eq_iff, any,
  contains,
}
use benji.JQuery.{JQuery, IsLawful, Node}

pub str_eq_refl : (c : String) → str_eq c c ≡ true
str_eq_refl c = (eq_iff c c).1 refl

any_cleared :
    (f : Node → Bool) (all es : List Node)
    → ((e : Node) → contains all e ≡ true → f e ≡ false)
    → ((e : Node) → contains es e ≡ true → contains all e ≡ true)
    → any f es ≡ false
any_cleared f all [] h k = refl
any_cleared f all (e ∷ es) h k =
    let here : contains all e ≡ true = k e (ground arith) in
    let later : any f es ≡ false = any_cleared f all es h (λ x m. k x (ground (arith, m))) in
    rw (h e here) later

module _ (J : JQuery) (L : IsLawful J) where
  -- After `removeClass` no element of the collection has the class.
  pub has_class-remove_class :
      (c : String) (es : List Node) (p : J.Page) → J.has_class c es (J.remove_class c es p) ≡ false
  has_class-remove_class c es p =
      L.has_class-look c es _
      ∙ any_cleared _ es es (λ e m. rw (L.look-remove_class, m, str_eq_refl c)) (λ e m. m)

  pub has_class-toggle_class :
      (c : String) (e : Node) (p : J.Page)
      → J.has_class c (e ∷ []) (J.toggle_class c (e ∷ []) p) ≡ not (J.has_class c (e ∷ []) p)
  has_class-toggle_class c e p =
      rw (L.has_class-look, L.has_class-look, L.look-toggle_class, str_eq_refl c) (ground arith)
