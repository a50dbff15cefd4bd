-- ===== src/Placeholder/Twins/Laws.antt =====
-- Of a password field and its twin one is shown at a time.
use benji.Prelude.{◌==◌, ◌≡◌, ◌∙◌, ap, Bool, false, some, [], ◌∷◌, ◌++◌, Text, is_some, to_text}
use benji.JQuery.{JQuery, IsLawful, Node, attribute, hidden}
use benji.Placeholder.{suffix, named}
use benji.Placeholder.Names.{occurs}
use benji.Placeholder.Twins.{twin_of}

module _ (J : JQuery) where
  abbrev pub is_hidden : Node → J.Page → Bool
  is_hidden e p = is_some (J.look p e hidden)

  -- A password field and its twin on the page, as `make_twin` leaves them: the twin has the name of
  -- the field with the suffix, and below their parents each is what a search for its name finds.
  pub record IsPair (i x : Node) (p : J.Page) : Type 0 where
    pub name : Text
    pub has_name : J.look p i (attribute "name") ≡ some name
    pub twin_name : J.look p x (attribute "name") ≡ some (name ++ suffix)
    pub plain : occurs suffix name ≡ false
    pub distinct : (x == i) ≡ false
    pub finds_twin : J.find (named (name ++ suffix)) (J.parent (i ∷ []) p) p ≡ x ∷ []
    pub finds_field : J.find (named name) (J.parent (x ∷ []) p) p ≡ i ∷ []

  module _ (L : IsLawful J) where
    pub twin_of-IsPair : (i x : Node) (p : J.Page) → IsPair i x p → twin_of J i p ≡ x ∷ []
    twin_of-IsPair i x p t =
        ap (λ n. J.find (named (to_text n ++ suffix)) (J.parent (i ∷ []) p) p)
          (L.attr-look "name" i p ∙ t.has_name)
        ∙ t.finds_twin
