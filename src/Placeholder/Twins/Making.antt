-- ===== src/Placeholder/Twins/Making.antt =====
-- The twin of a password field, as it is made.
use benji.Prelude.{
  ◌==◌, ◌≡◌, refl, ◌∙◌, ap, true, false, not, ◌&&◌, some, List, [], ◌∷◌, ◌++◌, arith, String,
  str_eq, Text, text_eq, text_or, maybe_eq, if◌then◌else◌, ==_refl, is_some, contains, to_text,
}
use benji.JQuery.{
  JQuery, IsLawful, Node, Slot, value, attribute, class_name, hidden, slot_eq, polyfill,
}
use benji.Placeholder.{Fields, suffix}
use benji.Placeholder.TextFields.Laws.{is_this, shown, is_marked}
use benji.Placeholder.Twins.{as_text_field, set_suffixed, dress_twin, make_twin}
use benji.Placeholder.Twins.Laws.{is_hidden}

-- Making elements changes nothing of those that are there, and placing them nothing that is seen.
pub record IsFields (J : JQuery) (F : Fields J) : Type 0 where
  pub look-create :
      (html : Text) (p : J.Page) (e : Node) (s : Slot)
      → contains (F.create html p).0 e ≡ false
      → J.look (F.create html p).1 e s ≡ J.look p e s
  pub look-insert_after :
      (es : List Node) (i : Node) (p : J.Page) (e : Node) (s : Slot)
      → J.look (F.insert_after es i p) e s ≡ J.look p e s

module _ (J : JQuery) (L : IsLawful J) where
  -- An attribute that is not empty is given to the twin with the suffix; a missing one as "undefined".
  look-set_suffixed :
      (n : String) (i x : Node) (p : J.Page) (e : Node) (s : Slot)
      → str_eq n "checked" ≡ false
      → J.look (set_suffixed J n i (x ∷ []) p) e s ≡ (
          if is_this x (attribute n) e s && not (maybe_eq (J.look p i (attribute n)) [])
          then some (to_text (J.look p i (attribute n)) ++ suffix)
          else J.look p e s)
  unfolding set_suffixed
  look-set_suffixed n i x p e s h = ground (
    arith,
    L.attr-look n i p,
    L.look-set_attr n (to_text (J.look p i (attribute n)) ++ suffix) (x ∷ []) p e s h,
  )

  -- The new field before it is placed: its name, id, mark and value, and what else is seen.
  look-dress_twin :
      (i x : Node) (p : J.Page) (e : Node) (s : Slot)
      → (i == x) ≡ false
      → J.look (dress_twin J i (x ∷ []) p) e s ≡ (
          if is_this x value e s
          then some (text_or (J.look p x (attribute "placeholder")))
          else if is_this x (class_name polyfill) e s
          then some []
          else if is_this x (attribute "name") e s
              && not (maybe_eq (J.look p i (attribute "name")) [])
          then some (to_text (J.look p i (attribute "name")) ++ suffix)
          else if is_this x (attribute "id") e s && not (maybe_eq (J.look p i (attribute "id")) [])
          then some (to_text (J.look p i (attribute "id")) ++ suffix)
          else J.look p e s)
  unfolding dress_twin
  look-dress_twin i x p e s apart =
      let p₁ = set_suffixed J "id" i (x ∷ []) p in
      let p₂ = set_suffixed J "name" i (x ∷ []) p₁ in
      let p₃ = J.add_class polyfill (x ∷ []) p₂ in
      let name₁ : J.look p₁ i (attribute "name") ≡ J.look p i (attribute "name") =
        look-set_suffixed "id" i x p i (attribute "name") refl ∙ rw apart in
      let ph₃ : J.look p₃ x (attribute "placeholder") ≡ J.look p x (attribute "placeholder") =
        L.look-add_class polyfill (x ∷ []) p₂ x (attribute "placeholder")
        ∙ rw ==_refl (
            look-set_suffixed "name" i x p₁ x (attribute "placeholder") refl
            ∙ rw ==_refl
                (look-set_suffixed "id" i x p x (attribute "placeholder") refl ∙ rw ==_refl)) in
      L.look-set_val _ (x ∷ []) p₃ e s
      ∙ ground (
        arith,
        L.attr-look "placeholder" x p₃,
        ph₃,
        name₁,
        L.look-add_class polyfill (x ∷ []) p₂ e s,
        look-set_suffixed "name" i x p₁ e s refl,
        look-set_suffixed "id" i x p e s refl,
      )

  module _ (F : Fields J) (K : IsFields J F) where
    module _ (i x : Node) (p : J.Page)
        (made : (F.create (as_text_field (F.outer_html i p)) p).0 ≡ x ∷ [])
        (apart : (i == x) ≡ false) where
      abbrev made_page : J.Page
      made_page = (F.create (as_text_field (F.outer_html i p)) p).1

      abbrev placed : J.Page
      placed = F.insert_after (x ∷ []) i (dress_twin J i (x ∷ []) made_page)

      look-made_page : (s : Slot) → J.look made_page i s ≡ J.look p i s
      look-made_page s =
          K.look-create (as_text_field (F.outer_html i p)) p i s
            (ap (λ xs. contains xs i) made ∙ rw apart)

      look-placed_field : (s : Slot) → J.look placed i s ≡ J.look p i s
      look-placed_field s =
          K.look-insert_after (x ∷ []) i (dress_twin J i (x ∷ []) made_page) i s
          ∙ look-dress_twin i x made_page i s apart
          ∙ rw apart (look-made_page s)

      look-make_twin :
          (e : Node) (s : Slot)
          → J.look (make_twin J F i p).1 e s ≡ (
              if text_eq (shown J i p) []
              then if is_this i hidden e s then some [] else J.look placed e s
              else if is_this x hidden e s
              then some []
              else J.look placed e s)
      unfolding make_twin
      look-make_twin e s =
          ap
            (λ xs.
              let at = F.insert_after xs i (dress_twin J i xs made_page) in
              J.look (if text_eq (J.val (i ∷ []) at) [] then J.hide (i ∷ []) at else J.hide xs at) e
                s)
            made
          ∙ ground (
            arith,
            L.val-look i placed,
            look-placed_field value,
            L.look-hide (i ∷ []) placed e s,
            L.look-hide (x ∷ []) placed e s,
          )

      look-placed_twin :
          (s : Slot)
          → J.look placed x s ≡ (
              if slot_eq value s
              then some (text_or (J.look made_page x (attribute "placeholder")))
              else if slot_eq (class_name polyfill) s
              then some []
              else if slot_eq (attribute "name") s
                  && not (maybe_eq (J.look p i (attribute "name")) [])
              then some (to_text (J.look p i (attribute "name")) ++ suffix)
              else if slot_eq (attribute "id") s && not (maybe_eq (J.look p i (attribute "id")) [])
              then some (to_text (J.look p i (attribute "id")) ++ suffix)
              else J.look made_page x s)
      look-placed_twin s =
          K.look-insert_after (x ∷ []) i (dress_twin J i (x ∷ []) made_page) x s
          ∙ look-dress_twin i x made_page x s apart
          ∙ rw (==_refl, look-made_page (attribute "name"), look-made_page (attribute "id")) refl

    -- The twin of a password field with a name, if one new field is made for it and neither of the two
    -- is hidden before: it has the name of the field with the suffix, it is marked, it shows its
    -- placeholder, and it is hidden if and only if the field has a value; the field is hidden if and
    -- only if it has none.
    pub make_twin_outcome :
        (i x : Node) (p : J.Page) (name : Text)
        → (F.create (as_text_field (F.outer_html i p)) p).0 ≡ x ∷ []
        → (i == x) ≡ false
        → J.look p i (attribute "name") ≡ some name
        → text_eq name [] ≡ false
        → is_hidden J i p ≡ false
        → is_hidden J x (F.create (as_text_field (F.outer_html i p)) p).1 ≡ false
        → ((make_twin J F i p).0 ≡ x ∷ [])
          × (J.look (make_twin J F i p).1 x (attribute "name") ≡ some (name ++ suffix))
          × (is_marked J x (make_twin J F i p).1 ≡ true)
          × (shown J x (make_twin J F i p).1
              ≡ text_or (J.look (make_twin J F i p).1 x (attribute "placeholder")))
          × (is_hidden J x (make_twin J F i p).1 ≡ not (text_eq (shown J i p) []))
          × (is_hidden J i (make_twin J F i p).1 ≡ text_eq (shown J i p) [])
    make_twin_outcome i x p name made apart has full visible visible_x =
        let at = look-make_twin i x p made apart in
        let twin = look-placed_twin i x p made apart in
        let field = look-placed_field i x p made apart in
        (
          unfold make_twin in made,
          at x (attribute "name") ∙ ground (arith, twin (attribute "name"), has, full),
          ap is_some (at x (class_name polyfill)) ∙ ground (arith, twin (class_name polyfill)),
          ap text_or (at x value)
              ∙ ground (
                arith,
                twin value,
                twin (attribute "placeholder"),
                at x (attribute "placeholder"),
              ),
          ap is_some (at x hidden) ∙ ground (arith, twin hidden, visible_x, apart),
          ap is_some (at i hidden) ∙ ground (arith, field hidden, visible, apart),
        )
