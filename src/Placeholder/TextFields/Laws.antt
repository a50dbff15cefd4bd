-- ===== src/Placeholder/TextFields/Laws.antt =====
-- What the text handlers do to the value and the mark of a field.
use benji.Prelude.{
  ◌==◌, ◌≡◌, ◌≢◌, refl, ◌∙◌, sym, ap, Bool, true, false, ◌||◌, ◌&&◌, none, some, [], ◌∷◌, arith,
  Text, text_eq, text_or, text_eq_sound, text_eq_refl, text_eq-false, if◌then◌else◌, ==_refl,
  is_some, Bool-cases, inl, inr,
}
use benji.JQuery.{JQuery, IsLawful, Node, Slot, value, attribute, class_name, slot_eq, polyfill}
use benji.Placeholder.{done, thrown, suffix}
use benji.Placeholder.Names.{ends_with}
use benji.Placeholder.TextFields.{
  attribute_of, show_placeholder, clear_placeholder, init_text, unless_twin, on_blur, on_focus,
}

-- A slot of this one element.
abbrev pub is_this : Node → Slot → Node → Slot → Bool
is_this e s e' s' = e' == e && slot_eq s s'

module _ (J : JQuery) where
  -- A field with a name that is not one of the polyfill's own.
  pub record IsField (e : Node) (p : J.Page) (ph : Text) : Type 0 where
    pub name : Text
    pub has_name : J.look p e (attribute "name") ≡ some name
    pub no_twin : ends_with suffix name ≡ false
    pub has_placeholder : J.look p e (attribute "placeholder") ≡ some ph

  -- What the field shows, and whether it is marked.
  abbrev pub shown : Node → J.Page → Text
  shown e p = text_or (J.look p e value)

  abbrev pub is_marked : Node → J.Page → Bool
  is_marked e p = is_some (J.look p e (class_name polyfill))

  module _ (L : IsLawful J) where
    pub look-show_placeholder :
        (e : Node) (p : J.Page) (e' : Node) (s : Slot)
        → J.look (show_placeholder J e p) e' s ≡ (
            if is_this e value e' s
            then some (text_or (J.look p e (attribute "placeholder")))
            else if is_this e (class_name polyfill) e' s
            then some []
            else J.look p e' s)
    unfolding show_placeholder
    look-show_placeholder e p e' s =
        let q = J.add_class polyfill (e ∷ []) p in
        L.look-set_val (attribute_of J "placeholder" e p) (e ∷ []) q e' s
        ∙ rw (L.look-add_class polyfill (e ∷ []) p e' s, L.attr-look "placeholder" e p)
            (ground arith)

    pub look-clear_placeholder :
        (e : Node) (p : J.Page) (e' : Node) (s : Slot)
        → J.look (clear_placeholder J e p) e' s ≡ (
            if is_this e value e' s
            then some []
            else if is_this e (class_name polyfill) e' s
            then none
            else J.look p e' s)
    unfolding clear_placeholder
    look-clear_placeholder e p e' s =
        let q = J.remove_class polyfill (e ∷ []) p in
        L.look-set_val (some []) (e ∷ []) q e' s
        ∙ rw (L.look-remove_class polyfill (e ∷ []) p e' s) (ground arith)

    pub on_blur_lem :
        (e : Node) (p : J.Page) (ph : Text)
        → IsField e p ph
        → on_blur J e p ≡ done (if text_eq (shown e p) [] then show_placeholder J e p else p)
    unfolding on_blur unless_twin
    on_blur_lem e p ph f =
        ground (arith, L.attr-look "name" e p, f.has_name, f.no_twin, L.val-look e p)

    pub on_focus_lem :
        (e : Node) (p : J.Page) (ph : Text)
        → IsField e p ph
        → on_focus J e p ≡ done (if text_eq ph (shown e p) then clear_placeholder J e p else p)
    unfolding on_focus unless_twin
    on_focus_lem e p ph f = ground (
      arith,
      L.attr-look "name" e p,
      f.has_name,
      f.no_twin,
      L.attr-look "placeholder" e p,
      f.has_placeholder,
      L.val-look e p,
    )

    -- Both handlers throw, and change nothing, if the field has no name.
    pub nameless_throws :
        (e : Node) (p : J.Page)
        → J.look p e (attribute "name") ≡ none
        → (on_blur J e p ≡ thrown p) × (on_focus J e p ≡ thrown p)
    unfolding on_blur on_focus unless_twin
    nameless_throws e p no_name = ground (arith, L.attr-look "name" e p, no_name)

    show_placeholder-IsField :
        (e : Node) (p : J.Page) (ph : Text) → IsField e p ph → IsField e (show_placeholder J e p) ph
    show_placeholder-IsField e p ph f = record {
      name = f.name;
      has_name = look-show_placeholder e p e (attribute "name") ∙ rw ==_refl f.has_name;
      no_twin = f.no_twin;
      has_placeholder =
          look-show_placeholder e p e (attribute "placeholder") ∙ rw ==_refl f.has_placeholder;
    }

    -- What `show_placeholder` and `clear_placeholder` leave in the field itself.
    pub shown-show_placeholder :
        (e : Node) (p : J.Page) (ph : Text)
        → IsField e p ph
        → (shown e (show_placeholder J e p) ≡ ph) × (is_marked e (show_placeholder J e p) ≡ true)
    shown-show_placeholder e p ph f = (
      ap text_or (look-show_placeholder e p e value) ∙ rw ==_refl (ap text_or f.has_placeholder),
      ap is_some (look-show_placeholder e p e (class_name polyfill)) ∙ rw ==_refl,
    )

    pub shown-clear_placeholder :
        (e : Node) (p : J.Page)
        → (shown e (clear_placeholder J e p) ≡ []) × (is_marked e (clear_placeholder J e p) ≡ false)
    shown-clear_placeholder e p = (
      ap text_or (look-clear_placeholder e p e value) ∙ rw ==_refl,
      ap is_some (look-clear_placeholder e p e (class_name polyfill)) ∙ rw ==_refl,
    )

    -- A field that has a placeholder attribute, a name that does not end in the suffix of a password
    -- field's twin, and a value that is not its placeholder: after it loses the focus and gets it again
    -- it shows the same value, and it is not marked if it was empty, and marked as before if not. What
    -- it shows in between is the placeholder, marked, if it was empty, and its value if not.
    pub blur_focus :
        (e : Node) (p : J.Page) (ph : Text)
        → IsField e p ph
        → shown e p ≢ ph
        → (q r : J.Page) × (on_blur J e p ≡ done q)
          × (on_focus J e q ≡ done r)
          × (shown e q ≡ (if text_eq (shown e p) [] then ph else shown e p))
          × (is_marked e q ≡ (if text_eq (shown e p) [] then true else is_marked e p))
          × (shown e r ≡ shown e p)
          × (is_marked e r ≡ (if text_eq (shown e p) [] then false else is_marked e p))
    blur_focus e p ph f other = elim (Bool-cases (text_eq (shown e p) [])) [
      | inl empty ↦
          let q = show_placeholder J e p in
          let r = clear_placeholder J e q in
          let (shown_q, marked_q) = shown-show_placeholder e p ph f in
          let (shown_r, marked_r) = shown-clear_placeholder e q in
          (
            q,
            r,
            on_blur_lem e p ph f ∙ rw empty,
            on_focus_lem e q ph (show_placeholder-IsField e p ph f) ∙ rw (shown_q, text_eq_refl ph),
            shown_q ∙ rw empty,
            marked_q ∙ rw empty,
            shown_r ∙ sym (text_eq_sound (shown e p) [] empty),
            marked_r ∙ rw empty,
          )
      | inr full ↦
          let differs = text_eq-false ph (shown e p) (λ same. other (sym same)) in
          (
            p,
            p,
            on_blur_lem e p ph f ∙ rw full,
            on_focus_lem e p ph f ∙ rw differs,
            rw full,
            rw full,
            refl,
            rw full,
          )
    ]

    -- A named field that shows exactly its placeholder is emptied when it gets the focus, marked or
    -- not: what a user has entered is lost if it is the text of the placeholder.
    pub focus_loses :
        (e : Node) (p : J.Page) (ph : Text)
        → IsField e p ph
        → shown e p ≡ ph
        → (q : J.Page) × (on_focus J e p ≡ done q) × (shown e q ≡ []) × (is_marked e q ≡ false)
    focus_loses e p ph f same =
        let (empty, unmarked) = shown-clear_placeholder e p in
        (
          clear_placeholder J e p,
          on_focus_lem e p ph f ∙ rw (same, text_eq_refl ph),
          empty,
          unmarked,
        )

    init_text_lem :
        (e : Node) (p : J.Page) (ph : Text)
        → IsField e p ph
        → init_text J e p
          ≡ (if text_eq (shown e p) [] || text_eq ph (shown e p) then show_placeholder J e p else p)
    unfolding init_text
    init_text_lem e p ph f =
        ground (arith, L.attr-look "placeholder" e p, f.has_placeholder, L.val-look e p)

    -- A call on a field that is empty or shows its placeholder leaves the placeholder, marked; on any
    -- other field it changes nothing.
    pub init_text_outcome :
        (e : Node) (p : J.Page) (ph : Text)
        → IsField e p ph
        → (shown e (init_text J e p) ≡ (if text_eq (shown e p) [] then ph else shown e p))
          × (is_marked e (init_text J e p)
              ≡ (text_eq (shown e p) [] || text_eq ph (shown e p) || is_marked e p))
    init_text_outcome e p ph f =
        rw (init_text_lem e p ph f)
          (ground (arith, shown-show_placeholder e p ph f, text_eq_sound ph (shown e p)))
