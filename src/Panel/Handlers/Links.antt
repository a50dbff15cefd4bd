-- ===== src/Panel/Handlers/Links.antt =====
-- Clicks on the links of a panel that hides on a click, and the redirect that follows.
use benji.Prelude.{
  ◌+◌, ◌≡◌, ◌≢◌, refl, Bool, true, false, Option, none, some, List, [], ◌∷◌, ◌++◌, arith, Text,
  Bool-cases, inl, inr, if◌then◌else◌, ◌⊎◌, codes, text_eq-false, text_eq-true, append_assoc,
}
use benji.JQuery.{JQuery, IsLawful}
use benji.Panel.{Panel, own_href}
use benji.Panel.Handlers.{
  Event, Input, World, after_hide, redirect, cancel, is_visible, is_inert, on_link_click,
}
use benji.Panel.Handlers.Visibility.{hide_outcome}

-- A link that leads somewhere: not empty, not "#", and not the panel's own.
abbrev pub LeadsAway : Option Text → Text → Type 0
LeadsAway id href = (href ≢ []) × (href ≢ codes "#") × (href ≢ own_href id)

is_inert_of_LeadsAway :
    (id : Option Text) (href : Text) → LeadsAway id href → is_inert id (some href) ≡ false
is_inert_of_LeadsAway id href (a, b, c) =
    rw (text_eq-false _ _ a, text_eq-false _ _ b, text_eq-false _ _ c)

pub LeadsAway-of_is_inert :
    (id : Option Text) (href : Text) → is_inert id (some href) ≡ false → LeadsAway id href
LeadsAway-of_is_inert id href h = (
  (λ e. ground (arith, text_eq-true href [] e)),
  (λ e. ground (arith, text_eq-true href (codes "#") e)),
  (λ e. ground (arith, text_eq-true href (own_href id) e)),
)

append_if {ℓ} :
    {A : Type ℓ} (b : Bool) (xs ys zs : List A)
    → (if b then xs ++ ys else xs) ++ zs ≡ xs ++ ((if b then ys else []) ++ zs)
append_if true xs ys zs = append_assoc xs ys zs
append_if false xs ys zs = refl

module _ (J : JQuery) (L : IsLawful J) where
  -- A click on a link that leads somewhere is cancelled and leaves the panel not visible. Behind the
  -- timers that were set it sets that of `_hide`, if the panel was visible, and then that of the
  -- redirect to the link's href and target, which comes 10 milliseconds after the panel's delay.
  -- No page is visited yet.
  pub link_click_outcome :
      (k : Panel) (i : Input) (v : Event) (w : World J) (href : Text)
      → J.attr "href" (i.node ∷ []) w.page ≡ some href
      → LeadsAway k.id href
      → (is_visible J k.config (on_link_click J k i v w).0.page ≡ false)
        × ((on_link_click J k i v w).1 ≡ cancel v)
        × ((on_link_click J k i v w).0.timers
            ≡ w.timers
              ++ ((if is_visible J k.config w.page
                    then record { task = after_hide; delay = k.config.delay } ∷ []
                    else [])
                  ++ record {
                    task = redirect href (J.attr "target" (i.node ∷ []) w.page);
                    delay = k.config.delay + 10;
                  }
                    ∷ []))
        × ((on_link_click J k i v w).0.visits ≡ w.visits)
  unfolding on_link_click
  link_click_outcome k i v w href e away =
      let outcome = hide_outcome J L k.config none w in
      rw (e, is_inert_of_LeadsAway k.id href away)
        (outcome.0, refl, rw outcome.1 (append_if (is_visible J k.config w.page) _ _ _), outcome.6)

  -- A click on a link that has no href, or one that does not lead anywhere, does nothing.
  pub link_click_inert :
      (k : Panel) (i : Input) (v : Event) (w : World J)
      → (J.attr "href" (i.node ∷ []) w.page ≡ none)
        ⊎ ((href : Text) × (J.attr "href" (i.node ∷ []) w.page ≡ some href) × ¬ LeadsAway k.id href)
      → on_link_click J k i v w ≡ (w, v)
  unfolding on_link_click
  link_click_inert k i v w (inl e) = rw e
  link_click_inert k i v w (inr (href, e, stays)) = elim (Bool-cases (is_inert k.id (some href))) [
    | inl inert ↦ rw (e, inert)
    | inr away ↦ absurd (stays (LeadsAway-of_is_inert k.id href away))
  ]
