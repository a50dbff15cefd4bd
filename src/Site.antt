-- ===== src/Site.antt =====
-- website/src/assets/js/main.js: what the pages of the website do with the functions of util.js.
-- `skel` and the `scrolly` plugin are libraries; `skel` calls the functions given to `skel.on` for the
-- breakpoints that `skel.breakpoints` was given.
pub mod Breakpoints
use benji.Prelude.{
  ℕ, Bool, true, false, ◌&&◌, ◌||◌, not, Option, none, some, List, [], ◌∷◌, ◌++◌, String, str_eq,
  Text, codes, any, if◌then◌else◌,
}
use benji.JQuery.{JQuery, Node}
use benji.Tree.{Tree}
use benji.Prioritize.{selector, prioritize}
use benji.Placeholder.{Fields}
use benji.Placeholder.Setup.{Installed, Binding, placeholder}

-- `skel.breakpoints({…})`: names and media queries.
abbrev pub breakpoints : List (String × String)
breakpoints =
    ("xlarge", "(max-width: 1680px)")
    ∷ ("large", "(max-width: 1140px)")
    ∷ ("medium", "(max-width: 980px)")
    ∷ ("small", "(max-width: 736px)")
    ∷ ("xsmall", "(max-width: 480px)")
    ∷ ("xxsmall", "(max-width: 320px)")
    ∷ []

abbrev pub is_breakpoint : String → Bool
is_breakpoint name = any (λ b. str_eq b.0 name) breakpoints

-- A change of a breakpoint: its name, and whether it became active.
pub record Change : Type 0 where
  pub name : String
  pub active : Bool

-- `skel.on('+mobile -mobile', …)`: when "mobile" becomes active, and when it ceases to be.
abbrev pub is_subscribed : Change → Bool
is_subscribed c = if c.active then str_eq c.name "mobile" else str_eq c.name "mobile"

module _ (T : Tree) where
  -- The function given to `skel.on`; `active` is `skel.breakpoint('mobile').active`.
  unfoldable pub prioritize_important : Bool → T.Page → T.Page
  prioritize_important active p =
      prioritize T (selector (codes ".important\\28 mobile\\29")) active p

  unfoldable pub on_change : Change → T.Page → T.Page
  on_change c p = if is_subscribed c then prioritize_important c.active p else p

  unfoldable pub on_changes : List Change → T.Page → T.Page
  on_changes [] p = p
  on_changes (c ∷ cs) p = on_changes cs (on_change c p)

module _ (J : JQuery) (F : Fields J) where
  -- The page, the delays given to `setTimeout`, and what the polyfill bound.
  pub record Site : Type 0 where
    pub page : J.Page
    pub timers : List ℕ
    pub bindings : List Binding

  -- The function given to `$`: `native` says whether the browser has placeholders, and `scrolly` is
  -- the plugin's effect on a collection.
  unfoldable pub ready : Bool → (List Node → J.Page → J.Page) → J.Page → Site
  ready native scrolly p =
      let p₁ = J.add_class "is-loading" (J.query (codes "body") p) p in
      let forms = placeholder J F native (J.query (codes "form") p₁) p₁ in
      record {
        page = scrolly (J.query (codes ".scrolly") forms.page) forms.page;
        timers = [];
        bindings = forms.bindings;
      }

  -- `$window.on('load', …)`, and the function that it gives to `setTimeout`.
  unfoldable pub on_load : Site → Site
  on_load s = record s { timers = s.timers ++ 250 ∷ [] }

  unfoldable pub reveal : List Node → Site → Site
  reveal body s = record s { page = J.remove_class "is-loading" body s.page }
