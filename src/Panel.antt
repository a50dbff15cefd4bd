-- ===== src/Panel.antt =====
-- `$.fn.panel` of website/src/assets/js/util.js: the options, what installing a panel registers,
-- and the state that its closures share. The handlers are in Panel/Handlers.antt.
pub mod Touch
pub mod Handlers
pub mod Install
use benji.Prelude.{
  ℕ, Bool, true, false, Option, none, some, List, [], ◌∷◌, ◌++◌, String, Text, codes, to_text,
  if◌then◌else◌,
}
use benji.JQuery.{JQuery, Node}

-- What `userConfig` gives for `target`: elements, or a selector.
pub data Target : Type 0 where
  elements : List Node → Target
  selector : Text → Target

-- The options as the caller gives them; a missing one is `none`.
pub record UserConfig : Type 0 where
  pub delay : Option ℕ
  pub hide_on_click : Option Bool
  pub hide_on_escape : Option Bool
  pub hide_on_swipe : Option Bool
  pub reset_scroll : Option Bool
  pub reset_forms : Option Bool
  pub side : Option Text
  pub target : Option Target
  pub visible_class : Option String

-- `config`, after `$.extend` and with `target` as a collection.
pub record Config : Type 0 where
  pub delay : ℕ
  pub hide_on_click : Bool
  pub hide_on_escape : Bool
  pub hide_on_swipe : Bool
  pub reset_scroll : Bool
  pub reset_forms : Bool
  pub side : Option Text
  pub target : List Node
  pub visible_class : String

-- An option that is given replaces the default.
abbrev option_or {ℓ} : {A : Type ℓ} → Option A → A → A
option_or none default = default
option_or (some a) default = a

-- The functions that a panel hands to `on`.
pub data Handler : Type 0 where
  link_click touch_start touch_move swallow self_link body_hide toggle_link escape_key : Handler

pub data Place : Type 0 where
  on_panel on_body on_window : Place

-- One call of `on`: where, the events, the selector of a delegated one, and the function.
pub record Binding : Type 0 where
  pub place : Place
  pub events : String
  pub selector : Option Text
  pub handler : Handler

-- A panel: `$this`, its `id` attribute, its options and its bindings.
pub record Panel : Type 0 where
  pub self : Node
  pub id : Option Text
  pub config : Config
  pub bindings : List Binding

abbrev bind : Place → String → Option Text → Handler → List Binding
bind place events links handler =
    record { place = place; events = events; selector = links; handler = handler } ∷ []

-- `'#' + id`, and the selector of the links to it.
abbrev pub own_href : Option Text → Text
own_href id = codes "#" ++ to_text id

abbrev own_links : Option Text → Text
own_links id = codes "a[href=\"" ++ own_href id ++ codes "\"]"

abbrev when {ℓ} : {A : Type ℓ} → Bool → List A → List A
when b xs = if b then xs else []

-- The calls of `on`, in the order of the source.
unfoldable pub bindings_of : Config → Option Text → List Binding
bindings_of c id =
    when c.hide_on_click (bind on_panel "click" (some (codes "a")) link_click)
    ++ bind on_panel "touchstart" none touch_start
    ++ bind on_panel "touchmove" none touch_move
    ++ bind on_panel "click touchend touchstart touchmove" none swallow
    ++ bind on_panel "click" (some (own_links id)) self_link
    ++ bind on_body "click touchend" none body_hide
    ++ bind on_body "click" (some (own_links id)) toggle_link
    ++ when c.hide_on_escape (bind on_window "keydown" none escape_key)

module _ (J : JQuery) where
  -- `typeof` never gives 'jQuery', so the target is always wrapped; wrapping elements again
  -- leaves them as they are.
  abbrev wrap : Target → J.Page → List Node
  wrap (elements es) p = es
  wrap (selector s) p = J.query s p

  unfoldable pub configure : UserConfig → Node → J.Page → Config
  configure u self p = record {
    delay = option_or u.delay 0;
    hide_on_click = option_or u.hide_on_click false;
    hide_on_escape = option_or u.hide_on_escape false;
    hide_on_swipe = option_or u.hide_on_swipe false;
    reset_scroll = option_or u.reset_scroll false;
    reset_forms = option_or u.reset_forms false;
    side = u.side;
    target = wrap (option_or u.target (elements (self ∷ []))) p;
    visible_class = option_or u.visible_class "visible";
  }

  -- The calls of `css` on the panel, and on its links if a click on them hides it.
  unfoldable pub restyle : Config → Node → J.Page → J.Page
  restyle c self p =
      let fixed =
        J.css "-webkit-overflow-scrolling" "touch" (self ∷ [])
          (J.css "-ms-overflow-style" "-ms-autohiding-scrollbar" (self ∷ []) p) in
      if c.hide_on_click
      then J.css "-webkit-tap-highlight-color" "rgba(0,0,0,0)"
          (J.find (codes "a") (self ∷ []) fixed) fixed
      else fixed

  -- What a call leaves: the page, the panels installed, and its value, `none` for undefined.
  pub record Installed : Type 0 where
    pub page : J.Page
    pub panels : List Panel
    pub returned : Option (List Node)

  -- The part below the guards, for one element.
  unfoldable pub install : UserConfig → Node → J.Page → Installed
  install u self p =
      let id = J.attr "id" (self ∷ []) p in
      let c = configure u self p in
      record {
        page = restyle c self p;
        panels = record { self = self; id = id; config = c; bindings = bindings_of c id } ∷ [];
        returned = some (self ∷ []);
      }

  -- `for (var i=0; i < this.length; i++) $(this[i]).panel(userConfig);`
  unfoldable pub install_each : UserConfig → List Node → J.Page → Installed
  install_each u [] p = record { page = p; panels = []; returned = none }
  install_each u (e ∷ es) p =
      let one = install u e p in
      let rest = install_each u es one.page in
      record { page = rest.page; panels = one.panels ++ rest.panels; returned = none }

  -- `$this` is declared below the two guards, so both return undefined.
  unfoldable pub panel : UserConfig → List Node → J.Page → Installed
  panel u [] p = record { page = p; panels = []; returned = none }
  panel u (e ∷ []) p = install u e p
  panel u (e ∷ f ∷ es) p = install_each u (e ∷ f ∷ es) p
