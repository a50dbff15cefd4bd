-- ===== src/Placeholder.antt =====
-- `$.fn.placeholder` of website/src/assets/js/util.js: placeholders for browsers that have none.
-- This file has what its functions share; the handlers stand in the modules below, and the function
-- itself in Placeholder/Setup.antt.
pub mod Names
pub mod TextFields
pub mod Twins
pub mod Forms
pub mod Setup
use benji.Prelude.{
  ℕ, ◌≡◌, Bool, true, false, ◌||◌, Option, none, some, List, [], ◌∷◌, ◌++◌, Text, codes, maybe_eq,
  text_eq, if◌then◌else◌,
}
use benji.JQuery.{JQuery, Node}

-- What else the polyfill uses of jQuery and of the elements.
pub record Fields (J : JQuery) : Type 0 where
  -- `this.type`
  pub type_of : Node → J.Page → Text
  -- `$('<div>').append(i.clone()).remove().html()`
  pub outer_html : Node → J.Page → Text
  -- `$(html)`, which makes new elements
  pub create : Text → J.Page → List Node × J.Page
  -- `x.insertAfter(i)`
  pub insert_after : List Node → Node → J.Page → J.Page

-- A handler ends, or throws a TypeError; what it has done to the page until then stays.
pub data Outcome {ℓ} (P : Type ℓ) : Type ℓ where
  done : P → Outcome P
  thrown : P → Outcome P

infixl 5 ◌>>=◌
abbrev pub ◌>>=◌ {ℓ} : {P : Type ℓ} → Outcome P → (P → Outcome P) → Outcome P
done p >>= k = k p
thrown p >>= k = thrown p

abbrev pub page_of {ℓ} : {P : Type ℓ} → Outcome P → P
page_of (done p) = p
page_of (thrown p) = p

-- `.each` with a function that may throw.
unfoldable pub each {ℓ} : {P : Type ℓ} → (Node → P → Outcome P) → List Node → P → Outcome P
each f [] p = done p
each f (e ∷ es) p = f e p >>= each f es

abbrev pub suffix : Text
suffix = codes "-polyfill-field"

-- `'input[name=' + name + ']'`
abbrev pub named : Text → Text
named name = codes "input[name=" ++ name ++ codes "]"
