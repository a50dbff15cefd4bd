-- ===== src/JQuery.antt =====
-- What the scripts of website/src/assets/js use of jQuery and of the browser's elements. Both are
-- libraries to them, so the operations are the fields of a record over a page that is not looked
-- into, and their documented behaviour is the record `IsLawful`. A page is seen through `look`:
-- the value, the attributes, the classes and the hidden mark of each element.
pub mod Laws
use benji.Prelude.{
  ℕ, ◌==◌, ◌≡◌, Bool, true, false, ◌&&◌, Option, none, some, List, [], ◌∷◌, String, str_eq, Text,
  text_or, is_some, any, contains, if◌then◌else◌,
}
use benji.Prelude.Int.{ℤ}

-- Elements are known by numbers.
abbrev pub Node : Type 0
Node = ℕ

-- A class and the hidden mark are there or not; what stands in them means nothing.
pub data Slot : Type 0 where
  value : Slot
  attribute : String → Slot
  class_name : String → Slot
  hidden : Slot

abbrev pub slot_eq : Slot → Slot → Bool
slot_eq value value = true
slot_eq (attribute m) (attribute n) = str_eq m n
slot_eq (class_name m) (class_name n) = str_eq m n
slot_eq hidden hidden = true
slot_eq _ _ = false

-- A slot of one of the elements.
abbrev pub is_at : List Node → Slot → Node → Slot → Bool
is_at es s e s' = contains es e && slot_eq s s'

abbrev pub flip_mark : Option Text → Option Text
flip_mark none = some []
flip_mark (some _) = none

pub record JQuery : Type 1 where
  pub Page : Type 0
  pub look : Page → Node → Slot → Option Text
  -- `$(selector)`, `.find(selector)`, `.parent()`
  pub query : Text → Page → List Node
  pub find : Text → List Node → Page → List Node
  pub parent : List Node → Page → List Node
  -- `.val()`, `.val(v)`, `.attr(n)`, `.attr(n, v)`, where `v` may be undefined
  pub val : List Node → Page → Text
  pub set_val : Option Text → List Node → Page → Page
  pub attr : String → List Node → Page → Option Text
  pub set_attr : String → Option Text → List Node → Page → Page
  -- `.hasClass`, `.addClass`, `.removeClass`, `.toggleClass`
  pub has_class : String → List Node → Page → Bool
  pub add_class : String → List Node → Page → Page
  pub remove_class : String → List Node → Page → Page
  pub toggle_class : String → List Node → Page → Page
  -- `.hide()`, `.show()`, `.focus()`, `.css(name, value)`
  pub hide : List Node → Page → Page
  pub show : List Node → Page → Page
  pub focus : List Node → Page → Page
  pub css : String → String → List Node → Page → Page
  -- `.scrollTop()`, `.scrollTop(n)`, `.outerHeight()`, `.get(0).scrollHeight`, a form's `.reset()`
  pub scroll_top : Node → Page → ℤ
  pub set_scroll_top : ℤ → Node → Page → Page
  pub outer_height : Node → Page → ℤ
  pub scroll_height : Node → Page → ℤ
  pub reset : Node → Page → Page

abbrev pub polyfill : String
polyfill = "polyfill-placeholder"

-- Each setter writes one slot of the elements of its collection, and nothing else that `look` sees.
pub record IsLawful (J : JQuery) : Type 0 where
  pub val-look : (e : Node) (p : J.Page) → J.val (e ∷ []) p ≡ text_or (J.look p e value)
  pub attr-look :
      (n : String) (e : Node) (p : J.Page) → J.attr n (e ∷ []) p ≡ J.look p e (attribute n)
  pub has_class-look :
      (c : String) (es : List Node) (p : J.Page)
      → J.has_class c es p ≡ any (λ e. is_some (J.look p e (class_name c))) es
  -- `.val(undefined)` empties a field.
  pub look-set_val :
      (v : Option Text) (es : List Node) (p : J.Page) (e : Node) (s : Slot)
      → J.look (J.set_val v es p) e s
        ≡ (if is_at es value e s then some (text_or v) else J.look p e s)
  -- `.attr(n, undefined)` changes nothing; "checked" has rules of its own.
  pub look-set_attr_none :
      (n : String) (es : List Node) (p : J.Page) (e : Node) (s : Slot)
      → J.look (J.set_attr n none es p) e s ≡ J.look p e s
  pub look-set_attr :
      (n : String) (v : Text) (es : List Node) (p : J.Page) (e : Node) (s : Slot)
      → str_eq n "checked" ≡ false
      → J.look (J.set_attr n (some v) es p) e s
        ≡ (if is_at es (attribute n) e s then some v else J.look p e s)
  pub look-add_class :
      (c : String) (es : List Node) (p : J.Page) (e : Node) (s : Slot)
      → J.look (J.add_class c es p) e s
        ≡ (if is_at es (class_name c) e s then some [] else J.look p e s)
  pub look-remove_class :
      (c : String) (es : List Node) (p : J.Page) (e : Node) (s : Slot)
      → J.look (J.remove_class c es p) e s
        ≡ (if is_at es (class_name c) e s then none else J.look p e s)
  pub look-toggle_class :
      (c : String) (es : List Node) (p : J.Page) (e : Node) (s : Slot)
      → J.look (J.toggle_class c es p) e s
        ≡ (if is_at es (class_name c) e s then flip_mark (J.look p e s) else J.look p e s)
  pub look-hide :
      (es : List Node) (p : J.Page) (e : Node) (s : Slot)
      → J.look (J.hide es p) e s ≡ (if is_at es hidden e s then some [] else J.look p e s)
  pub look-show :
      (es : List Node) (p : J.Page) (e : Node) (s : Slot)
      → J.look (J.show es p) e s ≡ (if is_at es hidden e s then none else J.look p e s)
  pub look-focus :
      (es : List Node) (p : J.Page) (e : Node) (s : Slot) → J.look (J.focus es p) e s ≡ J.look p e s
  pub look-css :
      (n v : String) (es : List Node) (p : J.Page) (e : Node) (s : Slot)
      → J.look (J.css n v es p) e s ≡ J.look p e s
  pub look-set_scroll_top :
      (n : ℤ) (e' : Node) (p : J.Page) (e : Node) (s : Slot)
      → J.look (J.set_scroll_top n e' p) e s ≡ J.look p e s
  -- A reset changes fields, and by the polyfill's own handler that class; no other class.
  pub look-reset :
      (f : Node) (p : J.Page) (e : Node) (c : String)
      → str_eq polyfill c ≡ false
      → J.look (J.reset f p) e (class_name c) ≡ J.look p e (class_name c)
