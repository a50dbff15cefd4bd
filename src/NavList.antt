-- ===== src/NavList.antt =====
-- `$.fn.navList` of website/src/assets/js/util.js: the markup of a list of links. An anchor is
-- what jQuery reports of it: the number of its `li` ancestors, two attributes that may be
-- undefined, and its text. `-` stops at 0, as `Math.max(0, n - 1)` does.
pub mod Decimal
pub mod Decode
pub mod RoundTrip
use benji.Prelude.{
  ℕ, ◌-◌, max, Bool, not, ◌&&◌, is_some, Option, none, some, List, [], ◌∷◌, ◌++◌, Text, codes,
  text_eq, text_or, if◌then◌else◌,
}
use Decimal.{show_nat}

pub record Anchor : Type 0 where
  pub li_parents : ℕ
  pub href : Option Text
  pub target : Option Text
  pub text : Text

abbrev pub indent : Anchor → ℕ
indent a = max 0 (a.li_parents - 1)

-- `typeof v !== 'undefined' && v != ''`
abbrev pub is_given : Option Text → Bool
is_given v = is_some v && not (text_eq (text_or v) [])

-- ` name="value"`, or nothing.
unfoldable pub attribute : Text → Option Text → Text
attribute opening v = if is_given v then opening ++ text_or v ++ codes "\"" else []

abbrev pub link_start : Text
link_start = codes "<a class=\"link depth-"

abbrev pub target_start : Text
target_start = codes " target=\""

abbrev pub href_start : Text
href_start = codes " href=\""

abbrev pub span_start : Text
span_start = codes "><span class=\"indent-"

abbrev pub span_end : Text
span_end = codes "\"></span>"

abbrev pub link_end : Text
link_end = codes "</a>"

-- All of a link but its end tag. The text of the anchor is not escaped.
unfoldable pub link_open : Anchor → Text
link_open a =
    link_start
    ++ show_nat (indent a)
    ++ codes "\""
    ++ attribute target_start a.target
    ++ attribute href_start a.href
    ++ span_start
    ++ show_nat (indent a)
    ++ span_end
    ++ a.text

unfoldable pub link : Anchor → Text
link a = link_open a ++ link_end

-- `b.join('')`
unfoldable pub join : List Text → Text
join [] = []
join (t ∷ ts) = t ++ join ts

-- `$a` and `b` stand behind a `;` that ends the `var`, so they are globals of the page.
pub record Globals : Type 0 where
  pub anchors : List Anchor
  pub pieces : List Text

-- The loop of `$a.each`, which pushes one link after another onto the global `b`.
unfoldable pub push_links : List Anchor → Globals → Globals
push_links [] g = g
push_links (a ∷ rest) g = push_links rest (record g { pieces = g.pieces ++ link a ∷ [] })

unfoldable pub nav_list : List Anchor → Globals → Text × Globals
unfolding push_links join
nav_list found g =
    let g' = push_links found (record { anchors = found; pieces = [] }) in (join g'.pieces, g')
