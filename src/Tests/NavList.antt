-- ===== src/Tests/NavList.antt =====
-- `navList` on two anchors.
use benji.Prelude.{◌≡◌, refl, none, some, [], ◌∷◌, ◌++◌, codes, arith}
use benji.NavList.{
  Anchor, Globals, link, link_open, link_end, join, nav_list, push_links, attribute,
}
use benji.NavList.Decimal.{show_nat}
use benji.NavList.Decode.{read_links}
use benji.NavList.RoundTrip.{view, read_links-nav_list, nav_list_injection}

abbrev home : Anchor
home = record { li_parents = 1; href = some (codes "/"); target = none; text = codes "Home" }

abbrev deep : Anchor
deep = record { li_parents = 13; href = none; target = some (codes "_blank"); text = codes "Docs" }

abbrev stale : Globals
stale = record { anchors = deep ∷ []; pieces = codes "old" ∷ [] }

home_markup :
    (nav_list (home ∷ []) stale).0
    ≡ codes "<a class=\"link depth-0\" href=\"/\"><span class=\"indent-0\"></span>Home</a>"
unfolding nav_list push_links link link_open attribute show_nat join
home_markup = refl

deep_markup :
    (nav_list (deep ∷ []) stale).0
    ≡ codes "<a class=\"link depth-12\" target=\"_blank\"><span class=\"indent-12\"></span>Docs</a>"
unfolding nav_list push_links link link_open attribute show_nat join
deep_markup = refl

read_links-nav_list_example :
    read_links 3 (nav_list (home ∷ deep ∷ []) stale).0 ≡ some (view home ∷ view deep ∷ [])
read_links-nav_list_example = read_links-nav_list (home ∷ deep ∷ []) stale (omega arith)

nav_list_injection_example :
    (nav_list (record home { text = codes "Home" ++ link_end ++ link_open deep } ∷ []) stale).0
    ≡ (nav_list (home ∷ deep ∷ []) stale).0
nav_list_injection_example = nav_list_injection home deep stale
