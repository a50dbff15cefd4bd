-- ===== src/NavList/RoundTrip.antt =====
-- The markup of `navList`, read back.
use benji.Prelude.{
  ℕ, zero, suc, ◌+◌, ◌<◌, ◌≡◌, refl, sym, ◌∙◌, ap, true, false, Option, none, some, List, [], ◌∷◌,
  ◌++◌, map, arith, Text, codes, text_or, strip_prefix, strip_prefix-append, append_assoc,
  append-nil, Bool-cases, inl, inr, All, length, length-map, if◌then◌else◌,
}
use benji.NavList.{
  Anchor, indent, is_given, attribute, target_start, href_start, link_end, link_open, link, join,
  Globals, push_links, nav_list,
}
use benji.NavList.Decimal.{read_digits-show_nat}
use benji.NavList.Decode.{Link, read_attribute, read_link, read_links, Avoids, read_until-append}

abbrev pub given : Option Text → Option Text
given v = if is_given v then some (text_or v) else none

-- What an anchor looks like in the markup.
abbrev pub view : Anchor → Link
view a = record {
  depth = indent a;
  indent = indent a;
  target = given a.target;
  href = given a.href;
  text = a.text;
}

-- No attribute holds a quote, and the text holds no `<`.
abbrev pub IsClean : Anchor → Type 0
IsClean a = Avoids b'"' (text_or a.target) × Avoids b'"' (text_or a.href) × Avoids b'<' a.text

attribute_given :
    (opening : Text) (v : Option Text)
    → is_given v ≡ true
    → attribute opening v ≡ opening ++ text_or v ++ codes "\""
unfolding attribute
attribute_given opening v is = rw is

attribute_absent :
    (opening : Text) (v : Option Text) → is_given v ≡ false → attribute opening v ≡ []
unfolding attribute
attribute_absent opening v not = rw not

read_attribute-attribute :
    (opening : Text) (v : Option Text) (rest : Text)
    → Avoids b'"' (text_or v)
    → strip_prefix opening rest ≡ none
    → read_attribute opening (attribute opening v ++ rest) ≡ some (given v, rest)
unfolding read_attribute
read_attribute-attribute opening v rest h absent = elim (Bool-cases (is_given v)) [
  | inl is ↦
      rw (attribute_given opening v is, is, append_assoc, append_assoc, read_attribute)
        (rw (strip_prefix-append opening) (rw (read_until-append b'"' (text_or v) rest h)))
  | inr not ↦
      ap (λ t. read_attribute opening (t ++ rest)) (attribute_absent opening v not)
      ∙ rw (not, read_attribute, absent)
]

target_or_not :
    (v : Option Text) (rest : Text)
    → strip_prefix target_start (attribute href_start v ++ (b'>' ∷ rest)) ≡ none
unfolding attribute
target_or_not v rest = elim (Bool-cases (is_given v)) [ inl is ↦ rw is | inr not ↦ rw not ]

read_link-link :
    (a : Anchor) (rest : Text) → IsClean a → read_link (link a ++ rest) ≡ some (view a, rest)
unfolding link_open link read_link
read_link-link a rest (target, href, text) = simp append_assoc (
    rw (read_digits-show_nat _ _ _ refl) (
      rw (read_attribute-attribute target_start a.target _ target (target_or_not a.href _)) (
        rw (read_attribute-attribute href_start a.href _ href refl)
          (rw (read_digits-show_nat _ _ _ refl) (rw (read_until-append b'<' a.text _ text))))))

-- The loop pushes one link for each anchor.
push_links-pieces :
    (found : List Anchor) (g : Globals) → (push_links found g).pieces ≡ g.pieces ++ map link found
unfolding push_links
push_links-pieces [] g = sym (append-nil _)
push_links-pieces (a ∷ found) g = push_links-pieces found _ ∙ append_assoc g.pieces _ _

pub nav_list-eq-join :
    (found : List Anchor) (g : Globals) → (nav_list found g).0 ≡ join (map link found)
unfolding nav_list
nav_list-eq-join found g = ap join (push_links-pieces found _)

-- A link begins with `<`.
link-cons : (a : Anchor) → (s : Text) × (link a ≡ b'<' ∷ s)
unfolding link link_open
link-cons a = (_, refl)

read_links-cons :
    (fuel c : ℕ) (s t rest : Text) (l : Link) (ls : List Link)
    → t ≡ c ∷ s
    → read_link t ≡ some (l, rest)
    → read_links fuel rest ≡ some ls
    → read_links (suc fuel) t ≡ some (l ∷ ls)
unfolding read_links
read_links-cons fuel c s t rest l ls e h k = let h' = rw e at h in rw (e, read_links) (rw h' (rw k))

read_links-join :
    (found : List Anchor) (fuel : ℕ)
    → length found < fuel
    → All IsClean found
    → read_links fuel (join (map link found)) ≡ some (map view found)
unfolding join
read_links-join found zero h clean = absurd (omega arith)
read_links-join [] (suc fuel) h clean = unfold read_links in refl
read_links-join (a ∷ found) (suc fuel) h (clean, rest) =
    let (s, e) = link-cons a in
    read_links-cons fuel b'<' (s ++ join (map link found)) (link a ++ join (map link found))
      (join (map link found)) (view a) (map view found) (rw e) (read_link-link a _ clean)
      (read_links-join found fuel (omega arith) rest)

-- For anchors with no quote in an attribute and no `<` in their text, whatever the globals held
-- before: a reader of the markup finds one link for each anchor, in order, with its depth and its
-- indent, its text, and its target and href where they are given and not empty.
pub read_links-nav_list :
    (found : List Anchor) (g : Globals)
    → All IsClean found
    → read_links (length found + 1) (nav_list found g).0 ≡ some (map view found)
read_links-nav_list found g clean =
    rw (nav_list-eq-join found g) (read_links-join found _ (omega arith) clean)

-- The text of an anchor is not escaped. Whatever the two anchors are, there is one whose markup is
-- that of both, one after the other: a text can hold the end of its link and a second link.
pub nav_list_injection :
    (a b : Anchor) (g : Globals)
    → (nav_list (record a { text = a.text ++ link_end ++ link_open b } ∷ []) g).0
      ≡ (nav_list (a ∷ b ∷ []) g).0
unfolding link link_open join
nav_list_injection a b g = rw (nav_list-eq-join, nav_list-eq-join) (simp (append_assoc, append-nil))

push_links-anchors : (found : List Anchor) (g : Globals) → (push_links found g).anchors ≡ g.anchors
unfolding push_links
push_links-anchors [] g = refl
push_links-anchors (a ∷ found) g = push_links-anchors found _

-- What a call leaves in the globals `$a` and `b` is its own: the anchors that it found, and pieces
-- whose concatenation is its result. Nothing of what they held before is kept.
pub nav_list_globals :
    (found : List Anchor) (g : Globals)
    → ((nav_list found g).1.anchors ≡ found)
      × (join (nav_list found g).1.pieces ≡ (nav_list found g).0)
      × (length (nav_list found g).1.pieces ≡ length found)
unfolding nav_list
nav_list_globals found g = (
  push_links-anchors found _,
  refl,
  rw (push_links-pieces found (record { anchors = found; pieces = [] })) (length-map found link),
)
