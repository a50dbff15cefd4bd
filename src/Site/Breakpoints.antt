-- ===== src/Site/Breakpoints.antt =====
-- Which breakpoints move elements on the website's pages.
use benji.Prelude.{
  ◌≡◌, refl, true, false, List, [], ◌∷◌, arith, String, str_eq, eq_iff, All, Bool-cases, inl, inr,
}
use benji.Tree.{Tree}
use benji.Site.{is_breakpoint, Change, on_change, on_changes}

mobile_absent : (name : String) → is_breakpoint name ≡ true → str_eq name "mobile" ≡ false
mobile_absent name h = elim (Bool-cases (str_eq name "mobile")) [
  | inl is ↦ let e = (eq_iff name "mobile").0 is in absurd (absent (rw e at h))
  | inr not ↦ not
]
  where
    absent : is_breakpoint "mobile" ≡ true → ⊥
    absent h = cc

module _ (T : Tree) where
  -- Whatever changes of the breakpoints that the site defines `skel` reports, in any order: no element
  -- is moved. The site subscribes to "mobile", which is not one of them.
  pub on_changes_idle :
      (cs : List Change) (p : T.Page)
      → All (λ c. is_breakpoint c.name ≡ true) cs
      → on_changes T cs p ≡ p
  unfolding on_changes on_change
  on_changes_idle [] p h = refl
  on_changes_idle (c ∷ cs) p (defined, rest) =
      ground (arith, mobile_absent c.name defined, on_changes_idle cs p rest)
