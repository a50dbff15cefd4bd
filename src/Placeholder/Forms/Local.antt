-- ===== src/Placeholder/Forms/Local.antt =====
-- Loops over elements whose body changes the element at hand and no other.
use mathlib.Core.Path.{fun_ext, subst}
use benji.Prelude.{
  ◌==◌, ==_iff, ◌≡◌, refl, ◌∙◌, sym, ap, false, Option, List, [], ◌∷◌, arith, Text, if◌then◌else◌,
  contains, IsNodup, All, Bool-cases, inl, inr,
}
use benji.JQuery.{JQuery, Node, Slot}
use benji.Placeholder.{Outcome, done, each}

-- What `look` shows of one element.
abbrev pub View : Type 0
View = Slot → Option Text

module _ (J : JQuery) (Ready : View → Type 0) (change : View → View)
    (f : Node → J.Page → Outcome J.Page) where
  -- On a ready element the body ends, and changes what is shown of this element alone.
  abbrev pub IsLocal : Type 0
  IsLocal =
      (e : Node) (p : J.Page)
      → Ready (J.look p e)
      → (q : J.Page) × (f e p ≡ done q)
        × ((x : Node) (s : Slot)
            → J.look q x s ≡ (if x == e then change (J.look p e) s else J.look p x s))

  Ready-elsewhere :
      (e : Node) (p q : J.Page) (es : List Node)
      → ((x : Node) (s : Slot)
          → J.look q x s ≡ (if x == e then change (J.look p e) s else J.look p x s))
      → contains es e ≡ false
      → All (λ x. Ready (J.look p x)) es
      → All (λ x. Ready (J.look q x)) es
  Ready-elsewhere e p q [] look fresh ready = tt
  Ready-elsewhere e p q (x ∷ es) look fresh (here, rest) =
      let other : (x == e) ≡ false = ground (arith, fresh) in
      let same : J.look p x ≡ J.look q x = fun_ext (λ s. sym (look x s ∙ rw other)) in
      (subst Ready same here, Ready-elsewhere e p q es look (ground (arith, fresh)) rest)

  -- So the loop over different elements, all ready at its start, ends, and changes each of them once
  -- and nothing else.
  pub each-local :
      IsLocal
      → (es : List Node) (p : J.Page) → IsNodup es
      → All (λ e. Ready (J.look p e)) es
      → (q : J.Page) × (each f es p ≡ done q)
        × ((x : Node) (s : Slot)
            → J.look q x s ≡ (if contains es x then change (J.look p x) s else J.look p x s))
  unfolding each
  each-local local [] p n ready = (p, refl, λ x s. refl)
  each-local local (e ∷ es) p (fresh, n) (here, rest) =
      let (p', step, look) = local e p here in
      let (q, steps, looks) =
        each-local local es p' n (Ready-elsewhere e p p' es look fresh rest) in
      (
        q,
        rw step steps,
        λ x s. looks x s ∙ elim (Bool-cases (x == e)) [
          | inl this ↦
              let eq = (==_iff x e).0 this in
              let absent : contains es x ≡ false = ap (contains es) eq ∙ fresh in
              rw (this, absent) (look x s ∙ rw this (ap (λ y. change (J.look p y) s) (sym eq)))
          | inr other ↦
              let same : J.look p' x ≡ J.look p x = fun_ext (λ t. look x t ∙ rw other) in
              rw other (ap (λ l. if contains es x then change l s else l s) same)
        ],
      )
