-- ===== src/Locking/RoundTrip.antt =====
-- Taking a lock and giving it back.
use benji.Prelude.{
  ap, ◌||◌, Bool, ℕ, ◌≡◌, refl, ◌∙◌, not, true, false, Option, List, [], ◌∷◌, ◌++◌, arith, Text,
  text_eq_refl, any, any-append, filter, filter-append, append-nil, inl, inr,
}
use benji.Locking.{Process, Lock, is_named, is_held, new_lock, lock, unlock, with_lock}
use benji.Locking.Exclusive.{lock_taken}

filter_none :
    (p : Process) (name : Text) (ls : List Lock)
    → any (is_named name) ls ≡ false
    → (any (is_held p name) ls ≡ false) × (filter (λ l. not (is_held p name l)) ls ≡ ls)
filter_none p name [] h = (refl, refl)
filter_none p name (l ∷ ls) h =
    let (unheld, same) = filter_none p name ls (ground arith) in
    let free : is_named name l ≡ false = ground arith in
    (ground (arith, unheld), ground (arith, same))

held_by :
    (p : Process) (name reason : Text) (date : ℕ)
    → is_held p name (new_lock p name reason date) ≡ true
held_by p name reason date =
    rw (text_eq_refl name, text_eq_refl p.host, text_eq_refl p.process_id) refl

-- A lock that is taken without overriding another, and is then given back, leaves the table as it was.
pub lock-unlock :
    (p : Process) (name : Text) (reason : Option Text) (date : ℕ) (s t : List Lock)
    → lock p name reason date false s ≡ inr t
    → unlock p name t ≡ inr s
unfolding unlock
lock-unlock p name reason date s t e =
    let (given, outcome) = lock_taken p name reason date false s t e in
    elim outcome [
      | inl (o, _) ↦ absurd cc
      | inr (_, absent, after) ↦
          let new = new_lock p name given date in
          let own = held_by p name given date in
          let (unheld, same) = filter_none p name s absent in
          let found : any (is_held p name) (s ++ new ∷ []) ≡ true =
            any-append (is_held p name) s (new ∷ []) ∙ ground (arith, own) in
          let alone : filter (λ l. not (is_held p name l)) (new ∷ []) ≡ [] = ground (arith, own) in
          let back : filter (λ l. not (is_held p name l)) (s ++ new ∷ []) ≡ s =
            filter-append (λ l. not (is_held p name l)) s (new ∷ [])
            ∙ rw (same, alone) (append-nil s) in
          rw after (rw (found, back) refl)
    ]

-- Code that runs under a lock, taken without overriding another, and that leaves the table of locks as it
-- finds it, leaves it in the end as it was before the lock, whether it raises an exception or not, unless
-- the lock is to be kept and it raises none.
pub with_lock_releases :
    (p : Process) (name : Text) (reason : Option Text) (date : ℕ) (unlocks : Bool)
    (body : List Lock → Bool × List Lock) (raised : Bool) (s t : List Lock)
    → lock p name reason date false s ≡ inr t
    → body t ≡ (raised, t)
    → (raised || unlocks) ≡ true
    → with_lock p name reason date unlocks false body s ≡ inr (raised, s)
unfolding with_lock
with_lock_releases p name reason date unlocks body raised s t taken runs released =
    let back = lock-unlock p name reason date s t taken in
    rw (with_lock, taken, runs, released, back) (ap (λ r. inr (r.0, s)) runs)
