-- ===== src/Restore/Opening.antt =====
-- The target of a restore, when it is opened.
use benji.Prelude.{
  ℕ, zero, suc, ◌≡◌, ◌+◌, ◌-◌, ◌≤◌, refl, sym, ap, ◌∙◌, Bool, true, Option, none, some, [], ◌∷◌,
  ◌++◌, arith, length, take, drop, ltb, ◌⊎◌, inl, inr, Bool-cases,
}
use benji.Backup.{Bytes, zeros}
use benji.Restore.{write_at, open_w}
use benji.Restore.Writes.{length-zeros}

zeros-end : (n : ℕ) → zeros n ++ 0 ∷ [] ≡ zeros (suc n)
zeros-end zero = refl
zeros-end (suc n) = ap (λ l. 0 ∷ l) (zeros-end n)

take_nothing : (n : ℕ) → take {A = ℕ} n [] ≡ []
take_nothing zero = refl
take_nothing (suc n) = refl

drop_nothing : (n : ℕ) → drop {A = ℕ} n [] ≡ []
drop_nothing zero = refl
drop_nothing (suc n) = refl

-- A byte that is written behind the end of an empty file.
new_file : (n : ℕ) → write_at n (0 ∷ []) [] ≡ zeros (suc n)
new_file n =
    let gap : n - 0 ≡ n = omega arith in
    rw (take_nothing n, drop_nothing (n + 1), gap) (zeros-end n)

-- A target that is opened has room for the version. Either the restore is forced and it is the file
-- that was there, byte for byte, or there was no file and it is new, zero, and just as long.
pub open_w_outcome :
    (size : ℕ) (force : Bool) (file : Option Bytes) (target : Bytes)
    → open_w size force file ≡ inr target
    → (size ≤ length target)
      × (((force ≡ true) × (file ≡ some target)) ⊎ ((file ≡ none) × (target ≡ zeros size)))
unfolding open_w
open_w_outcome size force (some f) target e = elim (Bool-cases force) [
  | inr unforced ↦ absurd (ground (arith, e, unforced))
  | inl forced ↦ elim (Bool-cases (ltb (length f) size)) [
    | inl short ↦ absurd (ground (arith, e, forced, short))
    | inr enough ↦
        let same : f ≡ target = ground (arith, e, forced, enough) in
        let room : size ≤ length f = ground arith in (rw (← same) room, inl (forced, ap some same))
  ]
]
open_w_outcome zero force none target e = absurd (ground (arith, e))
open_w_outcome (suc n) force none target e =
    let less : suc n - 1 ≡ n = omega arith in
    let made : write_at (suc n - 1) (0 ∷ []) [] ≡ target = ground (arith, e) in
    let same : target ≡ zeros (suc n) =
      sym made ∙ ap (λ m. write_at m (0 ∷ []) []) less ∙ new_file n in
    (rw same (omega (arith, length-zeros (suc n))), inr (refl, same))
