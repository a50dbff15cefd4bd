-- ===== src/Tests/Locking.antt =====
-- Two processes and their locks.
use benji.Prelude.{false, ◌≡◌, refl, true, some, List, [], ◌∷◌, Text, any, inr}
use benji.Locking.{
  Process, Lock, is_held, new_lock, lock, with_lock, locks, careful, Reach, empty, next, Others,
  none_yet, another,
}
use benji.Locking.Exclusive.{lock_exclusive, lock_kept}
use benji.Locking.RoundTrip.{with_lock_releases}

abbrev p : Process
p = record { host = 1 ∷ []; process_id = 2 ∷ [] }

abbrev q : Process
q = record { host = 1 ∷ []; process_id = 3 ∷ [] }

abbrev name : Text
name = 4 ∷ []

abbrev taken : List Lock
taken = new_lock p name [] 0 ∷ []

abbrev both_taken : List Lock
both_taken = new_lock p name [] 0 ∷ new_lock q (5 ∷ []) [] 1 ∷ []

taken-Reach : Reach taken
unfolding lock
taken-Reach = next empty (careful (locks p name (some []) 0 [] taken refl))

lock_exclusive_example : (p.host ≡ p.host) × (p.process_id ≡ p.process_id)
lock_exclusive_example = lock_exclusive p p name taken taken-Reach refl refl

other_lock : Others p taken both_taken
unfolding lock
other_lock = another none_yet refl (locks q (5 ∷ []) (some []) 1 taken both_taken refl)

lock_kept_example : any (is_held p name) both_taken ≡ true
lock_kept_example = lock_kept p name taken both_taken other_lock refl

with_lock_releases_example :
    with_lock p name (some []) 0 true false (λ ls. (true, ls)) [] ≡ inr (true, [])
unfolding lock
with_lock_releases_example =
    with_lock_releases p name (some []) 0 true (λ ls. (true, ls)) true [] taken refl refl refl
