-- ===== src/Locking/Exclusive.antt =====
-- A lock has one holder, who keeps it until it gives it back.
use benji.Prelude.{
  any-filter, any-append, ℕ, ◌≡◌, ◌≤◌, refl, sym, ap, ◌∙◌, Bool, ◌&&◌, not, true, false, Option,
  none, some, List, [], ◌∷◌, ◌++◌, map, arith, Text, text_eq, text_eq_sound, text_eq_refl,
  if◌then◌else◌, any, filter, count, count-append, ◌⊎◌, inl, inr, Bool-cases,
}
use benji.Locking.{
  Process, Lock, is_named, is_of, is_held, new_lock, lock, update_lock, unlock, unlock_all, Step,
  locks, updates, unlocks, unlocks_all, careful, overrides, Reach, empty, next, Others, none_yet,
  another,
}

-- The names of the locks are unique.
abbrev pub AreUnique : List Lock → Type 0
AreUnique ls = (name : Text) → count (is_named name) ls ≤ 1

count-filter {ℓ} : {A : Type ℓ} (p q : A → Bool) (xs : List A) → count p (filter q xs) ≤ count p xs
count-filter p q [] = omega arith
count-filter p q (x ∷ xs) = ground (arith, count-filter p q xs)

count-none {ℓ} : {A : Type ℓ} (p : A → Bool) (xs : List A) → any p xs ≡ false → count p xs ≡ 0
count-none p [] h = refl
count-none p (x ∷ xs) h = ground (arith, count-none p xs)

count-filtered_out {ℓ} :
    {A : Type ℓ} (p : A → Bool) (xs : List A) → count p (filter (λ x. not (p x)) xs) ≡ 0
count-filtered_out p [] = refl
count-filtered_out p (x ∷ xs) = ground (arith, count-filtered_out p xs)

add-AreUnique :
    (p : Process) (name reason : Text) (date : ℕ) (ls : List Lock)
    → count (is_named name) ls ≡ 0
    → AreUnique ls
    → AreUnique (ls ++ new_lock p name reason date ∷ [])
add-AreUnique p name reason date ls absent unique other =
    let more = count-append (is_named other) ls (new_lock p name reason date ∷ []) in
    elim (Bool-cases (text_eq name other)) [
      | inl e ↦
          let same : name ≡ other = text_eq_sound name other e in
          let absent' : count (is_named other) ls ≡ 0 = rw (← same) absent in
          ground (arith, more, absent')
      | inr e ↦ ground (arith, more, unique other)
    ]

-- What a lock that is taken does.
pub lock_taken :
    (p : Process) (name : Text) (reason : Option Text) (date : ℕ) (override : Bool)
    (s t : List Lock)
    → lock p name reason date override s ≡ inr t
    → (given : Text) × (((override ≡ true)
          × (t ≡ filter (λ l. not (is_named name l)) s ++ new_lock p name given date ∷ []))
        ⊎ ((override ≡ false)
            × (any (is_named name) s ≡ false)
            × (t ≡ s ++ new_lock p name given date ∷ [])))
unfolding lock
lock_taken p name none date override s t e = absurd (ground (arith, e))
lock_taken p name (some reason) date override s t e = (
  reason,
  elim (Bool-cases override) [ inl o ↦ inl (ground (arith, e)) | inr o ↦ inr (ground (arith, e)) ],
)

lock-AreUnique :
    (p : Process) (name : Text) (reason : Option Text) (date : ℕ) (override : Bool)
    (s t : List Lock)
    → lock p name reason date override s ≡ inr t
    → AreUnique s
    → AreUnique t
lock-AreUnique p name reason date override s t e unique =
    let (given, outcome) = lock_taken p name reason date override s t e in
    elim outcome [
      | inl (_, after) ↦ rw after (
          add-AreUnique p name given date (filter (λ l. not (is_named name l)) s)
            (count-filtered_out (is_named name) s)
            (λ other.
              omega (
                arith,
                unique other,
                count-filter (is_named other) (λ l. not (is_named name l)) s,
              )))
      | inr (_, absent, after) ↦
          rw after (add-AreUnique p name given date s (count-none (is_named name) s absent) unique)
    ]

count-map {ℓ} :
    {A : Type ℓ} (p : A → Bool) (f : A → A) (xs : List A)
    → ((x : A) → p (f x) ≡ p x)
    → count p (map f xs) ≡ count p xs
count-map p f [] same = refl
count-map p f (x ∷ xs) same = ground (arith, count-map p f xs same, same x)

abbrev give_reason : Process → Text → Text → Lock → Lock
give_reason p name reason l = if is_held p name l then record l { reason = reason } else l

-- An update that succeeds was given a reason.
updated :
    (p : Process) (name : Text) (reason : Option Text) (s t : List Lock)
    → update_lock p name reason s ≡ inr t
    → (given : Text) × (reason ≡ some given) × (t ≡ map (give_reason p name given) s)
unfolding update_lock
updated p name none s t e = absurd (ground (arith, e))
updated p name (some given) s t e = (given, refl, ground (arith, e))

unlocked :
    (p : Process) (name : Text) (s t : List Lock)
    → unlock p name s ≡ inr t
    → t ≡ filter (λ l. not (is_held p name l)) s
unfolding unlock
unlocked p name s t e = ground (arith, e)

Step-AreUnique : {p : Process} {s t : List Lock} → Step p s t → AreUnique s → AreUnique t
unfolding unlock_all
Step-AreUnique (locks p name reason date s t e) unique =
    lock-AreUnique p name reason date false s t e unique
Step-AreUnique (updates p name reason s t e) unique =
    let (given, _, after) = updated p name reason s t e in
    λ other. rw after (
      omega (
        arith,
        unique other,
        count-map (is_named other) (give_reason p name given) s (λ l. ground arith),
      ))
Step-AreUnique (unlocks p name s t e) unique = λ other.
    rw (unlocked p name s t e)
      (omega (arith, unique other, count-filter (is_named other) (λ l. not (is_held p name l)) s))
Step-AreUnique (unlocks_all p s) unique =
    λ other. omega (arith, unique other, count-filter (is_named other) (λ l. not (is_of p l)) s)

reached-AreUnique : {s : List Lock} → Reach s → AreUnique s
reached-AreUnique empty = λ name. omega arith
reached-AreUnique (next r (careful st)) = Step-AreUnique st (reached-AreUnique r)
reached-AreUnique (next r (overrides p name reason date s t e)) =
    lock-AreUnique p name reason date true s t e (reached-AreUnique r)

none_held :
    (p : Process) (name : Text) (ls : List Lock)
    → count (is_named name) ls ≡ 0
    → any (is_held p name) ls ≡ false
none_held p name [] h = refl
none_held p name (l ∷ ls) h = ground (arith, none_held p name ls)

same_process :
    (p : Process) (name : Text) (l : Lock)
    → is_held p name l ≡ true
    → (l.host ≡ p.host) × (l.process_id ≡ p.process_id)
same_process p name l h = (
  text_eq_sound l.host p.host (ground (arith, h)),
  text_eq_sound l.process_id p.process_id (ground (arith, h)),
)

-- The only lock with the name is held by the process.
holder :
    (p : Process) (name : Text) (l : Lock) (ls : List Lock)
    → count (is_named name) ls ≡ 0
    → any (is_held p name) (l ∷ ls) ≡ true
    → (l.host ≡ p.host) × (l.process_id ≡ p.process_id)
holder p name l ls absent h =
    let others = none_held p name ls absent in same_process p name l (ground (arith, h, others))

one_holder :
    (p q : Process) (name : Text) (ls : List Lock)
    → count (is_named name) ls ≤ 1
    → any (is_held p name) ls ≡ true
    → any (is_held q name) ls ≡ true
    → (p.host ≡ q.host) × (p.process_id ≡ q.process_id)
one_holder p q name [] unique hp hq = absurd (ground arith)
one_holder p q name (l ∷ ls) unique hp hq = elim (Bool-cases (is_named name l)) [
  | inl e ↦
      let absent : count (is_named name) ls ≡ 0 = ground arith in
      let (p_host, p_id) = holder p name l ls absent hp in
      let (q_host, q_id) = holder q name l ls absent hq in (sym p_host ∙ q_host, sym p_id ∙ q_id)
  | inr e ↦ one_holder p q name ls (ground arith) (ground arith) (ground arith)
]

-- In every table that processes can leave, starting from an empty one and overriding locks or
-- not, two that hold the same lock are the same process.
pub lock_exclusive :
    (p q : Process) (name : Text) (ls : List Lock)
    → Reach ls
    → any (is_held p name) ls ≡ true
    → any (is_held q name) ls ≡ true
    → (p.host ≡ q.host) × (p.process_id ≡ q.process_id)
lock_exclusive p q name ls reached = one_holder p q name ls (reached-AreUnique reached name)

any-map {ℓ} :
    {A : Type ℓ} (p : A → Bool) (f : A → A) (xs : List A)
    → ((x : A) → p (f x) ≡ p x)
    → any p (map f xs) ≡ any p xs
any-map p f [] same = refl
any-map p f (x ∷ xs) same = ground (arith, any-map p f xs same, same x)

-- A lock of one process is not of another.
not_both :
    (p q : Process) (l : Lock)
    → (text_eq q.host p.host && text_eq q.process_id p.process_id) ≡ false
    → is_of p l ≡ true
    → is_of q l ≡ false
not_both p q l other of_p = elim (Bool-cases (is_of q l)) [
  | inr e ↦ e
  | inl e ↦
      let p_host : l.host ≡ p.host = text_eq_sound l.host p.host (ground arith) in
      let p_id : l.process_id ≡ p.process_id =
        text_eq_sound l.process_id p.process_id (ground arith) in
      let q_host : l.host ≡ q.host = text_eq_sound l.host q.host (ground arith) in
      let q_id : l.process_id ≡ q.process_id =
        text_eq_sound l.process_id q.process_id (ground arith) in
      let same_host : text_eq q.host p.host ≡ true =
        ap (λ h. text_eq h p.host) (sym q_host ∙ p_host) ∙ text_eq_refl p.host in
      let same_id : text_eq q.process_id p.process_id ≡ true =
        ap (λ h. text_eq h p.process_id) (sym q_id ∙ p_id) ∙ text_eq_refl p.process_id in
      absurd (ground (arith, same_host, same_id))
]

Step-held :
    (p : Process) (name : Text) {q : Process} {s t : List Lock}
    → (text_eq q.host p.host && text_eq q.process_id p.process_id) ≡ false
    → Step q s t
    → any (is_held p name) s ≡ true
    → any (is_held p name) t ≡ true
unfolding unlock_all
Step-held p name other (locks q taken reason date s t e) h =
    let (given, outcome) = lock_taken q taken reason date false s t e in
    elim outcome [
      | inl (o, _) ↦ absurd cc
      | inr (_, _, after) ↦
          let more = any-append (is_held p name) s (new_lock q taken given date ∷ []) in
          rw after (ground (arith, more, h))
    ]
Step-held p name other (updates q taken reason s t e) h =
    let (given, _, after) = updated q taken reason s t e in
    rw after (any-map (is_held p name) (give_reason q taken given) s (λ l. ground arith) ∙ h)
Step-held p name other (unlocks q given s t e) h = rw (unlocked q given s t e) (
    any-filter (is_held p name) (λ l. not (is_held q given l)) s
      (λ l held. let not_q = not_both p q l other (ground (arith, held)) in ground (arith, not_q))
      h)
Step-held p name other (unlocks_all q s) h =
    any-filter (is_held p name) (λ l. not (is_of q l)) s
      (λ l held. let not_q = not_both p q l other (ground (arith, held)) in ground (arith, not_q)) h

-- A process keeps a lock, whatever other processes do that do not override a lock.
pub lock_kept :
    (p : Process) (name : Text) (s t : List Lock)
    → Others p s t
    → any (is_held p name) s ≡ true
    → any (is_held p name) t ≡ true
lock_kept p name s t none_yet h = h
lock_kept p name s t (another rest other st) h =
    Step-held p name other st (lock_kept p name s _ rest h)
