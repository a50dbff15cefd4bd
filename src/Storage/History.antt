-- ===== src/Storage/History.antt =====
-- `BlockUidHistory` of src/benji/blockuidhistory.py: the blocks that were seen, for each storage.
-- `SparseBitfield` is a library's set of numbers, and a parameter here.
use benji.Prelude.{
  ℕ, ◌==◌, ◌≡◌, refl, ap, ◌∙◌, Bool-cases, Option-cases, inl, inr, Bool, false, ◌||◌, ◌&&◌, Option,
  none, some, List, [], ◌∷◌, arith, any, if◌then◌else◌, ==_iff,
}
use benji.Storage.Uid.{BlockUid}

-- `SparseBitfield()`, `.add(n)` and `n in …`
pub record Bitfield : Type 1 where
  pub Field : Type 0
  pub empty : Field
  pub add : ℕ → Field → Field
  pub has : ℕ → Field → Bool

pub record IsBitfield (B : Bitfield) : Type 0 where
  pub has-empty : (n : ℕ) → B.has n B.empty ≡ false
  pub has-add : (m n : ℕ) (b : B.Field) → B.has n (B.add m b) ≡ (n == m || B.has n b)

-- A dictionary whose missing keys get a value: `f` is applied to the value of the key, or to that of
-- an entry made for it.
abbrev update {ℓ} : {A : Type ℓ} → ℕ → A → (A → A) → List (ℕ × A) → List (ℕ × A)
update key missing f [] = (key, f missing) ∷ []
update key missing f ((k, a) ∷ entries) =
    let rest = update key missing f entries in
    if key == k then (k, f a) ∷ entries else (k, a) ∷ rest

abbrev get {ℓ} : {A : Type ℓ} → ℕ → List (ℕ × A) → Option A
get key [] = none
get key ((k, a) ∷ entries) = let rest = get key entries in if key == k then some a else rest

get-update :
    {A : Type 0} (key : ℕ) (missing : A) (f : A → A) (entries : List (ℕ × A)) (k : ℕ)
    → get k (update key missing f entries) ≡ (
        if k == key
        then some (f (elim (get key entries) [ none ↦ missing | some a ↦ a ]))
        else get k entries)
get-update key missing f [] k = ground arith
get-update key missing f ((j, a) ∷ entries) k = ground (arith, get-update key missing f entries k)

module _ (B : Bitfield) where
  -- `_history`: by storage, by the left half of a uid, the right halves.
  abbrev pub History : Type 0
  History = List (ℕ × List (ℕ × B.Field))

  unfoldable pub add : ℕ → BlockUid → History → History
  add storage_id uid history =
      update storage_id [] (update uid.left B.empty (λ field. B.add uid.right field)) history

  -- The two lookups of `seen`, each with its test for a missing key.
  abbrev seen_field : BlockUid → Option B.Field → Bool
  seen_field uid none = false
  seen_field uid (some field) = B.has uid.right field

  abbrev seen_blocks : BlockUid → Option (List (ℕ × B.Field)) → Bool
  seen_blocks uid none = false
  seen_blocks uid (some blocks) = seen_field uid (get uid.left blocks)

  unfoldable pub seen : ℕ → BlockUid → History → Bool
  seen storage_id uid history = seen_blocks uid (get storage_id history)

  unfoldable pub add_all : List (ℕ × BlockUid) → History → History
  add_all [] history = history
  add_all ((s, uid) ∷ more) history = add_all more (add s uid history)

abbrev pub is_same : ℕ → BlockUid → ℕ × BlockUid → Bool
is_same s u entry = s == entry.0 && (u.left == entry.1.left && u.right == entry.1.right)

module _ (B : Bitfield) (L : IsBitfield B) where
  -- Adding to the blocks of one storage.
  seen-update :
      (u v : BlockUid) (blocks : List (ℕ × B.Field))
      → seen_field B u (get u.left (update v.left B.empty (λ field. B.add v.right field) blocks))
        ≡ ((u.left == v.left && u.right == v.right) || seen_field B u (get u.left blocks))
  seen-update u v blocks =
      ap (seen_field B u) (get-update v.left B.empty (λ field. B.add v.right field) blocks u.left)
      ∙ elim (Bool-cases (u.left == v.left)) [
        | inr e ↦ ground arith
        | inl e ↦
            let same : u.left ≡ v.left = (==_iff u.left v.left).0 e in
            elim (Option-cases (get v.left blocks)) [
              | inl g ↦ ground (arith, L.has-add v.right u.right B.empty, L.has-empty u.right)
              | inr (field, g) ↦ ground (arith, L.has-add v.right u.right field)
            ]
      ]

  seen-add :
      (s : ℕ) (u : BlockUid) (t : ℕ) (v : BlockUid) (history : History B)
      → seen B s u (add B t v history) ≡ (is_same s u (t, v) || seen B s u history)
  unfolding seen add
  seen-add s u t v history =
      ap (seen_blocks B u)
        (get-update t [] (update v.left B.empty (λ field. B.add v.right field)) history s)
      ∙ elim (Bool-cases (s == t)) [
        | inr e ↦ ground arith
        | inl e ↦
            let same : s ≡ t = (==_iff s t).0 e in
            elim (Option-cases (get t history)) [
              | inl g ↦ ground (arith, seen-update u v [])
              | inr (blocks, g) ↦ ground (arith, seen-update u v blocks)
            ]
      ]

  -- Whatever is added to a history, in whatever order: a block of a storage is seen afterwards if and
  -- only if it was added, for that storage and with both halves of its uid, or was seen before.
  pub seen-add_all :
      (added : List (ℕ × BlockUid)) (history : History B) (s : ℕ) (u : BlockUid)
      → seen B s u (add_all B added history) ≡ (any (is_same s u) added || seen B s u history)
  unfolding add_all
  seen-add_all [] history s u = refl
  seen-add_all ((t, v) ∷ added) history s u =
      ground (arith, seen-add_all added (add B t v history) s u, seen-add s u t v history)
