-- ===== src/Restore/Writes.antt =====
-- What a write of a block does to the other blocks of a target.
use native.Mathlib.Nat.{le-div_iff_mul-le, mul-le-mul_right, mod-lt, div-add-mod'}
use benji.Prelude.{
  length-take, ℕ, zero, suc, ◌==◌, ◌≡◌, ◌+◌, ◌-◌, ◌*◌, ◌/◌, ◌%◌, ◌≤◌, ◌<◌, ◌↔◌, refl, sym, ap, ◌∙◌,
  true, false, some, arith, ltb, take, drop, length,
}
use benji.Database.{block_length, Version, blocks_count}
use benji.Backup.{Bytes, zeros}
use benji.Backup.Hinted.{block_data}
use benji.Restore.{write_at, Write}
use benji.Restore.Files.{byte, byte-take, byte-drop, byte-write_at, length-write_at, byte-injective}

pub block_length-le : (v : Version) (k : ℕ) → block_length v k ≤ v.block_size
block_length-le v k = ground arith

-- A block of the version starts within it.
pub block_starts :
    (v : Version) (k : ℕ) → 0 < v.block_size → k < blocks_count v → k * v.block_size < v.size
block_starts v k pos h =
    let (up, down) : (k + 1 ≤ (v.size + v.block_size - 1) / v.block_size)
        ↔ ((k + 1) * v.block_size ≤ v.size + v.block_size - 1) =
      le-div_iff_mul-le pos in
    let enough = up (omega arith) in omega arith

module _ (v : Version) (source : Bytes) where
  -- A block of the target is as in the source.
  abbrev pub Agrees : ℕ → Bytes → Type 0
  Agrees k target =
      (j : ℕ)
      → j < block_length v k
      → byte (k * v.block_size + j) target ≡ byte (k * v.block_size + j) source

  -- The data begins with what is in the source, and is not longer than a block.
  pub record WriteIsSound (w : Write) : Type 0 where
    pub in_range : w.idx < blocks_count v
    pub short : length w.bytes ≤ v.block_size
    pub long : block_length v w.idx ≤ length w.bytes
    pub same :
        (j : ℕ) → j < block_length v w.idx → byte j w.bytes ≡ byte (w.idx * v.block_size + j) source

  module _ (w : Write) (target : Bytes) (pos : 0 < v.block_size) (sound : WriteIsSound w)
      (room : v.size ≤ length target) where
    fits : w.idx * v.block_size ≤ length target
    fits = omega (arith, block_starts v w.idx pos sound.in_range)

    pub room-write_at : v.size ≤ length (write_at (w.idx * v.block_size) w.bytes target)
    room-write_at = omega (arith, length-write_at (w.idx * v.block_size) w.bytes target fits)

    pub written-Agrees : Agrees w.idx (write_at (w.idx * v.block_size) w.bytes target)
    written-Agrees j inside =
        let there =
          byte-write_at (w.idx * v.block_size + j) (w.idx * v.block_size) w.bytes target fits in
        let back : w.idx * v.block_size + j - w.idx * v.block_size ≡ j = omega arith in
        let enough = sound.long in
        let above : ltb (w.idx * v.block_size + j) (w.idx * v.block_size) ≡ false = ground arith in
        let below : ltb (w.idx * v.block_size + j) (w.idx * v.block_size + length w.bytes) ≡ true =
          ground arith in
        there ∙ rw (above, below, back) (sound.same j inside)

    pub others-Agree :
        (k : ℕ)
        → (k == w.idx) ≡ false
        → Agrees k target
        → Agrees k (write_at (w.idx * v.block_size) w.bytes target)
    others-Agree k other agrees j inside =
        let there =
          byte-write_at (k * v.block_size + j) (w.idx * v.block_size) w.bytes target fits in
        let least = block_length-le v k in
        let short = sound.short in
        let before : k < w.idx → (k + 1) * v.block_size ≤ w.idx * v.block_size =
          λ h. mul-le-mul_right v.block_size (omega arith) in
        let behind : w.idx < k → (w.idx + 1) * v.block_size ≤ k * v.block_size =
          λ h. mul-le-mul_right v.block_size (omega arith) in
        let same = agrees j inside in there ∙ ground (arith, before, behind)

  -- When each block of the target is as in the source, so is the target, up to the size.
  pub all_agree :
      (target : Bytes)
      → 0 < v.block_size
      → length source ≡ v.size
      → v.size ≤ length target
      → ((k : ℕ) → k < blocks_count v → Agrees k target)
      → take v.size target ≡ source
  all_agree target pos size room agree =
      let length_is = length-take v.size target room in
      byte-injective (take v.size target) source (length_is ∙ sym size) (λ i low.
        let k = i / v.block_size in
        let j = i % v.block_size in
        let whole : k * v.block_size + j ≡ i = div-add-mod' i v.block_size in
        let small : j < v.block_size = mod-lt i pos in
        let in_version : i < v.size = omega arith in
        let (up, down) : (k + 1 ≤ (v.size + v.block_size - 1) / v.block_size)
            ↔ ((k + 1) * v.block_size ≤ v.size + v.block_size - 1) =
          le-div_iff_mul-le pos in
        let in_range : k < blocks_count v = omega (arith, down (omega arith)) in
        let inside : j < block_length v k = ground arith in
        let same : byte i target ≡ byte i source = rw whole at (agree k in_range j inside) in
        byte-take i v.size target ∙ ground arith)

  -- The data of a block, byte by byte.
  pub byte-block_data :
      (k j : ℕ)
      → j < block_length v k
      → byte j (block_data v source k) ≡ byte (k * v.block_size + j) source
  byte-block_data k j inside =
      byte-take j (block_length v k) (drop (k * v.block_size) source)
      ∙ let here = byte-drop j (k * v.block_size) source in ground arith

pub byte-zeros : (n j : ℕ) → j < n → byte j (zeros n) ≡ some 0
byte-zeros zero j h = absurd (omega arith)
byte-zeros (suc n) zero h = refl
byte-zeros (suc n) (suc j) h = byte-zeros n j (omega arith)

pub length-zeros : (n : ℕ) → length (zeros n) ≡ n
length-zeros zero = refl
length-zeros (suc n) = ap suc (length-zeros n)
