-- ===== src/Restore/Files.antt =====
-- Files byte by byte.
use benji.Prelude.{
  length-drop, length-take, ℕ, zero, suc, ◌≡◌, ◌+◌, ◌-◌, ◌≤◌, ◌<◌, refl, ap, ◌∙◌, Option, none,
  some, [], ◌∷◌, ◌++◌, arith, if◌then◌else◌, ltb, take, drop, length, length-append,
}
use benji.Backup.{Bytes}
use benji.Restore.{write_at}

abbrev pub byte : ℕ → Bytes → Option ℕ
byte i [] = none
byte zero (x ∷ xs) = some x
byte (suc i) (x ∷ xs) = byte i xs

pub byte-append :
    (i : ℕ) (xs ys : Bytes)
    → byte i (xs ++ ys) ≡ (if ltb i (length xs) then byte i xs else byte (i - length xs) ys)
byte-append i [] ys = ground arith
byte-append zero (x ∷ xs) ys = ground arith
byte-append (suc i) (x ∷ xs) ys = byte-append i xs ys ∙ ground arith

pub byte-take : (i n : ℕ) (xs : Bytes) → byte i (take n xs) ≡ (if ltb i n then byte i xs else none)
byte-take i zero xs = ground arith
byte-take i (suc n) [] = ground arith
byte-take zero (suc n) (x ∷ xs) = ground arith
byte-take (suc i) (suc n) (x ∷ xs) = byte-take i n xs ∙ ground arith

pub byte-drop : (i n : ℕ) (xs : Bytes) → byte i (drop n xs) ≡ byte (n + i) xs
byte-drop i zero xs = ap (λ k. byte k xs) (omega arith)
byte-drop i (suc n) [] = refl
byte-drop i (suc n) (x ∷ xs) =
    let same : suc n + i ≡ suc (n + i) = omega arith in rw same (byte-drop i n xs)

-- A write changes its own bytes, and no others.
pub byte-write_at :
    (i offset : ℕ) (bytes f : Bytes)
    → offset ≤ length f
    → byte i (write_at offset bytes f) ≡ (
        if ltb i offset
        then byte i f
        else if ltb i (offset + length bytes)
        then byte (i - offset) bytes
        else byte i f)
byte-write_at i offset bytes f h =
    let no_gap : offset - length f ≡ 0 = omega arith in
    let front = length-take offset f h in
    let whole = byte-append i (take offset f) (bytes ++ drop (offset + length bytes) f) in
    let back = byte-append (i - offset) bytes (drop (offset + length bytes) f) in
    let kept = byte-take i offset f in
    let rest = byte-drop (i - offset - length bytes) (offset + length bytes) f in
    let again : offset + length bytes ≤ i
        → offset + length bytes + (i - offset - length bytes) ≡ i =
      λ low. omega arith in
    rw no_gap (whole ∙ rw (front, kept, back, rest) (ground (arith, again)))

pub length-write_at :
    (offset : ℕ) (bytes f : Bytes) → offset ≤ length f → length f ≤ length (write_at offset bytes f)
length-write_at offset bytes f h =
    let no_gap : offset - length f ≡ 0 = omega arith in
    rw no_gap (
      omega (
        arith,
        length-append (take offset f) (bytes ++ drop (offset + length bytes) f),
        length-append bytes (drop (offset + length bytes) f),
        length-take offset f h,
        length-drop (offset + length bytes) f,
      ))

-- Files of the same length with the same bytes are the same.
pub byte-injective :
    (xs ys : Bytes)
    → length xs ≡ length ys
    → ((i : ℕ) → i < length xs → byte i xs ≡ byte i ys)
    → xs ≡ ys
byte-injective [] [] size h = refl
byte-injective [] (y ∷ ys) size h = absurd (omega arith)
byte-injective (x ∷ xs) [] size h = absurd (omega arith)
byte-injective (x ∷ xs) (y ∷ ys) size h =
    let first : some x ≡ some y = h 0 (omega arith) in
    let rest = byte-injective xs ys (omega arith) (λ i low. h (suc i) (omega arith)) in cc
