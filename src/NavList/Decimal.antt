-- ===== src/NavList/Decimal.antt =====
-- The decimal digits of a number, as a string concatenation writes them, and a reader for them.
use benji.Prelude.{
  ℕ, zero, suc, ◌+◌, ◌-◌, ◌*◌, ◌/◌, ◌%◌, ◌<◌, ◌≡◌, ◌∙◌, ap, Bool, ◌&&◌, [], ◌∷◌, ◌++◌, arith, Text,
  leb, ltb, if◌then◌else◌, append_assoc, Bool-cases, inl, inr, true, false,
}

-- `n + ''`, with as much fuel as the number is large.
show_from : ℕ → ℕ → Text
show_from zero n = []
show_from (suc fuel) n =
    let more = show_from fuel (n / 10) ++ (b'0' + n % 10) ∷ [] in
    if ltb n 10 then (b'0' + n) ∷ [] else more

unfoldable pub show_nat : ℕ → Text
unfolding show_from
show_nat n = show_from (suc n) n

abbrev pub is_digit : ℕ → Bool
is_digit c = leb b'0' c && leb c b'9'

-- Reads digits as far as they go, onto a number.
unfoldable pub read_digits : ℕ → Text → ℕ × Text
read_digits n [] = (n, [])
read_digits n (c ∷ s) =
    let more = read_digits (n * 10 + (c - b'0')) s in if is_digit c then more else (n, c ∷ s)

read_digits-digit :
    (k d : ℕ) (rest : Text)
    → d < 10
    → read_digits k ((b'0' + d) ∷ rest) ≡ read_digits (k * 10 + d) rest
unfolding read_digits
read_digits-digit k d rest h =
    let is : is_digit (b'0' + d) ≡ true = ground arith in
    let same : b'0' + d - b'0' ≡ d = omega arith in rw (is, same)

read_digits-show_from :
    (fuel n : ℕ) (rest : Text)
    → n < fuel
    → read_digits 0 (show_from fuel n ++ rest) ≡ read_digits n rest
unfolding show_from
read_digits-show_from zero n rest h = elim h [ ]
read_digits-show_from (suc fuel) n rest h = elim (Bool-cases (ltb n 10)) [
  | inl small ↦
      rw small
        (read_digits-digit 0 n rest (ground arith) ∙ ap (λ k. read_digits k rest) (omega arith))
  | inr large ↦
      rw (large, append_assoc)
        (read_digits-show_from fuel (n / 10) ((b'0' + n % 10) ∷ rest) (ground arith)
          ∙ read_digits-digit (n / 10) (n % 10) rest (omega arith)
          ∙ ap (λ k. read_digits k rest) (omega arith))
]

-- What is written is read back, in front of anything but another digit.
pub read_digits-show_nat :
    (n c : ℕ) (rest : Text)
    → is_digit c ≡ false
    → read_digits 0 (show_nat n ++ c ∷ rest) ≡ (n, c ∷ rest)
unfolding show_nat
read_digits-show_nat n c rest h =
    read_digits-show_from (suc n) n (c ∷ rest) (omega arith) ∙ unfold read_digits in rw h
