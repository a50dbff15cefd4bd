-- ===== src/Storage/Key.antt =====
-- `StorageKeyMixIn` of src/benji/storage/key.py: a key is stored under a path that spreads the keys by
-- their MD5 digest. The digest is the library's, a parameter of which only the length is used.
use benji.Prelude.{
  ℕ, ◌+◌, ◌≤◌, ◌≡◌, refl, suc, Bool, true, ◌&&◌, not, [], ◌∷◌, ◌++◌, append_assoc, arith, Text,
  codes, strip_prefix, strip_prefix-append, text_eq, leb, ltb, is_some, length, length-append, take,
  drop, if◌then◌else◌,
}

-- The exceptions, and that of `key.encode('ascii')`.
pub data KeyError : Type 0 where
  not_ascii wrong_prefix too_short : KeyError

pub data Result {ℓ} (A : Type ℓ) : Type ℓ where
  ok : A → Result A
  error : KeyError → Result A

abbrev pub is_ascii : Text → Bool
is_ascii [] = true
is_ascii (c ∷ s) = ltb c 128 && is_ascii s

abbrev slash : Text
slash = codes "/"

-- `_to_path`, for a function that gives the hexadecimal digest of a key.
unfoldable pub to_path : (Text → Text) → Text → Text → Result Text
to_path md5 prefix key =
    let digest = md5 key in
    if is_ascii key
    then ok (prefix ++ (take 2 digest ++ (slash ++ (take 2 (drop 2 digest) ++ (slash ++ key)))))
    else error not_ascii

-- `_from_path`
unfoldable pub from_path : Text → Text → Result Text
from_path prefix key =
    if not (is_some (strip_prefix prefix key))
    then error wrong_prefix
    else if leb (length key) (length prefix + 6)
    then error too_short
    else ok (drop (length prefix + 6) key)

drop-append : (n : ℕ) (xs ys : Text) → drop (length xs + n) (xs ++ ys) ≡ drop n ys
drop-append n [] ys = ground arith
drop-append n (x ∷ xs) ys =
    let same : length (x ∷ xs) + n ≡ suc (length xs + n) = omega arith in
    rw same (drop-append n xs ys)

-- The six characters between the prefix and the key.
abbrev middle : Text → Text
middle digest = take 2 digest ++ (slash ++ (take 2 (drop 2 digest) ++ slash))

length-middle : (digest : Text) → 4 ≤ length digest → length (middle digest) ≡ 6
length-middle [] h = ground arith
length-middle (a ∷ []) h = ground arith
length-middle (a ∷ b ∷ []) h = ground arith
length-middle (a ∷ b ∷ c ∷ []) h = ground arith
length-middle (a ∷ b ∷ c ∷ d ∷ rest) h = refl

to_path-middle :
    (md5 : Text → Text) (prefix key : Text)
    → to_path md5 prefix key
      ≡ (if is_ascii key then ok (prefix ++ (middle (md5 key) ++ key)) else error not_ascii)
unfolding to_path
to_path-middle md5 prefix key = rw (append_assoc, append_assoc, append_assoc) refl

from_path-middle :
    (prefix m key : Text)
    → length m ≡ 6
    → from_path prefix (prefix ++ (m ++ key)) ≡ (if text_eq key [] then error too_short else ok key)
unfolding from_path
from_path-middle prefix m [] h = ground (
  arith,
  strip_prefix-append prefix (m ++ []),
  length-append prefix (m ++ []),
  length-append m [],
)
from_path-middle prefix m (c ∷ key) h =
    let six : 6 ≡ length m + 0 = omega arith in
    let behind : drop 6 (m ++ c ∷ key) ≡ c ∷ key = rw six (drop-append 0 m (c ∷ key)) in
    ground (
      arith,
      strip_prefix-append prefix (m ++ c ∷ key),
      length-append prefix (m ++ c ∷ key),
      length-append m (c ∷ key),
      drop-append 6 prefix (m ++ c ∷ key),
      behind,
    )

-- For a digest of at least four characters: a key of ASCII has a path, and from it and the prefix
-- the key is read again, but for the empty key, whose path is refused as too short. A key that is
-- not of ASCII has no path.
pub from_path-to_path :
    (md5 : Text → Text) (prefix key : Text)
    → 4 ≤ length (md5 key)
    → (path : Text) × (to_path md5 prefix key ≡ (if is_ascii key then ok path else error not_ascii))
      × (from_path prefix path ≡ (if text_eq key [] then error too_short else ok key))
from_path-to_path md5 prefix key h = (
  prefix ++ (middle (md5 key) ++ key),
  to_path-middle md5 prefix key,
  from_path-middle prefix (middle (md5 key)) key (length-middle (md5 key) h),
)
