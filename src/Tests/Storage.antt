-- ===== src/Tests/Storage.antt =====
-- Paths of keys under a digest of zeros, a history over a set of numbers kept as a list, and a
-- signature of metadata.
use benji.Prelude.{
  ℕ, ◌≡◌, refl, true, false, ◌||◌, List, [], ◌∷◌, Text, codes, text_eq, contains, any, arith,
  if◌then◌else◌,
}
use benji.Storage.Key.{
  ok, error, not_ascii, too_short, is_ascii, to_path, from_path, from_path-to_path,
}
use benji.Storage.Uid.{BlockUid}
use benji.Storage.History.{Bitfield, IsBitfield, add_all, add, seen, is_same, seen-add_all}
use benji.Storage.Hmac.{
  Entries, no_entry, entry, string, dict, done, add_digest, verify_digest, signature,
  verify_digest-add_digest, verify_digest_ambiguous,
}

abbrev zeros : Text → Text
zeros key = codes "00000000000000000000000000000000"

path : to_path zeros (codes "blocks/") (codes "1-7") ≡ ok (codes "blocks/00/00/1-7")
unfolding to_path
path = refl

back : from_path (codes "blocks/") (codes "blocks/00/00/1-7") ≡ ok (codes "1-7")
unfolding from_path
back = refl

from_path-to_path_example :
    (path : Text) × (to_path zeros (codes "blocks/") (codes "1-7")
      ≡ (if is_ascii (codes "1-7") then ok path else error not_ascii))
    × (from_path (codes "blocks/") path
        ≡ (if text_eq (codes "1-7") [] then error too_short else ok (codes "1-7")))
from_path-to_path_example = from_path-to_path zeros (codes "blocks/") (codes "1-7") (omega arith)

abbrev numbers : Bitfield
numbers = record { Field = List ℕ; empty = []; add = λ n ns. n ∷ ns; has = λ n ns. contains ns n }

numbers-IsBitfield : IsBitfield numbers
numbers-IsBitfield = record { has-empty = λ n. refl; has-add = λ m n ns. refl }

abbrev uid : ℕ → ℕ → BlockUid
uid left right = record { left = left; right = right }

abbrev added : List (ℕ × BlockUid)
added = (1, uid 3 4) ∷ (2, uid 3 5) ∷ (1, uid 3 9) ∷ []

remembers : seen numbers 1 (uid 3 4) (add_all numbers added []) ≡ true
unfolding seen add_all add
remembers = refl

tells_apart : seen numbers 1 (uid 3 5) (add_all numbers added []) ≡ false
unfolding seen add_all add
tells_apart = refl

seen-add_all_example :
    seen numbers 1 (uid 3 9) (add_all numbers added [])
    ≡ (any (is_same 1 (uid 3 9)) added || seen numbers 1 (uid 3 9) [])
seen-add_all_example = seen-add_all numbers numbers-IsBitfield added [] 1 (uid 3 9)

-- A digest that is no secret: the text itself.
abbrev plain : Text → Text
plain s = s

abbrev metadata : Entries
metadata = entry (codes "size") (string (codes "4096")) no_entry

verify_digest-add_digest_example :
    (signed : Entries) × (add_digest plain (codes "hmac") (dict metadata) ≡ done (dict signed))
    × (verify_digest plain (codes "hmac") (dict signed) ≡ done (dict metadata))
verify_digest-add_digest_example = verify_digest-add_digest plain (codes "hmac") metadata refl

verify_digest_ambiguous_example :
    verify_digest plain (codes "hmac") (
      dict (
        entry (codes "si") (string (codes "ze4096")) (
          entry
            (codes "hmac")
            (signature plain (codes "hmac") (entry (codes "size") (string (codes "4096")) no_entry))
            no_entry)))
    ≡ done (dict (entry (codes "si") (string (codes "ze4096")) no_entry))
verify_digest_ambiguous_example =
    verify_digest_ambiguous plain (codes "hmac") (codes "si") (codes "ze") (codes "4096") refl
