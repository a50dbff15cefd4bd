-- ===== src/Storage/Hmac.antt =====
-- `DictHMAC` of src/benji/storage/dicthmac.py: the metadata of blocks and versions are signed with a
-- keyed digest. The digest, with its secret key and its Base64, is the library's and a parameter: a
-- function of the text that the calls of `update` give it one after another.
use benji.Prelude.{
  ◌==◌, ◌≡◌, refl, sym, ap, Bool, true, false, not, Option, none, some, List, [], ◌∷◌, ◌++◌,
  append_assoc, arith, Text, codes, text_eq, text_eq_refl, ltb, if◌then◌else◌,
}

-- What a JSON document is read as: dictionaries, lists, strings, and other values, which are known by
-- what `str` gives for them.
mutual
  pub data Value : Type 0 where
    dict : Entries → Value
    list : Values → Value
    string : Text → Value
    other : Text → Value

  pub data Entries : Type 0 where
    no_entry : Entries
    entry : Text → Value → Entries → Entries

  pub data Values : Type 0 where
    no_value : Values
    value : Value → Values → Values

-- `a <= b` on strings.
abbrev text_leb : Text → Text → Bool
text_leb [] t = true
text_leb (a ∷ s) [] = false
text_leb (a ∷ s) (b ∷ t) = let rest = text_leb s t in if a == b then rest else ltb a b

-- `sorted(cursor.keys())`, each key with what it brings.
abbrev insert : Text × Text → List (Text × Text) → List (Text × Text)
insert e [] = e ∷ []
insert e (f ∷ fs) = let rest = insert e fs in if text_leb e.0 f.0 then e ∷ f ∷ fs else f ∷ rest

abbrev sort : List (Text × Text) → List (Text × Text)
sort [] = []
sort (e ∷ es) = insert e (sort es)

abbrev concat : List (Text × Text) → Text
concat [] = []
concat ((key, text) ∷ es) = key ++ text ++ concat es

-- `traverse`: what is given to `hmac.update`, joined. The entries of a dictionary are traversed
-- in the order of their keys.
mutual
  pub traverse : Value → Text
  traverse (dict es) = concat (sort (traverse_entries es))
  traverse (list vs) = traverse_values vs
  traverse (string s) = s
  traverse (other s) = s

  pub traverse_entries : Entries → List (Text × Text)
  traverse_entries no_entry = []
  traverse_entries (entry key v es) = (key, traverse v) ∷ traverse_entries es

  pub traverse_values : Values → Text
  traverse_values no_value = []
  traverse_values (value v vs) = traverse v ++ traverse_values vs

-- Dictionaries keep the order in which their keys were added.
abbrev pub get : Text → Entries → Option Value
get key no_entry = none
get key (entry k v es) = let rest = get key es in if text_eq key k then some v else rest

abbrev pub put : Text → Value → Entries → Entries
put key v no_entry = entry key v no_entry
put key v (entry k w es) =
    let rest = put key v es in if text_eq key k then entry k v es else entry k w rest

abbrev pub delete : Text → Entries → Entries
delete key no_entry = no_entry
delete key (entry k w es) = let rest = delete key es in if text_eq key k then es else entry k w rest

abbrev algorithm_key : Text
algorithm_key = codes "algorithm"

abbrev digest_key : Text
digest_key = codes "digest"

abbrev hash_name : Text
hash_name = codes "sha256"

-- The InternalError, and the ValueErrors.
pub data HmacError : Type 0 where
  not_a_dict missing_hmac invalid_type missing_key unsupported_algorithm invalid_hmac : HmacError

-- What a call leaves of the dictionary, and its exception.
pub data Outcome : Type 0 where
  done : Value → Outcome
  raised : HmacError → Value → Outcome

-- `value != text`
abbrev is_string : Text → Value → Bool
is_string s (string t) = text_eq t s
is_string s _ = false

joined :
    (a b c : Text)
    → traverse (dict (entry a (string (b ++ c)) no_entry))
      ≡ traverse (dict (entry (a ++ b) (string c) no_entry))
unfolding traverse traverse_entries
joined a b c = ap (λ text. text ++ []) (sym (append_assoc a b c))

module _ (hmac : Text → Text) (hmac_key : Text) where
  abbrev pub calculate_digest : Entries → Text
  calculate_digest es = hmac (traverse (dict es))

  abbrev pub signature : Entries → Value
  signature es = dict (
      entry algorithm_key (string hash_name)
        (entry digest_key (string (calculate_digest es)) no_entry))

  unfoldable pub add_digest : Value → Outcome
  add_digest (dict es) = done (dict (put hmac_key (signature es) es))
  add_digest v = raised not_a_dict v

  -- The part behind the tests of the keys: the signature is taken out before the digest is compared.
  unfoldable pub compare_digest : Value → Entries → Outcome
  compare_digest expected es =
      let data_dict = delete hmac_key es in
      if is_string (calculate_digest data_dict) expected
      then done (dict data_dict)
      else raised invalid_hmac (dict data_dict)

  unfoldable pub verify_hmac : Value → Entries → Outcome
  verify_hmac (dict hs) es = elim (get algorithm_key hs) [
    | none ↦ raised missing_key (dict es)
    | some algorithm ↦ elim (get digest_key hs) [
      | none ↦ raised missing_key (dict es)
      | some expected ↦
          if not (is_string hash_name algorithm)
          then raised unsupported_algorithm (dict es)
          else compare_digest expected es
    ]
  ]
  verify_hmac _ es = raised invalid_type (dict es)

  unfoldable pub verify_digest : Value → Outcome
  verify_digest (dict es) = elim (get hmac_key es) [
    | none ↦ raised missing_hmac (dict es)
    | some hs ↦ verify_hmac hs es
  ]
  verify_digest v = raised not_a_dict v

  get-put : (v : Value) (es : Entries) → get hmac_key (put hmac_key v es) ≡ some v
  get-put v no_entry = rw (text_eq_refl hmac_key) refl
  get-put v (entry k w es) = ground (arith, get-put v es)

  delete-put :
      (v : Value) (es : Entries) → get hmac_key es ≡ none → delete hmac_key (put hmac_key v es) ≡ es
  delete-put v no_entry h = rw (text_eq_refl hmac_key) refl
  delete-put v (entry k w es) h = ground (arith, delete-put v es)

  -- A signature that is that of the entries that are left without it is accepted.
  verify_digest-signed :
      (es rest signed : Entries)
      → get hmac_key es ≡ some (signature signed)
      → delete hmac_key es ≡ rest
      → calculate_digest rest ≡ calculate_digest signed
      → verify_digest (dict es) ≡ done (dict rest)
  unfolding verify_digest verify_hmac compare_digest
  verify_digest-signed es rest signed there left same =
      let known : is_string (calculate_digest rest) (string (calculate_digest signed)) ≡ true =
        rw same (text_eq_refl (calculate_digest signed)) in
      ground (arith, there, left, known)

  -- A dictionary that is not signed yet, with the digest added, is verified and is then as it was
  -- before.
  pub verify_digest-add_digest :
      (es : Entries)
      → get hmac_key es ≡ none
      → (signed : Entries) × (add_digest (dict es) ≡ done (dict signed))
        × (verify_digest (dict signed) ≡ done (dict es))
  unfolding add_digest
  verify_digest-add_digest es h = (
    put hmac_key (signature es) es,
    refl,
    verify_digest-signed (put hmac_key (signature es) es) es es (get-put (signature es) es)
        (delete-put (signature es) es h) refl,
  )

  -- The digest does not tell where a key ends: the signature of an entry whose key is `a ++ b` and
  -- whose value is `c` is accepted for the entry with the key `a` and the value `b ++ c`, if that key
  -- is not the one of the signature.
  pub verify_digest_ambiguous :
      (a b c : Text)
      → text_eq hmac_key a ≡ false
      → verify_digest (
          dict (
            entry a
              (string (b ++ c))
              (entry hmac_key (signature (entry (a ++ b) (string c) no_entry)) no_entry)))
        ≡ done (dict (entry a (string (b ++ c)) no_entry))
  verify_digest_ambiguous a b c h =
      let forged = entry a (string (b ++ c)) no_entry in
      let signed = entry (a ++ b) (string c) no_entry in
      let es = entry a (string (b ++ c)) (entry hmac_key (signature signed) no_entry) in
      let there : get hmac_key es ≡ some (signature signed) = rw (h, text_eq_refl hmac_key) refl in
      let left : delete hmac_key es ≡ forged = rw (h, text_eq_refl hmac_key) refl in
      verify_digest-signed es forged signed there left (ap hmac (joined a b c))
