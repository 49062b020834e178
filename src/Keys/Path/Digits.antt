-- ===== src/Keys/Path/Digits.antt =====
-- The numbers in the items of a path, for `path_expand` of bitcoinlib/keys.py.
use bitcoinlib.Common.{
  ℕ, zero, suc, ◌/◌, ◌≤◌, ◌≡◌, refl, sym, ◌⊎◌, [], ◌∷◌, ◌++◌, Bool, true, false, Option, none, some,
  Bool-cases, inl, inr, arith, ltb, bytes_eq, if◌then◌else◌,
}
use bitcoinlib.Keys.Derivation.Text.{last_is_mark}
use bitcoinlib.Keys.Path.{
  Text, Settings, network_name, account_name, purpose_name, coin_type_name, script_type_name,
  cosigner_index_name, change_name, address_index_name, none_text, digits_of, str, is_decimal,
  all_decimal, isdigit, default_of, is_master, ends_with_quote, is_marked,
}

all_decimal-append :
    (xs ys : Text) → all_decimal xs ≡ true → all_decimal ys ≡ true → all_decimal (xs ++ ys) ≡ true
all_decimal-append [] ys h k = k
all_decimal-append (c ∷ cs) ys h k = ground (arith, all_decimal-append cs ys)

digits_of-all_decimal : (fuel n : ℕ) → all_decimal (digits_of fuel n) ≡ true
unfolding digits_of
digits_of-all_decimal zero n = refl
digits_of-all_decimal (suc fuel) n = elim (Bool-cases (ltb n 10)) [
  | inl t ↦ rw t (ground arith)
  | inr f ↦ rw f (
      all_decimal-append (digits_of fuel (n / 10)) _ (digits_of-all_decimal fuel (n / 10))
        (ground arith))
]

isdigit-append :
    (xs : Text) (c : ℕ)
    → all_decimal xs ≡ true
    → is_decimal c ≡ true
    → isdigit (xs ++ c ∷ []) ≡ true
isdigit-append [] c h k = ground arith
isdigit-append (x ∷ xs) c h k = ground (arith, all_decimal-append xs (c ∷ []))

pub digits_of-isdigit : (fuel n : ℕ) → isdigit (digits_of (suc fuel) n) ≡ true
unfolding digits_of
digits_of-isdigit fuel n = elim (Bool-cases (ltb n 10)) [
  | inl t ↦ rw t (ground arith)
  | inr f ↦ rw f (
      isdigit-append (digits_of fuel (n / 10)) _ (digits_of-all_decimal fuel (n / 10))
        (ground arith))
]

-- The text of a number, or `None`.
abbrev pub IsValue : Text → Type 0
IsValue v = (isdigit v ≡ true) ⊎ (v ≡ none_text)

str-IsValue : (o : Option ℕ) → IsValue (str o)
unfolding str
str-IsValue none = inr refl
str-IsValue (some n) = inl (digits_of-isdigit n n)

some_value : {v w : Text} → some v ≡ some w → v ≡ w
some_value h = cc

pick-IsValue :
    (test : Bool) (o : Option ℕ) (rest : Option Text) (v : Text)
    → (rest ≡ some v → IsValue v)
    → (if test then some (str o) else rest) ≡ some v
    → IsValue v
pick-IsValue true o rest v k h = rw (sym (some_value h)) (str-IsValue o)
pick-IsValue false o rest v k h = k h

pub default_of-IsValue :
    (s : Settings) (varname v : Text)
    → bytes_eq varname network_name ≡ false
    → default_of s varname ≡ some v
    → IsValue v
unfolding default_of
default_of-IsValue s varname v n h =
    let test : Text → Bool = λ name. bytes_eq varname name in
    pick-IsValue (test account_name) s.account_id _ v
      (pick-IsValue (test purpose_name) s.purpose _ v (
        pick-IsValue (test coin_type_name) (some s.coin_type) _ v (
          pick-IsValue (test script_type_name) (some (if s.nested then 1 else 2)) _ v (
            pick-IsValue (test cosigner_index_name) s.cosigner_id _ v (
              pick-IsValue (test change_name) s.change _ v
                (pick-IsValue (test address_index_name) s.address_index none v no_value))))))
      (rw n at h)
  where
    no_value : {v : Text} → none ≡ some v → IsValue v
    no_value h = cc

-- A number is no variable, no master key, and is not marked.
digit_front :
    (c : ℕ) (cs name : Text) (d : ℕ)
    → is_decimal c ≡ true
    → 58 ≤ d
    → bytes_eq (c ∷ cs) (d ∷ name) ≡ false
digit_front c cs name d h k = ground arith

pub isdigit-default_of : (s : Settings) (v : Text) → isdigit v ≡ true → default_of s v ≡ none
unfolding default_of
isdigit-default_of s [] h = cc
isdigit-default_of s (c ∷ cs) h =
    let first : is_decimal c ≡ true = ground arith in
    let no : (name : Text) (d : ℕ) → 58 ≤ d → bytes_eq (c ∷ cs) (d ∷ name) ≡ false =
      λ name d k. digit_front c cs name d first k in
    rw
      (
        no _ 110 (omega arith),
        no _ 97 (omega arith),
        no _ 112 (omega arith),
        no _ 99 (omega arith),
        no _ 115 (omega arith),
        no _ 99 (omega arith),
        no _ 99 (omega arith),
        no _ 97 (omega arith),
      )
      refl

pub isdigit-is_master : (v : Text) → isdigit v ≡ true → is_master v ≡ false
isdigit-is_master [] h = cc
isdigit-is_master (c ∷ cs) h = ground arith

all_decimal-is_marked :
    (v : Text) → all_decimal v ≡ true → (ends_with_quote v ≡ false) × (last_is_mark v ≡ false)
all_decimal-is_marked [] h = (refl, refl)
all_decimal-is_marked (c ∷ []) h = ground arith
all_decimal-is_marked (c ∷ d ∷ cs) h = all_decimal-is_marked (d ∷ cs) (ground arith)

isdigit-all_decimal : (v : Text) → isdigit v ≡ true → all_decimal v ≡ true
isdigit-all_decimal [] h = refl
isdigit-all_decimal (c ∷ cs) h = h

pub isdigit-is_marked : (v : Text) → isdigit v ≡ true → is_marked v ≡ false
isdigit-is_marked v h =
    let k = all_decimal-is_marked v (isdigit-all_decimal v h) in rw (k.0, k.1) refl
