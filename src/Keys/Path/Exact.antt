-- ===== src/Keys/Path/Exact.antt =====
-- The paths that `path_expand` of bitcoinlib/keys.py returns.
use bitcoinlib.Common.{
  ℕ, ◌≡◌, List, [], ◌∷◌, Bool, true, false, ◌||◌, some, bytes_eq, if◌then◌else◌,
}
use bitcoinlib.Keys.Path.{Text, none_text, master, hardened_text, str, isdigit}

-- An item of decimal digits.
abbrev pub IsNumber : Text → Type 0
IsNumber v = isdigit v ≡ true

-- The item for the script type.
abbrev pub script_type_text : Bool → Text
script_type_text nested = hardened_text (str (some (if nested then 1 else 2)))

-- The front of an expanded path: the master key and the hardened purpose, coin type and account.
abbrev pub account_path : ℕ → ℕ → ℕ → List Text
account_path purpose coin_type account =
    master
    ∷ hardened_text (str (some purpose))
    ∷ hardened_text (str (some coin_type))
    ∷ hardened_text (str (some account))
    ∷ []

abbrev IsClean : Text → Type 0
IsClean v = bytes_eq v (hardened_text none_text) || bytes_eq v none_text ≡ false
