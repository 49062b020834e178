-- ===== src/Keys/Path/Tests.antt =====
-- Runs of `path_expand` of bitcoinlib/keys.py and `normalize_path` of bitcoinlib/wallets.py.
use bitcoinlib.Common.{
  ◌≡◌, refl, List, [], ◌∷◌, false, none, some, ok, err, bkey_error, wallet_error,
}
use bitcoinlib.Common.Integer.{pos, negsuc}
use bitcoinlib.Transaction.{segwit}
use bitcoinlib.Keys.Path.{
  Text, Settings, master, hardened_text, single_path, path_expand, get_key_structure_data,
  normalize_path,
}

abbrev settings : Settings
settings = record {
  network = 98 ∷ 105 ∷ 116 ∷ [];
  account_id = some 0;
  purpose = some 84;
  coin_type = 0;
  cosigner_id = some 0;
  change = some 0;
  address_index = some 0;
  nested = false;
}

-- "84'"
abbrev eighty_four : Text
eighty_four = hardened_text (56 ∷ 52 ∷ [])

-- "0'", "10", "20" and "0"
abbrev hardened_zero : Text
hardened_zero = hardened_text (48 ∷ [])

abbrev ten : Text
ten = 49 ∷ 48 ∷ []

abbrev twenty : Text
twenty = 50 ∷ 48 ∷ []

abbrev zero_text : Text
zero_text = 48 ∷ []

abbrev whole_path : List Text
whole_path = master ∷ eighty_four ∷ hardened_zero ∷ hardened_zero ∷ ten ∷ twenty ∷ []

template_of_segwit : get_key_structure_data segwit false ≡ (single_path, 84)
unfolding get_key_structure_data
template_of_segwit = refl

expand_two : path_expand settings single_path (pos 0) (ten ∷ twenty ∷ []) ≡ ok whole_path
unfolding path_expand
expand_two = refl

-- A level offset of -2 leaves the last two items out.
expand_account :
    path_expand settings single_path (negsuc 1) []
    ≡ ok (master ∷ eighty_four ∷ hardened_zero ∷ hardened_zero ∷ [])
unfolding path_expand
expand_account = refl

expand_no_address :
    path_expand (record settings { address_index = none }) single_path (pos 0) [] ≡ err bkey_error
unfolding path_expand
expand_no_address = refl

expand_unknown : path_expand settings single_path (pos 0) ((120 ∷ []) ∷ []) ≡ err bkey_error
unfolding path_expand
expand_unknown = refl

normalize_letters :
    normalize_path (master ∷ (52 ∷ 104 ∷ []) ∷ ten ∷ []) ≡ ok (master ∷ (52 ∷ 39 ∷ []) ∷ ten ∷ [])
unfolding normalize_path
normalize_letters = refl

normalize_empty : normalize_path (master ∷ [] ∷ ten ∷ []) ≡ err wallet_error
unfolding normalize_path
normalize_empty = refl
