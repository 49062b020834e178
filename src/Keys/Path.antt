-- ===== src/Keys/Path.antt =====
-- bitcoinlib/keys.py, `path_expand`, with the key structures of bitcoinlib/main.py,
-- `get_key_structure_data`, and bitcoinlib/wallets.py, `normalize_path`. An item of a path is its text:
-- a list of character codes.
pub mod Digits
pub mod Items
pub mod Expanded
pub mod Exact
mod Tests
use bitcoinlib.Common.{
  ℕ, zero, suc, ◌+◌, ◌-◌, ◌/◌, ◌%◌, List, [], ◌∷◌, ◌++◌, reverse, Bool, true, false, not, ◌&&◌,
  ◌||◌, Option, none, some, Result, ok, err, bkey_error, index_error, wallet_error, ◌>>=◌, ◌>>◌,
  guard, ltb, leb, ◌==◌, if◌then◌else◌, length, take, bytes_eq,
}
use bitcoinlib.Common.Integer.{ℤ, pos, negsuc}
use bitcoinlib.Transaction.{WitnessType, legacy, segwit, p2sh_segwit}
use bitcoinlib.Keys.Derivation.Text.{last_is_mark, but_last}

abbrev pub Text : Type 0
Text = List ℕ

-- The names of the variables of a path, and `str(None)`.
abbrev pub network_name : Text
network_name = 110 ∷ 101 ∷ 116 ∷ 119 ∷ 111 ∷ 114 ∷ 107 ∷ []

abbrev pub purpose_name : Text
purpose_name = 112 ∷ 117 ∷ 114 ∷ 112 ∷ 111 ∷ 115 ∷ 101 ∷ []

abbrev pub coin_type_name : Text
coin_type_name = 99 ∷ 111 ∷ 105 ∷ 110 ∷ 95 ∷ 116 ∷ 121 ∷ 112 ∷ 101 ∷ []

abbrev pub account_name : Text
account_name = 97 ∷ 99 ∷ 99 ∷ 111 ∷ 117 ∷ 110 ∷ 116 ∷ []

abbrev pub script_type_name : Text
script_type_name = 115 ∷ 99 ∷ 114 ∷ 105 ∷ 112 ∷ 116 ∷ 95 ∷ 116 ∷ 121 ∷ 112 ∷ 101 ∷ []

abbrev pub cosigner_index_name : Text
cosigner_index_name =
    99 ∷ 111 ∷ 115 ∷ 105 ∷ 103 ∷ 110 ∷ 101 ∷ 114 ∷ 95 ∷ 105 ∷ 110 ∷ 100 ∷ 101 ∷ 120 ∷ []

abbrev pub change_name : Text
change_name = 99 ∷ 104 ∷ 97 ∷ 110 ∷ 103 ∷ 101 ∷ []

abbrev pub address_index_name : Text
address_index_name = 97 ∷ 100 ∷ 100 ∷ 114 ∷ 101 ∷ 115 ∷ 115 ∷ 95 ∷ 105 ∷ 110 ∷ 100 ∷ 101 ∷ 120 ∷ []

abbrev pub none_text : Text
none_text = 78 ∷ 111 ∷ 110 ∷ 101 ∷ []

-- `m` and `M`
abbrev pub master : Text
master = 109 ∷ []

abbrev pub public_master : Text
public_master = 77 ∷ []

abbrev pub quote : Text
quote = 39 ∷ []

-- Text that is hardened with a quote.
abbrev pub hardened_text : Text → Text
hardened_text name = name ++ quote

-- The decimal digits of a number below 10 ^ fuel.
unfoldable pub digits_of : ℕ → ℕ → Text
digits_of zero n = []
digits_of (suc fuel) n =
    let front = digits_of fuel (n / 10) in
    if ltb n 10 then (48 + n) ∷ [] else front ++ (48 + n % 10) ∷ []

-- `str` of a number or None
unfoldable pub str : Option ℕ → Text
unfolding digits_of
str none = none_text
str (some n) = digits_of (suc n) n

-- `str.isdigit` on ASCII text
abbrev pub is_decimal : ℕ → Bool
is_decimal c = leb 48 c && leb c 57

abbrev pub all_decimal : Text → Bool
all_decimal [] = true
all_decimal (c ∷ cs) = is_decimal c && all_decimal cs

abbrev pub isdigit : Text → Bool
isdigit [] = false
isdigit (c ∷ cs) = is_decimal c && all_decimal cs

-- What the variables stand for; `none` is None.
pub record Settings : Type 0 where
  pub network : Text
  pub account_id : Option ℕ
  pub purpose : Option ℕ
  pub coin_type : ℕ
  pub cosigner_id : Option ℕ
  pub change : Option ℕ
  pub address_index : Option ℕ
  pub nested : Bool

-- `var_defaults[varname]`, as text; `none` where there is no such variable.
unfoldable pub default_of : Settings → Text → Option Text
unfolding str
default_of s varname =
    if bytes_eq varname network_name
    then some s.network
    else if bytes_eq varname account_name
    then some (str s.account_id)
    else if bytes_eq varname purpose_name
    then some (str s.purpose)
    else if bytes_eq varname coin_type_name
    then some (str (some s.coin_type))
    else if bytes_eq varname script_type_name
    then some (str (some (if s.nested then 1 else 2)))
    else if bytes_eq varname cosigner_index_name
    then some (str s.cosigner_id)
    else if bytes_eq varname change_name
    then some (str s.change)
    else if bytes_eq varname address_index_name
    then some (str s.address_index)
    else none

-- `pi in "mM"`, which is true of the empty text as well.
abbrev pub is_master : Text → Bool
is_master item =
    bytes_eq item []
    || bytes_eq item master
    || bytes_eq item public_master
    || bytes_eq item (109 ∷ 77 ∷ [])

abbrev pub ends_with_quote : Text → Bool
ends_with_quote [] = false
ends_with_quote (c ∷ []) = c == 39
ends_with_quote (c ∷ d ∷ cs) = ends_with_quote (d ∷ cs)

-- Whether an item is marked as hardened: by a quote, or by a letter behind digits.
abbrev pub is_marked : Text → Bool
is_marked item = ends_with_quote item || (last_is_mark item && isdigit (but_last item))

abbrev pub varname_of : Text → Text
varname_of item = if is_marked item then but_last item else item

-- `new_varname`, or the exception for a name that is neither a number nor a variable with a value.
unfoldable pub value_of : Settings → Text → Option Text → Result Text
value_of s varname none = do guard (isdigit varname) bkey_error; ok varname
value_of s varname (some value) =
    let missing = bytes_eq varname address_index_name in
    if bytes_eq value varname && not (isdigit value)
    then err bkey_error
    else elim (s.address_index) [
      | none ↦ if missing then err bkey_error else ok value
      | some n ↦ ok value
    ]

-- One item of the path, below an item of the template.
unfoldable pub expand_item : Settings → Text → Text → Result Text
unfolding default_of value_of
expand_item s above item =
    if is_master item
    then ok item
    else (value_of s (varname_of item) (default_of s (varname_of item)) >>= λ value.
        ok (if is_marked item || ends_with_quote above then hardened_text value else value))

unfoldable pub expand_items : Settings → List Text → List Text → Result (List Text)
unfolding expand_item
expand_items s template [] = ok []
expand_items s [] (item ∷ items) = err index_error
expand_items s (above ∷ template) (item ∷ items) = do
  new ← expand_item s above item
  rest ← expand_items s template items
  ok (new ∷ rest)

-- The loop from the end of the path: where the path has no item left, the template's is taken.
unfoldable pub fill : List Text → List Text → List Text
fill [] path = []
fill (item ∷ template) [] = item ∷ fill template []
fill (item ∷ template) (p ∷ path) = p ∷ fill template path

-- `template[:level_offset]`, where 0 stands for None as well.
unfoldable pub cut_template : ℤ → List Text → List Text
cut_template (pos zero) template = template
cut_template (pos (suc n)) template = take (suc n) template
cut_template (negsuc n) template = take (length template - suc n) template

abbrev pub starts_at_master : List Text → Bool
starts_at_master [] = false
starts_at_master (item ∷ path) = bytes_eq item master || bytes_eq item public_master

unfoldable pub complete_path : ℤ → List Text → List Text → List Text
unfolding fill cut_template
complete_path level_offset template path =
    if starts_at_master path
    then path
    else reverse (fill (reverse (cut_template level_offset template)) (reverse path))

-- `"None'" in npath or "None" in npath`
abbrev pub has_none : List Text → Bool
has_none [] = false
has_none (item ∷ path) =
    bytes_eq item (hardened_text none_text) || bytes_eq item none_text || has_none path

unfoldable pub path_expand : Settings → List Text → ℤ → List Text → Result (List Text)
unfolding complete_path expand_items
path_expand s template level_offset path = do
  guard (leb (length path) (length template)) bkey_error
  npath ← expand_items s template (complete_path level_offset template path)
  guard (not (has_none npath)) bkey_error
  ok npath

abbrev pub single_path : List Text
single_path =
    master
    ∷ hardened_text purpose_name
    ∷ hardened_text coin_type_name
    ∷ hardened_text account_name
    ∷ change_name
    ∷ address_index_name
    ∷ []

abbrev pub nested_multisig_path : List Text
nested_multisig_path =
    master
    ∷ hardened_text purpose_name
    ∷ hardened_text coin_type_name
    ∷ hardened_text account_name
    ∷ hardened_text script_type_name
    ∷ change_name
    ∷ address_index_name
    ∷ []

-- The key path and the purpose of the structures that a wallet may have.
unfoldable pub get_key_structure_data : WitnessType → Bool → List Text × ℕ
get_key_structure_data legacy false = (single_path, 44)
get_key_structure_data legacy true = (
  master ∷ hardened_text purpose_name ∷ cosigner_index_name ∷ change_name ∷ address_index_name ∷ [],
  45,
)
get_key_structure_data p2sh_segwit false = (single_path, 49)
get_key_structure_data segwit false = (single_path, 84)
get_key_structure_data p2sh_segwit true = (nested_multisig_path, 48)
get_key_structure_data segwit true = (nested_multisig_path, 48)

-- `path.split("/")` is the argument, and the result is joined by "/" in the source.
unfoldable pub normalize_path : List Text → Result (List Text)
normalize_path [] = ok []
normalize_path ([] ∷ levels) = err wallet_error
normalize_path ((c ∷ cs) ∷ levels) =
    let level = c ∷ cs in
    let nlevel = if last_is_mark level then hardened_text (but_last level) else level in
    normalize_path levels >>= λ rest. ok (nlevel ∷ rest)
