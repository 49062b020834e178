-- ===== src/Script/Template.antt =====
-- bitcoinlib/scripts.py, `_get_script_types` and `get_data_type`: the names of the templates of
-- bitcoinlib/config/config.py, `SCRIPT_TYPES`, that a parsed script is made of.
pub mod Matches
pub mod Covers
mod Tests
use Prim.Native.String.{String}
use text.Mathlib.Text.{◌==◌ as str_eq}
use bitcoinlib.Common.{
  ℕ, zero, suc, ◌+◌, List, [], ◌∷◌, ◌++◌, reverse, Bool, true, false, not, ◌&&◌, ◌||◌, Option, none,
  some, Result, ok, err, index_error, ◌>>=◌, leb, ◌==◌, if◌then◌else◌, length, take, drop,
}

-- An element of a template: an opcode or a word.
pub data Token : Type 0 where
  code : ℕ → Token
  word : String → Token

-- The words of a blueprint that have no length, which `get_data_type` gives, and those of the
-- templates for locktimes.
pub data Word : Type 0 where
  key : Word
  signature : Word
  key_object : Word
  signature_object : Word
  redeemscript : Word
  other : Word
  locktime_cltv : Word
  locktime_csv : Word

abbrev pub word_text : Word → String
word_text key = "key"
word_text signature = "signature"
word_text key_object = "key_object"
word_text signature_object = "signature_object"
word_text redeemscript = "redeemscript"
word_text other = "other"
word_text locktime_cltv = "locktime_cltv"
word_text locktime_csv = "locktime_csv"

-- An element of a blueprint: an opcode, `data-` with a length, another word, or a list.
pub data Item : Type 0 where
  opcode : ℕ → Item
  sized : ℕ → Item
  named : Word → Item
  nested : Item

pub record ScriptTemplate : Type 0 where
  pub name : String
  pub is_locking : Bool
  pub commands : List Token
  pub data_lengths : List ℕ

abbrev pub template : String → Bool → List Token → List ℕ → ScriptTemplate
template name is_locking commands data_lengths = record {
  name = name;
  is_locking = is_locking;
  commands = commands;
  data_lengths = data_lengths;
}

unfoldable pub script_types : List ScriptTemplate
script_types =
    template "p2pkh" true (code 118 ∷ code 169 ∷ word "data" ∷ code 136 ∷ code 172 ∷ []) (20 ∷ [])
    ∷ template "p2pkh_drop" true
        (word "data" ∷ code 117 ∷ code 118 ∷ code 169 ∷ word "data" ∷ code 136 ∷ code 172 ∷ [])
        (32 ∷ 20 ∷ [])
    ∷ template "p2sh" true (code 169 ∷ word "data" ∷ code 135 ∷ []) (20 ∷ [])
    ∷ template "p2wpkh" true (code 0 ∷ word "data" ∷ []) (20 ∷ [])
    ∷ template "p2wsh" true (code 0 ∷ word "data" ∷ []) (32 ∷ [])
    ∷ template "p2tr" true (word "op_n" ∷ word "data" ∷ []) (32 ∷ [])
    ∷ template "multisig" true (word "op_n" ∷ word "key" ∷ word "op_n" ∷ code 174 ∷ []) []
    ∷ template "p2pk" true (word "key" ∷ code 172 ∷ []) []
    ∷ template "locktime_cltv_script" true
        (word "locktime_cltv"
          ∷ code 177
          ∷ code 117
          ∷ code 118
          ∷ code 169
          ∷ word "data"
          ∷ code 136
          ∷ code 172
          ∷ [])
        (20 ∷ [])
    ∷ template "nulldata" true (code 106 ∷ word "data" ∷ []) (0 ∷ [])
    ∷ template "nulldata_1" true (code 106 ∷ code 0 ∷ []) []
    ∷ template "nulldata_2" true (code 106 ∷ []) []
    ∷ template "sig_pubkey" false (word "signature" ∷ word "key" ∷ []) []
    ∷ template "p2sh_multisig" false (code 0 ∷ word "signature" ∷ word "redeemscript" ∷ []) []
    ∷ template "multisig_redeemscript" false
        (word "op_n" ∷ word "key" ∷ word "op_n" ∷ code 174 ∷ []) []
    ∷ template "p2tr_unlock" false (word "data" ∷ []) (64 ∷ [])
    ∷ template "p2sh_multisig_2?" false
        (code 0 ∷ word "signature" ∷ code 105 ∷ word "redeemscript" ∷ []) []
    ∷ template "p2sh_multisig_3?" false
        (code 0 ∷ word "signature" ∷ code 139 ∷ word "redeemscript" ∷ []) []
    ∷ template "p2sh_p2wpkh" false (code 0 ∷ word "data" ∷ []) (20 ∷ [])
    ∷ template "p2sh_p2wsh" false (code 0 ∷ word "data" ∷ []) (32 ∷ [])
    ∷ template "signature" false (word "signature" ∷ []) []
    ∷ template "signature_multisig" false (code 0 ∷ word "signature" ∷ []) []
    ∷ template "locktime_cltv" false (word "locktime_cltv" ∷ code 177 ∷ code 117 ∷ []) []
    ∷ template "locktime_csv" false (word "locktime_csv" ∷ code 178 ∷ code 117 ∷ []) []
    ∷ template "nonstandard_0001" false (code 0 ∷ []) []
    ∷ []

abbrev pub token_eq : Token → Token → Bool
token_eq (code m) (code n) = m == n
token_eq (code m) (word w) = false
token_eq (word v) (code n) = false
token_eq (word v) (word w) = str_eq v w

abbrev pub tokens_eq : List Token → List Token → Bool
tokens_eq [] [] = true
tokens_eq [] (u ∷ us) = false
tokens_eq (t ∷ ts) [] = false
tokens_eq (t ∷ ts) (u ∷ us) = token_eq t u && tokens_eq ts us

-- `len(bp) and bp[-1] == word`, on the blueprint with its last element first.
abbrev pub ends_with : String → List Token → Bool
ends_with w [] = false
ends_with w (code n ∷ ts) = false
ends_with w (word v ∷ ts) = str_eq v w

-- One element in generic form, behind the last one.
unfoldable pub add_item : List Token → Item → List Token
add_item bp (sized n) = word "data" ∷ bp
add_item bp (opcode n) = if leb 81 n && leb n 96 then word "op_n" ∷ bp else code n ∷ bp
add_item bp nested = word "redeemscript" ∷ bp
add_item bp (named w) =
    let text = word_text w in
    if (str_eq text "key" && ends_with "key" bp)
      || (str_eq text "signature" && ends_with "signature" bp)
    then bp
    else word text ∷ bp

unfoldable pub add_items : List Token → List Item → List Token
unfolding add_item
add_items bp [] = bp
add_items bp (item ∷ items) = add_items (add_item bp item) items

unfoldable pub generic : List Item → List Token
unfolding add_items
generic blueprint = reverse (add_items [] blueprint)

-- `bp_len`
unfoldable pub data_sizes : List Item → List ℕ
data_sizes [] = []
data_sizes (sized n ∷ items) = n ∷ data_sizes items
data_sizes (opcode n ∷ items) = data_sizes items
data_sizes (named w ∷ items) = data_sizes items
data_sizes (nested ∷ items) = data_sizes items

-- `values[0] in locktype`
abbrev pub is_allowed : Option Bool → Bool → Bool
is_allowed none locking = true
is_allowed (some true) locking = locking
is_allowed (some false) locking = not locking

-- The templates of the table that pass a test.
unfoldable pub templates : (ScriptTemplate → Bool) → List ScriptTemplate → List ScriptTemplate
templates test [] = []
templates test (t ∷ ts) = if test t then t ∷ templates test ts else templates test ts

abbrev pub is_whole : Option Bool → List Token → ScriptTemplate → Bool
is_whole locktype bp t = tokens_eq t.commands bp && is_allowed locktype t.is_locking

abbrev pub is_front : Option Bool → List Token → ScriptTemplate → Bool
is_front locktype bp t =
    tokens_eq t.commands (take (length t.commands) bp) && is_allowed locktype t.is_locking

-- Whether one of the data lengths of a template fits.
unfoldable pub length_fits : List ℕ → List ℕ → Result Bool
length_fits [] bp_len = ok false
length_fits (data_len ∷ data_lens) [] = err index_error
length_fits (data_len ∷ data_lens) (bl ∷ bp_len) =
    let rest = length_fits data_lens bp_len in
    if (data_len == bl) || (data_len == 0) then ok true else rest

-- The last match whose data lengths fit, or the one that was chosen before.
unfoldable pub choose : List ℕ → ScriptTemplate → List ScriptTemplate → Result ScriptTemplate
unfolding length_fits
choose bp_len chosen [] = ok chosen
choose bp_len chosen (t ∷ ts) = do
  fits ← length_fits t.data_lengths bp_len
  choose bp_len (if fits then t else chosen) ts

abbrev pub is_multisig_name : String → Bool
is_multisig_name name = str_eq name "multisig" || str_eq name "multisig_redeemscript"

-- The name of the chosen template on the list of types, which has its last element first.
unfoldable pub add_type : String → List String → List String
add_type name [] = name ∷ []
add_type name (last ∷ types) =
    if is_multisig_name name && str_eq last "signature_multisig"
    then "p2sh_multisig" ∷ types
    else name ∷ last ∷ types

-- The loop over the blueprint; `none` where the fuel ran out.
unfoldable pub split_types :
    ℕ → Option Bool → List ℕ → List String → List Token → Option (Result (List String))
unfolding templates choose add_type script_types
split_types fuel locktype bp_len types [] = some (ok types)
split_types zero locktype bp_len types (t ∷ bp) = none
split_types (suc fuel) locktype bp_len types (t ∷ bp) =
    elim (templates (is_front locktype (t ∷ bp)) script_types) [
      | [] ↦ some (ok ("unknown" ∷ types))
      | m ∷ ms ↦ elim (choose bp_len m (m ∷ ms)) [
        | err e ↦ some (err e)
        | ok c ↦
            split_types fuel locktype bp_len (add_type c.name types)
              (drop (length c.commands) (t ∷ bp))
      ]
    ]

-- Each template takes one element at least, so the number of elements is fuel enough.
unfoldable pub split_blueprint : Option Bool → List Item → Option (Result (List String))
unfolding split_types generic data_sizes
split_blueprint locktype blueprint =
    elim (split_types (length (generic blueprint)) locktype (data_sizes blueprint) []
      (generic blueprint)) [
        | none ↦ none
        | some (err e) ↦ some (err e)
        | some (ok types) ↦ some (ok (reverse types))
      ]

unfoldable pub get_script_types : Option Bool → List Item → Option (Result (List String))
unfolding templates script_types generic split_blueprint
get_script_types locktype blueprint =
    elim (templates (is_whole locktype (generic blueprint)) script_types) [
      | t ∷ [] ↦ some (ok (t.name ∷ []))
      | [] ↦ split_blueprint locktype blueprint
      | t ∷ u ∷ ts ↦ split_blueprint locktype blueprint
    ]

-- `get_data_type` of a byte string: `other` for what it does not recognise.
unfoldable pub get_data_type : List ℕ → Item
get_data_type data_ =
    let n = length data_ in
    let first : ℕ → Bool = λ b. begins data_ b in
    if first 0x30 && leb 69 n && leb n 74
    then named signature
    else if ((first 2 || first 3) && (n == 33)) || (first 4 && (n == 65))
    then named key
    else if (n == 20) || (n == 32) || (n == 64) || (leb 1 n && leb n 4)
    then sized n
    else named other
  where
    begins : List ℕ → ℕ → Bool
    begins [] b = false
    begins (c ∷ cs) b = c == b
