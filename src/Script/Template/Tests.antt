-- ===== src/Script/Template/Tests.antt =====
-- Runs of `_get_script_types` of bitcoinlib/scripts.py.
use Prim.Native.String.{String}
use bitcoinlib.Common.{◌≡◌, refl, List, [], ◌∷◌, true, none, some, ok, replicate}
use bitcoinlib.Script.Template.{
  Item, opcode, sized, named, key, signature, other, get_script_types, get_data_type,
}

abbrev key_hash_script : List Item
key_hash_script = opcode 118 ∷ opcode 169 ∷ sized 20 ∷ opcode 136 ∷ opcode 172 ∷ []

types_of_key_hash : get_script_types (some true) key_hash_script ≡ some (ok ("p2pkh" ∷ []))
unfolding get_script_types
types_of_key_hash = refl

-- A public key hash and a script hash of a witness differ in the length of the data.
types_of_witness_hash :
    get_script_types (some true) (opcode 0 ∷ sized 32 ∷ []) ≡ some (ok ("p2wsh" ∷ []))
unfolding get_script_types
types_of_witness_hash = refl

types_of_multisig :
    get_script_types none
      (opcode 82 ∷ named key ∷ named key ∷ named key ∷ opcode 83 ∷ opcode 174 ∷ [])
    ≡ some (ok ("multisig" ∷ []))
unfolding get_script_types
types_of_multisig = refl

types_of_multisig_spend :
    get_script_types none
      (opcode 0 ∷ named signature ∷ opcode 82 ∷ named key ∷ opcode 83 ∷ opcode 174 ∷ [])
    ≡ some (ok ("p2sh_multisig" ∷ []))
unfolding get_script_types
types_of_multisig_spend = refl

types_of_other : get_script_types none (named other ∷ []) ≡ some (ok ("unknown" ∷ []))
unfolding get_script_types
types_of_other = refl

data_type_of_key : get_data_type (2 ∷ replicate 32 9) ≡ named key
unfolding get_data_type
data_type_of_key = refl

data_type_of_hash : get_data_type (replicate 20 9) ≡ sized 20
unfolding get_data_type
data_type_of_hash = refl

-- The length of the first data is used for both programs.
types_of_two_programs :
    get_script_types (some true) (opcode 0 ∷ sized 20 ∷ opcode 0 ∷ sized 32 ∷ [])
    ≡ some (ok ("p2wpkh" ∷ "p2wpkh" ∷ []))
unfolding get_script_types
types_of_two_programs = refl
