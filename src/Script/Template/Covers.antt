-- ===== src/Script/Template/Covers.antt =====
-- What `_get_script_types` of bitcoinlib/scripts.py returns: the templates that make up the script, and
-- how they are chosen.
use Prim.Native.String.{String}
use text.Mathlib.Text.{◌==◌ as str_eq}
use bitcoinlib.Common.{
  ℕ, ◌≡◌, ◌⊎◌, List, [], ◌∷◌, ◌++◌, reverse, Bool, true, false, ◌&&◌, Option, ok,
}
use bitcoinlib.Script.Template.{
  Token, Item, ScriptTemplate, script_types, generic, data_sizes, is_whole, is_front, templates,
  is_multisig_name, length_fits, is_allowed,
}
use bitcoinlib.Script.Template.Matches.{Among, Passes}

-- A template of the table for the side that is asked for.
abbrev pub IsAllowed : Option Bool → ScriptTemplate → Type 0
IsAllowed locktype t = Among t script_types × (is_allowed locktype t.is_locking ≡ true)

-- A property of the allowed templates whose commands stand at the front of what is left.
abbrev pub AllAtFront : Option Bool → List Token → (ScriptTemplate → Type 0) → Type 0
AllAtFront locktype left P =
    (u : ScriptTemplate) (behind : List Token)
    → IsAllowed locktype u
    → left ≡ u.commands ++ behind
    → P u

-- A template is taken whose data lengths fit, unless there is none at the front.
abbrev pub IsChoice : Option Bool → List ℕ → List Token → ScriptTemplate → Type 0
IsChoice locktype sizes left t =
    (length_fits t.data_lengths sizes ≡ ok true)
    ⊎ AllAtFront locktype left (λ u. length_fits u.data_lengths sizes ≡ ok false)

-- Whether a name is joined with the last one to p2sh_multisig.
abbrev pub joins : String → List String → Bool
joins name [] = false
joins name (last ∷ types) = is_multisig_name name && str_eq last "signature_multisig"

-- The names of the templates, the last one first, that are taken from the front of a blueprint, and
-- what is left of it. A script of the type signature_multisig with a multisig script behind it is
-- named p2sh_multisig. Where no allowed template stands at the front, the rest is named unknown.
pub data Covers (locktype : Option Bool) (sizes : List ℕ) (blueprint : List Token)
    : List String → List Token → Type 0 where
  nothing : Covers locktype sizes blueprint [] blueprint
  next :
      (t : ScriptTemplate) {types : List String} {left : List Token}
      → IsAllowed locktype t
      → IsChoice locktype sizes (t.commands ++ left) t
      → joins t.name types ≡ false
      → Covers locktype sizes blueprint types (t.commands ++ left)
      → Covers locktype sizes blueprint (t.name ∷ types) left
  joined :
      (t : ScriptTemplate) {types : List String} {left : List Token}
      → IsAllowed locktype t
      → IsChoice locktype sizes (t.commands ++ left) t
      → is_multisig_name t.name ≡ true
      → Covers locktype sizes blueprint ("signature_multisig" ∷ types) (t.commands ++ left)
      → Covers locktype sizes blueprint ("p2sh_multisig" ∷ types) left
  rest :
      (t : Token) {types : List String} {left : List Token}
      → AllAtFront locktype (t ∷ left) (λ u. ⊥)
      → Covers locktype sizes blueprint types (t ∷ left)
      → Covers locktype sizes blueprint ("unknown" ∷ types) []

-- The allowed templates whose commands are the whole blueprint.
abbrev pub whole_matches : Option Bool → List Item → List ScriptTemplate
whole_matches locktype blueprint = templates (is_whole locktype (generic blueprint)) script_types

-- The types of a script: the only template for all of it, or else those that cover it.
pub data AreTypes (locktype : Option Bool) (blueprint : List Item) : List String → Type 0 where
  alone :
      (t : ScriptTemplate)
      → IsAllowed locktype t
      → t.commands ≡ generic blueprint
      → whole_matches locktype blueprint ≡ t ∷ []
      → AreTypes locktype blueprint (t.name ∷ [])
  several :
      {types : List String}
      → ((t : ScriptTemplate) → whole_matches locktype blueprint ≡ t ∷ [] → ⊥)
      → Covers locktype (data_sizes blueprint) (generic blueprint) types []
      → AreTypes locktype blueprint (reverse types)

module _ (locktype : Option Bool) (bp_len : List ℕ) where
  Match : List Token → ScriptTemplate → Type 0
  Match bp t = Passes (is_front locktype bp) script_types t
