-- ===== src/Keys/Path/Items.antt =====
-- The items that `path_expand` of bitcoinlib/keys.py writes: numbers, which it leaves as they are.
use bitcoinlib.Common.{
  ◌≡◌, refl, sym, ap, ◌∙◌, [], ◌∷◌, Bool, true, false, not, ◌&&◌, ◌||◌, some, ok, err, Exception,
  Bool-cases, Option-cases, inl, inr, arith, bytes_eq, if◌then◌else◌, bind_ok, guard_ok, ok_value,
}
use bitcoinlib.Keys.Derivation.Text.{but_last}
use bitcoinlib.Keys.Path.{
  Text, Settings, network_name, address_index_name, none_text, hardened_text, isdigit, default_of,
  is_master, ends_with_quote, is_marked, varname_of, value_of, expand_item,
}
use bitcoinlib.Keys.Path.Digits.{
  IsValue, default_of-IsValue, isdigit-default_of, isdigit-is_master, isdigit-is_marked,
}

-- A hardened item ends with a quote, and its name stands before it.
hardened-ends_with_quote : (v : Text) → ends_with_quote (hardened_text v) ≡ true
hardened-ends_with_quote [] = refl
hardened-ends_with_quote (c ∷ []) = refl
hardened-ends_with_quote (c ∷ d ∷ cs) = hardened-ends_with_quote (d ∷ cs)

but_last-hardened_text : (v : Text) → but_last (hardened_text v) ≡ v
but_last-hardened_text [] = refl
but_last-hardened_text (c ∷ []) = refl
but_last-hardened_text (c ∷ d ∷ cs) = ap (λ t. c ∷ t) (but_last-hardened_text (d ∷ cs))

hardened-is_master : (v : Text) → isdigit v ≡ true → is_master (hardened_text v) ≡ false
hardened-is_master [] h = cc
hardened-is_master (c ∷ cs) h = ground arith

pub value_of-isdigit :
    (s : Settings) (v : Text) → isdigit v ≡ true → value_of s v (default_of s v) ≡ ok v
unfolding value_of
value_of-isdigit s v h = rw (isdigit-default_of s v h, h) refl

-- An expanded item below its item of the template.
unfoldable pub Settled : Settings → Text → Text → Type 0
Settled s above r = expand_item s above r ≡ ok r

expand-plain :
    (s : Settings) (above v : Text)
    → isdigit v ≡ true
    → ends_with_quote above ≡ false
    → expand_item s above v ≡ ok v
unfolding expand_item
expand-plain s above v h a =
    rw (isdigit-is_master v h, isdigit-is_marked v h, value_of-isdigit s v h, a) refl

expand-hardened :
    (s : Settings) (above v : Text)
    → isdigit v ≡ true
    → expand_item s above (hardened_text v) ≡ ok (hardened_text v)
unfolding expand_item
expand-hardened s above v h =
    rw
      (
        hardened-is_master v h,
        hardened-ends_with_quote v,
        but_last-hardened_text v,
        value_of-isdigit s v h,
      )
      refl

value_of-some :
    (s : Settings) (varname w value : Text) → value_of s varname (some w) ≡ ok value → w ≡ value
unfolding value_of
value_of-some s varname w value h = elim (Bool-cases (bytes_eq w varname && not (isdigit w))) [
  | inl t ↦ absurd (raised (rw (t, value_of) at h))
  | inr f ↦ elim (Option-cases s.address_index) [
    | inl none_given ↦
        chosen (bytes_eq varname address_index_name) _ (rw (f, none_given, value_of) at h)
    | inr (n, given) ↦ ok_value (rw (f, given, value_of) at h)
  ]
]
  where
    raised : {e : Exception} {v : Text} → err e ≡ ok v → ⊥
    raised h = cc

    chosen : (b : Bool) (e : Exception) {v w : Text} → (if b then err e else ok v) ≡ ok w → v ≡ w
    chosen true e h = cc
    chosen false e h = ok_value h

value_of-IsValue :
    (s : Settings) (varname value : Text)
    → bytes_eq varname network_name ≡ false
    → value_of s varname (default_of s varname) ≡ ok value
    → IsValue value
unfolding value_of
value_of-IsValue s varname value n h = elim (Option-cases (default_of s varname)) [
  | inl e ↦
      let (digits, g) = guard_ok (isdigit varname) _ _ value (rw (e, value_of) at h) in
      inl (ap isdigit (sym (ok_value g)) ∙ digits)
  | inr (w, e) ↦
      let same = value_of-some s varname w value (rw e at h) in
      rw (sym same) (default_of-IsValue s varname w n e)
]

second_false : (a b : Bool) → a || b ≡ false → b ≡ false
second_false a b h = ground arith

not_none :
    (hardened : Bool) (value r : Text)
    → value ≡ none_text
    → (if hardened then hardened_text value else value) ≡ r
    → bytes_eq r none_text ≡ false
    → bytes_eq r (hardened_text none_text) ≡ false
    → ⊥
not_none true value r e h p q =
    true_false
      (sym (ap (λ t. bytes_eq t (hardened_text none_text)) (sym h ∙ ap hardened_text e)) ∙ q)
  where
    true_false : true ≡ false → ⊥
    true_false h = cc
not_none false value r e h p q = true_false (sym (ap (λ t. bytes_eq t none_text) (sym h ∙ e)) ∙ p)
  where
    true_false : true ≡ false → ⊥
    true_false h = cc

-- What an item is expanded to stays as it is.
module _ (s : Settings) (above item r : Text) (h : expand_item s above item ≡ ok r) where
  abbrev is_hardened : Bool
  is_hardened = is_marked item || ends_with_quote above

  pub expand_item-Settled :
      bytes_eq (varname_of item) network_name ≡ false
      → bytes_eq r none_text ≡ false
      → bytes_eq r (hardened_text none_text) ≡ false
      → Settled s above r
  unfolding expand_item Settled
  expand_item-Settled n p q = elim (Bool-cases (is_master item)) [
    | inl t ↦ let same : item ≡ r = ok_value (rw (t, expand_item) at h) in rw (sym same) (rw t refl)
    | inr f ↦
        let (value, e, g) = bind_ok _ _ r (rw (f, expand_item) at h) in
        elim (value_of-IsValue s (varname_of item) value n e) [
          | inl digits ↦ elim (Bool-cases is_hardened) [
            | inl t ↦ rw (sym (ok_value (rw t at g))) (expand-hardened s above value digits)
            | inr u ↦
                rw (sym (ok_value (rw u at g)))
                  (expand-plain s above value digits (second_false _ _ u))
          ]
          | inr missing ↦ absurd (not_none is_hardened value r missing (ok_value g) p q)
        ]
  ]
