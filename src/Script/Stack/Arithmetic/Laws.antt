-- ===== src/Script/Stack/Arithmetic/Laws.antt =====
-- The arithmetic operations on encoded numbers compute with the numbers themselves.
use bitcoinlib.Common.{
  ℕ, ◌^◌, ◌≤◌, ◌<◌, ◌≡◌, refl, sym, ap, ◌∙◌, List, [], ◌∷◌, Bool, true, false, ◌&&◌, not, ok, arith,
  length, ltb, le→ltb, All, take, map, ◌||◌, bytes_eq, bytes_eq→eq, bytes_eq_refl, Bool-cases, inl,
  inr, if◌then◌else◌,
}
use bitcoinlib.Common.Integer.{
  ℤ, pos, ◌+ℤ◌, ◌-ℤ◌, magnitude, ltb_ℤ, leb_ℤ, int_eq, int_eq_refl, int_eq→eq, eq_of_parts,
}
use bitcoinlib.Script.Num.{encode_num, decode_num}
use bitcoinlib.Script.Num.Laws.{decode_num-encode_num, length-encode_num}
use bitcoinlib.Script.Stack.{Bytes, Stack, Method, ◌>>=◌, truth}
use bitcoinlib.Script.Stack.Arithmetic.{
  all_short, is_arithmetic, when_arithmetic, unary, binary, binary_bytes, op_1add, op_1sub,
  op_negate, op_abs, op_add, op_sub, op_min, op_max, op_numequal, op_numnotequal, op_booland,
  op_boolor,
}

-- Numbers of at most 31 bits beside the sign fill at most four bytes.
abbrev pub IsOperand : ℤ → Type 0
IsOperand z = magnitude z < 2 ^ 31

operand-short : (z : ℤ) → IsOperand z → length (encode_num z) ≤ 4
operand-short z h = length-encode_num z 3 h

smaller :
    (a b : ℤ)
    → (if ltb_ℤ a b then encode_num a else encode_num b) ≡ encode_num (if leb_ℤ a b then a else b)
smaller a b = ground (arith, eq_of_parts a b)

larger :
    (a b : ℤ)
    → (if ltb_ℤ b a then encode_num a else encode_num b) ≡ encode_num (if leb_ℤ a b then b else a)
larger a b = ground arith

-- Encodings are equal where the numbers are.
bytes_eq-encode_num : (a b : ℤ) → bytes_eq (encode_num a) (encode_num b) ≡ int_eq a b
bytes_eq-encode_num a b = elim (Bool-cases (bytes_eq (encode_num a) (encode_num b))) [
  | inl e ↦ e ∙ sym (rw (same (bytes_eq→eq _ _ e)) (int_eq_refl b))
  | inr e ↦ elim (Bool-cases (int_eq a b)) [
    | inl f ↦ cc (bytes_eq_refl (encode_num b), int_eq→eq a b f)
    | inr f ↦ e ∙ sym f
  ]
]
  where
    same : encode_num a ≡ encode_num b → a ≡ b
    same h = sym (decode_num-encode_num a) ∙ ap decode_num h ∙ decode_num-encode_num b

encode_num-zero : (a : ℤ) → bytes_eq (encode_num a) [] ≡ int_eq a (pos 0)
encode_num-zero a = rw (← zero_bytes) (bytes_eq-encode_num a (pos 0))
  where
    zero_bytes : encode_num (pos 0) ≡ []
    zero_bytes = unfold encode_num in refl

-- With enough short operands, the body runs.
when_arithmetic_passes :
    (items : ℕ) (body : Method (Unit {0})) (s t : Stack)
    → items ≤ length s
    → all_short (take items s) ≡ true
    → body s ≡ ok (tt, t)
    → when_arithmetic items body s ≡ ok (true, t)
unfolding when_arithmetic
when_arithmetic_passes items body s t enough short done =
    rw (enough_test, short, done, ◌>>=◌, is_arithmetic, when_arithmetic)
  where
    enough_test : ltb (length s) items ≡ false
    enough_test = le→ltb (length s) items enough

all_short_operands : (zs : List ℤ) → All IsOperand zs → all_short (map encode_num zs) ≡ true
unfolding all_short
all_short_operands [] h = refl
all_short_operands (z ∷ zs) h = ground (arith, operand-short z h.0, all_short_operands zs h.1)

module _ (s : Stack) where
  unary_lem :
      (f : ℤ → Bytes) (a : ℤ) → IsOperand a → unary f (encode_num a ∷ s) ≡ ok (true, f a ∷ s)
  unfolding unary
  unary_lem f a ha =
      when_arithmetic_passes 1 _ (encode_num a ∷ s) (f a ∷ s) (omega arith)
        (all_short_operands (a ∷ []) (ha, tt)) (rw (decode_num-encode_num a))

  binary_lem :
      (f : ℤ → ℤ → Bytes) (a b : ℤ)
      → IsOperand a
      → IsOperand b
      → binary f (encode_num a ∷ encode_num b ∷ s) ≡ ok (true, f a b ∷ s)
  unfolding binary
  binary_lem f a b ha hb =
      when_arithmetic_passes 2 _ (encode_num a ∷ encode_num b ∷ s) (f a b ∷ s) (omega arith)
        (all_short_operands (a ∷ b ∷ []) (ha, (hb, tt)))
        (rw (decode_num-encode_num a, decode_num-encode_num b))

  binary_bytes_lem :
      (f : Bytes → Bytes → Bool) (a b : ℤ)
      → IsOperand a
      → IsOperand b
      → binary_bytes f (encode_num a ∷ encode_num b ∷ s)
        ≡ ok (true, truth (f (encode_num a) (encode_num b)) ∷ s)
  unfolding binary_bytes
  binary_bytes_lem f a b ha hb =
      when_arithmetic_passes 2 _ (encode_num a ∷ encode_num b ∷ s)
        (truth (f (encode_num a) (encode_num b)) ∷ s) (omega arith)
        (all_short_operands (a ∷ b ∷ []) (ha, (hb, tt))) refl

  -- On two operands below 2 ^ 31 in magnitude, with a on top, the operations push the encodings of
  -- a + b, of a - b, of the smaller and of the larger number.
  pub op_add_sub_min_max :
      (a b : ℤ)
      → IsOperand a
      → IsOperand b
      → (op_add (encode_num a ∷ encode_num b ∷ s) ≡ ok (true, encode_num (a +ℤ b) ∷ s))
        × (op_sub (encode_num a ∷ encode_num b ∷ s) ≡ ok (true, encode_num (a -ℤ b) ∷ s))
        × (op_min (encode_num a ∷ encode_num b ∷ s)
            ≡ ok (true, encode_num (if leb_ℤ a b then a else b) ∷ s))
        × (op_max (encode_num a ∷ encode_num b ∷ s)
            ≡ ok (true, encode_num (if leb_ℤ a b then b else a) ∷ s))
  unfolding op_add op_sub op_min op_max
  op_add_sub_min_max a b ha hb = (
    binary_lem (λ x y. encode_num (x +ℤ y)) a b ha hb,
    binary_lem (λ x y. encode_num (x -ℤ y)) a b ha hb,
    binary_lem (λ x y. if ltb_ℤ x y then encode_num x else encode_num y) a b ha hb
        ∙ ap (λ t. ok (true, t ∷ s)) (smaller a b),
    binary_lem (λ x y. if ltb_ℤ y x then encode_num x else encode_num y) a b ha hb
        ∙ ap (λ t. ok (true, t ∷ s)) (larger a b),
  )

  -- On one operand below 2 ^ 31 in magnitude the operations push the encodings of a + 1, a - 1, -a
  -- and |a|.
  pub op_unary_numbers :
      (a : ℤ)
      → IsOperand a
      → (op_1add (encode_num a ∷ s) ≡ ok (true, encode_num (a +ℤ pos 1) ∷ s))
        × (op_1sub (encode_num a ∷ s) ≡ ok (true, encode_num (a -ℤ pos 1) ∷ s))
        × (op_negate (encode_num a ∷ s) ≡ ok (true, encode_num (pos 0 -ℤ a) ∷ s))
        × (op_abs (encode_num a ∷ s) ≡ ok (true, encode_num (pos (magnitude a)) ∷ s))
  unfolding op_1add op_1sub op_negate op_abs
  op_unary_numbers a ha = (
    unary_lem (λ x. encode_num (x +ℤ pos 1)) a ha,
    unary_lem (λ x. encode_num (x -ℤ pos 1)) a ha,
    unary_lem (λ x. encode_num (pos 0 -ℤ x)) a ha,
    unary_lem (λ x. encode_num (pos (magnitude x))) a ha,
  )

  -- On two operands below 2 ^ 31 in magnitude the equality tests push whether the numbers are
  -- equal, and the Boolean operations whether they are nonzero.
  pub op_tests :
      (a b : ℤ)
      → IsOperand a
      → IsOperand b
      → (op_numequal (encode_num a ∷ encode_num b ∷ s) ≡ ok (true, truth (int_eq a b) ∷ s))
        × (op_numnotequal (encode_num a ∷ encode_num b ∷ s)
            ≡ ok (true, truth (not (int_eq a b)) ∷ s))
        × (op_booland (encode_num a ∷ encode_num b ∷ s)
            ≡ ok (true, truth (not (int_eq a (pos 0)) && not (int_eq b (pos 0))) ∷ s))
        × (op_boolor (encode_num a ∷ encode_num b ∷ s)
            ≡ ok (true, truth (not (int_eq a (pos 0)) || not (int_eq b (pos 0))) ∷ s))
  unfolding op_numequal op_numnotequal op_booland op_boolor
  op_tests a b ha hb = (
    binary_bytes_lem (λ x y. bytes_eq x y) a b ha hb ∙ rw (bytes_eq-encode_num a b),
    binary_bytes_lem (λ x y. not (bytes_eq x y)) a b ha hb ∙ rw (bytes_eq-encode_num a b),
    binary_bytes_lem (λ x y. not (bytes_eq x []) && not (bytes_eq y [])) a b ha hb
        ∙ rw (encode_num-zero a, encode_num-zero b),
    binary_bytes_lem (λ x y. not (bytes_eq x []) || not (bytes_eq y [])) a b ha hb
        ∙ rw (encode_num-zero a, encode_num-zero b),
  )
