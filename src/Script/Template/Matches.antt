-- ===== src/Script/Template/Matches.antt =====
-- The templates that `_get_script_types` of bitcoinlib/scripts.py finds at the front of a script.
use text.Mathlib.TextEquality.{eq_iff}
use text.Mathlib.Text.{◌==◌ as str_eq}
use bitcoinlib.Common.{
  ℕ, zero, suc, ◌+◌, ◌≤◌, ◌≡◌, refl, sym, ap, ◌∙◌, ◌⊎◌, List, [], ◌∷◌, ◌++◌, reverse, Bool, true,
  false, ◌&&◌, ◌||◌, ok, Bool-cases, inl, inr, arith, length, take, drop, leb, ◌==◌, ==_iff, All,
  reverse-append, if◌then◌else◌, bind_ok, ok_value,
}
use bitcoinlib.Script.Template.{
  Token, code, word, ScriptTemplate, script_types, token_eq, tokens_eq, templates, length_fits,
  choose,
}

-- A template of the table.
abbrev pub Among : ScriptTemplate → List ScriptTemplate → Type 0
Among t [] = ⊥
Among t (u ∷ us) = (t ≡ u) ⊎ Among t us

token_eq→eq : (t u : Token) → token_eq t u ≡ true → t ≡ u
token_eq→eq (code m) (code n) h = ap code ((==_iff m n).0 h)
token_eq→eq (code m) (word w) h = cc
token_eq→eq (word v) (code n) h = cc
token_eq→eq (word v) (word w) h = ap word ((eq_iff v w).0 h)

pub and_parts : (a b : Bool) → a && b ≡ true → (a ≡ true) × (b ≡ true)
and_parts a b h = ground arith

pub tokens_eq→eq : (ts us : List Token) → tokens_eq ts us ≡ true → ts ≡ us
tokens_eq→eq [] [] h = refl
tokens_eq→eq [] (u ∷ us) h = cc
tokens_eq→eq (t ∷ ts) [] h = cc
tokens_eq→eq (t ∷ ts) (u ∷ us) h =
    let (first, others) = and_parts (token_eq t u) (tokens_eq ts us) h in
    let head = token_eq→eq t u first in
    let tail = tokens_eq→eq ts us others in ap (λ x. x ∷ ts) head ∙ ap (λ xs. u ∷ xs) tail

-- How many data elements there are.
abbrev is_data : Token → Bool
is_data (code n) = false
is_data (word w) = str_eq w "data"

abbrev pub count_data : List Token → ℕ
count_data [] = 0
count_data (t ∷ ts) = (if is_data t then 1 else 0) + count_data ts

-- A template has commands, and no more data lengths than data elements.
abbrev IsSound : ScriptTemplate → Type 0
IsSound t = (1 ≤ length t.commands) × (length t.data_lengths ≤ count_data t.commands)

abbrev sound : List ScriptTemplate → Bool
sound [] = true
sound (t ∷ ts) =
    leb 1 (length t.commands) && leb (length t.data_lengths) (count_data t.commands) && sound ts

leb→le : (a b : ℕ) → leb a b ≡ true → a ≤ b
leb→le a b h = ground arith

three_parts : (a b c : Bool) → a && b && c ≡ true → (a ≡ true) × (b ≡ true) × (c ≡ true)
three_parts a b c h = ground arith

sound-IsSound :
    (ts : List ScriptTemplate) (t : ScriptTemplate) → sound ts ≡ true → Among t ts → IsSound t
sound-IsSound [] t h m = elim m [ ]
sound-IsSound (u ∷ us) t h m =
    let (first, second, others) = three_parts (leb 1 (length u.commands)) _ (sound us) h in
    elim m [
      | inl e ↦ rw e (leb→le _ _ first, leb→le _ _ second)
      | inr later ↦ sound-IsSound us t others later
    ]

pub table-IsSound : (t : ScriptTemplate) → Among t script_types → IsSound t
unfolding script_types
table-IsSound t m = sound-IsSound script_types t refl m

abbrev pub Passes : (ScriptTemplate → Bool) → List ScriptTemplate → ScriptTemplate → Type 0
Passes test ts t = (test t ≡ true) × Among t ts

All-later :
    (test : ScriptTemplate → Bool) (u : ScriptTemplate) (us ts : List ScriptTemplate)
    → All (Passes test us) ts
    → All (Passes test (u ∷ us)) ts
All-later test u us [] h = tt
All-later test u us (t ∷ ts) ((e, m), hs) = ((e, inr m), All-later test u us ts hs)

pub templates-Passes :
    (test : ScriptTemplate → Bool) (ts : List ScriptTemplate)
    → All (Passes test ts) (templates test ts)
unfolding templates
templates-Passes test [] = tt
templates-Passes test (t ∷ ts) = elim (Bool-cases (test t)) [
  | inl e ↦ rw e ((e, inl refl), All-later test t ts _ (templates-Passes test ts))
  | inr f ↦ rw f (All-later test t ts _ (templates-Passes test ts))
]

length_fits-total :
    (lens bp_len : List ℕ)
    → length lens ≤ length bp_len
    → (b : Bool) × (length_fits lens bp_len ≡ ok b)
unfolding length_fits
length_fits-total [] bp_len h = (false, refl)
length_fits-total (l ∷ lens) [] h = absurd (omega arith)
length_fits-total (l ∷ lens) (b ∷ bp_len) h = elim (Bool-cases ((l == b) || (l == 0))) [
  | inl t ↦ (true, rw t refl)
  | inr f ↦ let (fits, e) = length_fits-total lens bp_len (omega arith) in (fits, rw (f, e) refl)
]

pick {ℓ} : {A : Type ℓ} (P : A → Type 0) (b : Bool) {x y : A} → P x → P y → P (if b then x else y)
pick P true h k = h
pick P false h k = k

-- The choice is among the matches, where these have no more data lengths than the blueprint.
pub choose-P :
    (P : ScriptTemplate → Type 0) (bp_len : List ℕ) (chosen : ScriptTemplate)
    (ts : List ScriptTemplate)
    → P chosen
    → ((t : ScriptTemplate) → P t → length t.data_lengths ≤ length bp_len)
    → All P ts
    → (c : ScriptTemplate) × (choose bp_len chosen ts ≡ ok c) × P c
unfolding choose
choose-P P bp_len chosen [] h k hs = (chosen, refl, h)
choose-P P bp_len chosen (t ∷ ts) h k (p, ps) =
    let (b, e) = length_fits-total t.data_lengths bp_len (k t p) in
    let (c, f, q) = choose-P P bp_len (if b then t else chosen) ts (pick P b p h) k ps in
    (c, rw e f, q)

pub take-drop : (n : ℕ) (ts : List Token) → take n ts ++ drop n ts ≡ ts
take-drop zero ts = refl
take-drop (suc n) [] = refl
take-drop (suc n) (t ∷ ts) = ap (λ us. t ∷ us) (take-drop n ts)

pub count_data-append : (ts us : List Token) → count_data (ts ++ us) ≡ count_data ts + count_data us
count_data-append [] us = omega arith
count_data-append (t ∷ ts) us = omega (arith, count_data-append ts us)

pub count_data-reverse : (ts : List Token) → count_data (reverse ts) ≡ count_data ts
count_data-reverse [] = refl
count_data-reverse (t ∷ ts) =
    rw (reverse-append (t ∷ []) ts)
      (omega (arith, count_data-append (reverse ts) (t ∷ []), count_data-reverse ts))

token_eq_refl : (t : Token) → token_eq t t ≡ true
token_eq_refl (code n) = (==_iff n n).1 refl
token_eq_refl (word w) = (eq_iff w w).1 refl

pub tokens_eq_refl : (ts : List Token) → tokens_eq ts ts ≡ true
tokens_eq_refl [] = refl
tokens_eq_refl (t ∷ ts) = rw (token_eq_refl t, tokens_eq_refl ts) refl

-- Every template that passes is found.
pub templates-Among :
    (test : ScriptTemplate → Bool) (ts : List ScriptTemplate) (t : ScriptTemplate)
    → test t ≡ true
    → Among t ts
    → Among t (templates test ts)
unfolding templates
templates-Among test [] t h m = m
templates-Among test (u ∷ us) t h m = elim m [
  | inl e ↦ let passes : test u ≡ true = ap test (sym e) ∙ h in rw passes (inl e)
  | inr later ↦
      let found = templates-Among test us t h later in
      elim (Bool-cases (test u)) [ inl p ↦ rw p (inr found) | inr f ↦ rw f found ]
]

pub All-Among :
    (P : ScriptTemplate → Type 0) (ts : List ScriptTemplate) (t : ScriptTemplate)
    → All P ts
    → Among t ts
    → P t
All-Among P [] t h m = elim m [ ]
All-Among P (u ∷ us) t h m = elim m [ inl e ↦ rw e h.0 | inr later ↦ All-Among P us t h.1 later ]

-- The lengths of the choice fit, or nothing fits and the choice is left as it was.
pub choose_lengths :
    (bp_len : List ℕ) (chosen : ScriptTemplate) (ts : List ScriptTemplate) (c : ScriptTemplate)
    → choose bp_len chosen ts ≡ ok c
    → (length_fits c.data_lengths bp_len ≡ ok true)
      ⊎ ((c ≡ chosen) × All (λ t. length_fits t.data_lengths bp_len ≡ ok false) ts)
unfolding choose
choose_lengths bp_len chosen [] c h = inr (sym (ok_value h), tt)
choose_lengths bp_len chosen (t ∷ ts) c h =
    let (b, e, g) = bind_ok (length_fits t.data_lengths bp_len) _ c h in
    by_fit b e (choose_lengths bp_len (if b then t else chosen) ts c g)
  where
    by_fit :
        (b : Bool)
        → length_fits t.data_lengths bp_len ≡ ok b
        → (length_fits c.data_lengths bp_len ≡ ok true)
          ⊎ ((c ≡ (if b then t else chosen))
              × All (λ u. length_fits u.data_lengths bp_len ≡ ok false) ts)
        → (length_fits c.data_lengths bp_len ≡ ok true)
          ⊎ ((c ≡ chosen) × All (λ u. length_fits u.data_lengths bp_len ≡ ok false) (t ∷ ts))
    by_fit b e (inl fits) = inl fits
    by_fit true e (inr (same, others)) =
        inl (ap (λ (u : ScriptTemplate). length_fits u.data_lengths bp_len) same ∙ e)
    by_fit false e (inr (same, others)) = inr (same, (e, others))
