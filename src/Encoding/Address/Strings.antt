-- ===== src/Encoding/Address/Strings.antt =====
-- The characters of the code string of bitcoinlib/encoding.py, and strings of them.
use bitcoinlib.Common.{
  ℕ, suc, ◌≤◌, ◌<◌, ◌≡◌, ◌≢◌, refl, ap, ◌∙◌, List, [], ◌∷◌, ◌++◌, map, Bool, true, false, ◌&&◌, not,
  Option, none, some, ok, All, leb, ◌==◌, get_elem?, length, arith,
}
use bitcoinlib.Common.Bits.{every, every-true}
use bitcoinlib.Encoding.Address.{
  codebase, index_from, array_to_codestring, codestring_to_array, to_lower, printable,
  split_last_one,
}
use mathlib.Core.Path.{ap₂}
use mathlib.Core.Bool.{false≢true}

-- The character of a digit stands for that digit alone, is printable and in lower case, and is not
-- the separator.
pub record IsCharacter (i c : ℕ) : Type 0 where
  pub stands : get_elem? codebase i ≡ some c
  pub index : index_from 0 c codebase ≡ some i
  pub lower : to_lower c ≡ c
  pub printed : (33 ≤ c) × (c ≤ 126)
  pub other : c ≢ 49

-- The facts as tests, on what the lookups return.
agrees : Option ℕ → ℕ → ℕ → Bool
agrees none i c = false
agrees (some j) i c = (j == i) && ((to_lower c == c) && (leb 33 c && (leb c 126 && not (c == 49))))

fits : Option ℕ → ℕ → Bool
unfolding agrees
fits none i = false
fits (some c) i = agrees (index_from 0 c codebase) i c

digit_table : every (λ i. fits (get_elem? codebase i) i) 32 ≡ true
unfolding every fits
digit_table = refl

agrees-IsCharacter :
    (i c : ℕ) (o : Option ℕ)
    → get_elem? codebase i ≡ some c
    → index_from 0 c codebase ≡ o
    → agrees o i c ≡ true
    → IsCharacter i c
unfolding agrees
agrees-IsCharacter i c none g e h = absurd (false≢true h)
agrees-IsCharacter i c (some j) g e h =
    let facts : (j ≡ i) × (to_lower c ≡ c) × (33 ≤ c) × (c ≤ 126) × (c ≢ 49) = parts j i c _ h in
    record {
      stands = g;
      index = e ∙ ap some facts.0;
      lower = facts.1;
      printed = (facts.2, facts.3);
      other = facts.4;
    }
  where
    parts :
        (j i c l : ℕ)
        → ((j == i) && ((l == c) && (leb 33 c && (leb c 126 && not (c == 49))))) ≡ true
        → (j ≡ i) × (l ≡ c) × (33 ≤ c) × (c ≤ 126) × (c ≢ 49)
    parts j i c l h = ground arith

fits-IsCharacter :
    (i : ℕ) (o : Option ℕ) → get_elem? codebase i ≡ o → fits o i ≡ true → (c : ℕ) × IsCharacter i c
unfolding fits
fits-IsCharacter i none g h = absurd (false≢true h)
fits-IsCharacter i (some c) g h = (c, agrees-IsCharacter i c _ g refl h)

pub character : (i : ℕ) → i < 32 → (c : ℕ) × IsCharacter i c
character i h =
    fits-IsCharacter i (get_elem? codebase i) refl
      (every-true (λ i. fits (get_elem? codebase i) i) 32 i h digit_table)

-- A string that spells digits.
pub data Spells : List ℕ → List ℕ → Type 0 where
  empty : Spells [] []
  letter : {i c : ℕ} {ds s : List ℕ} → IsCharacter i c → Spells ds s → Spells (i ∷ ds) (c ∷ s)

pub spelling : (ds : List ℕ) → All (λ d. d < 32) ds → (s : List ℕ) × Spells ds s
spelling [] h = ([], empty)
spelling (d ∷ ds) h =
    let (c, p) = character d h.0 in let (s, q) = spelling ds h.1 in (c ∷ s, letter p q)

pub Spells-append : {ds es s t : List ℕ} → Spells ds s → Spells es t → Spells (ds ++ es) (s ++ t)
Spells-append empty q = q
Spells-append (letter p r) q = letter p (Spells-append r q)

pub array_to_codestring-Spells : {ds s : List ℕ} → Spells ds s → array_to_codestring ds ≡ ok s
unfolding array_to_codestring
array_to_codestring-Spells empty = refl
array_to_codestring-Spells (letter p q) = rw (p.stands, array_to_codestring-Spells q) refl

pub codestring_to_array-Spells : {ds s : List ℕ} → Spells ds s → codestring_to_array s ≡ ok ds
unfolding codestring_to_array
codestring_to_array-Spells empty = refl
codestring_to_array-Spells (letter p q) = rw (p.index, codestring_to_array-Spells q) refl

pub length-Spells : {ds s : List ℕ} → Spells ds s → length s ≡ length ds
length-Spells empty = refl
length-Spells (letter p q) = ap suc (length-Spells q)

-- A character that is printable and no upper-case letter.
pub record IsPlain (c : ℕ) : Type 0 where
  pub lowest : 33 ≤ c
  pub highest : c ≤ 126
  pub lower : to_lower c ≡ c

pub Spells-IsPlain : {ds s : List ℕ} → Spells ds s → All IsPlain s
Spells-IsPlain empty = tt
Spells-IsPlain (letter p q) =
    (record { lowest = p.printed.0; highest = p.printed.1; lower = p.lower }, Spells-IsPlain q)

pub printable-IsPlain :
    (text : List ℕ) → All IsPlain text → (printable text ≡ true) × (map to_lower text ≡ text)
printable-IsPlain [] h = (refl, refl)
printable-IsPlain (c ∷ text) h =
    let (p, l) = printable-IsPlain text h.1 in
    (bounds c (h.0.lowest) (h.0.highest) p, ap₂ ◌∷◌ (h.0.lower) l)
  where
    bounds : (c : ℕ) → 33 ≤ c → c ≤ 126 → printable text ≡ true → printable (c ∷ text) ≡ true
    bounds c a b p = rw p (ground arith)

no_separator : {ds s : List ℕ} → Spells ds s → split_last_one s ≡ none
unfolding split_last_one
no_separator empty = refl
no_separator (letter p q) = rw (no_separator q) (ground (arith, p.other))

-- The separator before a spelling is the last one.
pub split_last_one-Spells :
    (hrp : List ℕ) {ds s : List ℕ} → Spells ds s → split_last_one (hrp ++ (49 ∷ s)) ≡ some (hrp, s)
unfolding split_last_one
split_last_one-Spells [] q = rw (no_separator q) refl
split_last_one-Spells (c ∷ hrp) q = rw (split_last_one-Spells hrp q) refl
