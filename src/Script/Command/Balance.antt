-- ===== src/Script/Command/Balance.antt =====
-- What `op_if` leaves to run.
use bitcoinlib.Common.{
  ℕ, zero, suc, ◌+◌, ◌<◌, ◌≡◌, refl, ◌∙◌, inl, inr, Bool-cases, Option-cases, List, [], ◌∷◌, ◌++◌,
  Bool, true, false, none, some, ok, err, index_error, arith, length, length-append, ◌||◌,
  if◌then◌else◌, append_assoc, append-nil,
}
use bitcoinlib.Script.Num.{decode_num, sign_bit, clear_sign}
use bitcoinlib.Script.Stack.{Bytes, Stack}
use bitcoinlib.Script.Command.{
  Command, code, is_code, Branches, append_item, split_branches, no_branches, op_if, op_notif,
  is_zero,
}

abbrev kept : Branches → ℕ
kept b = length b.true_items + length b.false_items

length-append_item : (c : Command) (b : Branches) → kept (append_item c b) ≡ kept b + 1
length-append_item c b =
    ground (arith, length-append b.true_items (c ∷ []), length-append b.false_items (c ∷ []))

-- The branches and the rest hold fewer commands than were given.
split_branches-length :
    (depth : ℕ) (b b' : Branches) (cs rest : List Command)
    → split_branches depth b cs ≡ some (b', rest)
    → kept b' + length rest < kept b + length cs
unfolding split_branches
split_branches-length depth b b' [] rest h = cc
split_branches-length zero b b' (c ∷ cs) rest h = ground (
  arith,
  length-append_item c b,
  split_branches-length 1 (append_item c b) b' cs rest,
  split_branches-length 0 (record b { in_else = true }) b' cs rest,
  split_branches-length 0 (append_item c b) b' cs rest,
)
split_branches-length (suc depth) b b' (c ∷ cs) rest h = ground (
  arith,
  length-append_item c b,
  split_branches-length (suc (suc depth)) (append_item c b) b' cs rest,
  split_branches-length depth (append_item c b) b' cs rest,
  split_branches-length (suc depth) (append_item c b) b' cs rest,
)

-- Commands in which every conditional is closed, and no OP_ELSE or OP_ENDIF stands outside one.
-- `depth` conditionals are open at the start.
unfoldable pub closes : ℕ → List Command → Bool
closes zero [] = true
closes (suc depth) [] = false
closes zero (c ∷ cs) =
    let deeper = closes 1 cs in
    let further = closes 0 cs in
    if is_code 99 c || is_code 100 c
    then deeper
    else if is_code 103 c
    then false
    else if is_code 104 c
    then false
    else further
closes (suc depth) (c ∷ cs) =
    let deeper = closes (suc (suc depth)) cs in
    let shallower = closes depth cs in
    let further = closes (suc depth) cs in
    if is_code 99 c || is_code 100 c then deeper else if is_code 104 c then shallower else further

abbrev pub IsClosed : List Command → Type 0
IsClosed cs = closes 0 cs ≡ true

abbrev append_items : List Command → Branches → Branches
append_items cs b =
    if b.in_else
    then record b { false_items = b.false_items ++ cs }
    else record b { true_items = b.true_items ++ cs }

append_items-cons :
    (c : Command) (cs : List Command) (b : Branches)
    → append_items cs (append_item c b) ≡ append_items (c ∷ cs) b
append_items-cons c cs b =
    ground (arith, append_assoc b.true_items (c ∷ []) cs, append_assoc b.false_items (c ∷ []) cs)

append_items-nil : (b : Branches) → append_items [] b ≡ b
append_items-nil b = ground (arith, append-nil b.true_items, append-nil b.false_items)

-- The loop takes closed commands into the current branch as a whole.
split_branches-closed :
    (depth : ℕ) (b : Branches) (cs rest : List Command)
    → closes depth cs ≡ true
    → split_branches depth b (cs ++ rest) ≡ split_branches 0 (append_items cs b) rest
unfolding split_branches closes
split_branches-closed zero b [] rest h = rw (append_items-nil b)
split_branches-closed (suc depth) b [] rest h = cc
split_branches-closed zero b (c ∷ cs) rest h = ground (
  arith,
  append_items-cons c cs b,
  split_branches-closed 1 (append_item c b) cs rest,
  split_branches-closed 0 (append_item c b) cs rest,
)
split_branches-closed (suc depth) b (c ∷ cs) rest h = ground (
  arith,
  append_items-cons c cs b,
  split_branches-closed (suc (suc depth)) (append_item c b) cs rest,
  split_branches-closed depth (append_item c b) cs rest,
  split_branches-closed (suc depth) (append_item c b) cs rest,
)

-- What `op_if` does once the loop has ended.
op_if_found :
    (cs rest : List Command) (b : Branches) (element : Bytes) (s : Stack)
    → split_branches 0 no_branches cs ≡ some (b, rest)
    → op_if cs (element ∷ s)
      ≡ ok (some (s, (if is_zero element then b.false_items else b.true_items) ++ rest))
unfolding op_if
op_if_found cs rest b element s e = rw (e, op_if)

op_if_empty :
    (cs : List Command) (found : Branches × List Command)
    → split_branches 0 no_branches cs ≡ some found
    → op_if cs [] ≡ err index_error
unfolding op_if
op_if_empty cs found e = rw (e, op_if)

op_if_unclosed :
    (cs : List Command) (s : Stack) → split_branches 0 no_branches cs ≡ none → op_if cs s ≡ ok none
unfolding op_if
op_if_unclosed cs s e = rw (e, op_if)

-- A conditional leaves fewer commands than stood behind it.
pub op_if-length :
    (cs ds : List Command) (s t : Stack) → op_if cs s ≡ ok (some (t, ds)) → length ds < length cs
op_if-length cs ds s t h = elim (Option-cases (split_branches 0 no_branches cs)) [
  | inl e ↦ cc (op_if_unclosed cs s e)
  | inr ((b, rest), e) ↦ by_stack s b rest e h
]
  where
    by_stack :
        (s : Stack) (b : Branches) (rest : List Command)
        → split_branches 0 no_branches cs ≡ some (b, rest)
        → op_if cs s ≡ ok (some (t, ds))
        → length ds < length cs
    by_stack [] b rest e h = cc (op_if_empty cs (b, rest) e)
    by_stack (element ∷ s) b rest e h = ground (
      arith,
      op_if_found cs rest b element s e,
      split_branches-length 0 no_branches b cs rest e,
      length-append b.true_items rest,
      length-append b.false_items rest,
    )

pub op_notif-length :
    (cs ds : List Command) (s t : Stack) → op_notif cs s ≡ ok (some (t, ds)) → length ds < length cs
unfolding op_notif
op_notif-length cs ds [] t h = cc
op_notif-length cs ds (element ∷ s) t h =
    op_if-length cs ds ((if is_zero element then 1 ∷ [] else 0 ∷ []) ∷ s) t h

is_zero_one : is_zero (1 ∷ []) ≡ false
unfolding decode_num sign_bit clear_sign
is_zero_one = refl

is_zero_zero : is_zero (0 ∷ []) ≡ true
unfolding decode_num sign_bit clear_sign
is_zero_zero = refl

module _ (ts fs rest : List Command) (closed_t : IsClosed ts) (closed_f : IsClosed fs) where
  split_else :
      split_branches 0 no_branches (ts ++ (code 103 ∷ (fs ++ (code 104 ∷ rest))))
      ≡ some (record { true_items = ts; false_items = fs; in_else = true }, rest)
  split_else =
      split_branches-closed 0 no_branches ts (code 103 ∷ (fs ++ (code 104 ∷ rest))) closed_t
      ∙ at_else
      ∙ split_branches-closed 0 (record { true_items = ts; false_items = []; in_else = true }) fs
          (code 104 ∷ rest) closed_f
      ∙ at_end
    where
      at_else :
          split_branches 0
            (record { true_items = ts; false_items = []; in_else = false })
            (code 103 ∷ (fs ++ (code 104 ∷ rest)))
          ≡ split_branches 0
              (record { true_items = ts; false_items = []; in_else = true })
              (fs ++ (code 104 ∷ rest))
      at_else = unfold split_branches in refl

      at_end :
          split_branches 0
            (record { true_items = ts; false_items = fs; in_else = true })
            (code 104 ∷ rest)
          ≡ some (record { true_items = ts; false_items = fs; in_else = true }, rest)
      at_end = unfold split_branches in refl

  -- OP_IF over closed branches leaves the first one for a nonzero item and the second for a zero,
  -- and OP_NOTIF the other way round; the item is taken off the stack.
  pub op_if-else :
      (element : Bytes) (s : Stack)
      → (op_if (ts ++ (code 103 ∷ (fs ++ (code 104 ∷ rest)))) (element ∷ s)
          ≡ ok (some (s, (if is_zero element then fs else ts) ++ rest)))
        × (op_notif (ts ++ (code 103 ∷ (fs ++ (code 104 ∷ rest)))) (element ∷ s)
            ≡ ok (some (s, (if is_zero element then ts else fs) ++ rest)))
  op_if-else element s =
      let found = λ (x : Bytes). op_if_found commands rest both x s split_else in
      (
        found element,
        elim (Bool-cases (is_zero element)) [
          | inl e ↦ unfold op_notif in rw e (rw is_zero_one at (found (1 ∷ [])))
          | inr e ↦ unfold op_notif in rw e (rw is_zero_zero at (found (0 ∷ [])))
        ],
      )
    where
      commands : List Command
      commands = ts ++ (code 103 ∷ (fs ++ (code 104 ∷ rest)))

      both : Branches
      both = record { true_items = ts; false_items = fs; in_else = true }
