-- ===== src/Keys/Path/Expanded.antt =====
-- What `path_expand` of bitcoinlib/keys.py returns: a path that it leaves as it is.
use bitcoinlib.Common.{
  suc, ◌≤◌, ◌≡◌, refl, sym, ap, ◌∙◌, List, [], ◌∷◌, reverse, Bool, true, false, not, ◌||◌, ok,
  Bool-cases, inl, inr, arith, length, leb, bytes_eq, bind_ok, guard_ok, ok_value, All, All-reverse,
  length-reverse, reverse-reverse,
}
use bitcoinlib.Common.Integer.{pos}
use bitcoinlib.Keys.Path.{
  Text, Settings, network_name, none_text, hardened_text, is_master, varname_of, expand_item,
  expand_items, fill, cut_template, starts_at_master, complete_path, has_none, path_expand,
}
use bitcoinlib.Keys.Path.Items.{Settled, expand_item-Settled}

-- An item that does not name the network.
abbrev pub IsKeyItem : Text → Type 0
IsKeyItem item = bytes_eq (varname_of item) network_name ≡ false

or_parts : (a b c : Bool) → a || b || c ≡ false → (a ≡ false) × (b ≡ false) × (c ≡ false)
or_parts a b c h = ground arith

expand_items-fixed :
    (s : Settings) (template items new : List Text)
    → All IsKeyItem items
    → has_none new ≡ false
    → expand_items s template items ≡ ok new
    → (expand_items s template new ≡ ok new) × (length new ≡ length items)
unfolding expand_items Settled
expand_items-fixed s template [] new k p h = rw (sym (ok_value h)) (refl, refl)
expand_items-fixed s [] (item ∷ items) new k p h = cc
expand_items-fixed s (above ∷ template) (item ∷ items) new (k, ks) p h =
    let (r, e, g) = bind_ok (expand_item s above item) _ _ h in
    let (rest, e', g') = bind_ok (expand_items s template items) _ _ g in
    let p' : has_none (r ∷ rest) ≡ false = rw (sym (ok_value g')) at p in
    let (hard, plain, later) =
      or_parts (bytes_eq r (hardened_text none_text)) (bytes_eq r none_text) (has_none rest) p' in
    let fixed = expand_item-Settled s above item r e k plain hard in
    let (others, size) = expand_items-fixed s template items rest ks later e' in
    rw (sym (ok_value g')) (rw (fixed, others) refl, ap suc size)

fill-length : (template path : List Text) → length (fill template path) ≡ length template
unfolding fill
fill-length [] path = refl
fill-length (t ∷ template) [] = ap suc (fill-length template [])
fill-length (t ∷ template) (p ∷ path) = ap suc (fill-length template path)

fill-whole : (template path : List Text) → length path ≡ length template → fill template path ≡ path
unfolding fill
fill-whole [] [] h = refl
fill-whole [] (p ∷ path) h = absurd (omega arith)
fill-whole (t ∷ template) [] h = absurd (omega arith)
fill-whole (t ∷ template) (p ∷ path) h = ap (λ ps. p ∷ ps) (fill-whole template path (omega arith))

fill-All :
    (template path : List Text)
    → All IsKeyItem template
    → All IsKeyItem path
    → All IsKeyItem (fill template path)
unfolding fill
fill-All [] path h k = tt
fill-All (t ∷ template) [] h k = (h.0, fill-All template [] h.1 tt)
fill-All (t ∷ template) (p ∷ path) h k = (k.0, fill-All template path h.1 k.1)

complete_path-All :
    (template path : List Text)
    → All IsKeyItem template
    → All IsKeyItem path
    → All IsKeyItem (complete_path (pos 0) template path)
unfolding complete_path cut_template
complete_path-All template path h k = elim (Bool-cases (starts_at_master path)) [
  | inl t ↦ rw t k
  | inr f ↦ rw f (
      All-reverse IsKeyItem _
        (fill-All _ _ (All-reverse IsKeyItem template h) (All-reverse IsKeyItem path k)))
]

-- A path of the length of the template is complete.
complete_path-whole :
    (template path : List Text)
    → length path ≡ length template
    → complete_path (pos 0) template path ≡ path
unfolding complete_path cut_template
complete_path-whole template path h = elim (Bool-cases (starts_at_master path)) [
  | inl t ↦ rw t refl
  | inr f ↦
      rw
        (
          f,
          fill-whole (reverse template) (reverse path)
              (length-reverse path ∙ h ∙ sym (length-reverse template)),
        )
        (reverse-reverse path)
]

-- The expansion begins at the master key where the path does.
expand_items-starts :
    (s : Settings) (template path new : List Text)
    → starts_at_master path ≡ true
    → expand_items s template path ≡ ok new
    → starts_at_master new ≡ true
unfolding expand_items expand_item
expand_items-starts s template [] new t h = cc
expand_items-starts s [] (item ∷ path) new t h = cc
expand_items-starts s (above ∷ template) (item ∷ path) new t h =
    let m : is_master item ≡ true = first_master item t in
    let (r, e, g) = bind_ok (expand_item s above item) _ _ h in
    let (rest, e', g') = bind_ok (expand_items s template path) _ _ g in
    let same : item ≡ r = ok_value (rw (m, expand_item) at e) in rw (sym (ok_value g'), sym same) t
  where
    first_master :
        (item : Text)
        → (bytes_eq item (109 ∷ []) || bytes_eq item (77 ∷ [])) ≡ true
        → is_master item ≡ true
    first_master [] h = refl
    first_master (c ∷ cs) h = ground arith

complete_path-again :
    (s : Settings) (template path new : List Text)
    → expand_items s template (complete_path (pos 0) template path) ≡ ok new
    → length new ≡ length (complete_path (pos 0) template path)
    → length path ≤ length template
    → (complete_path (pos 0) template new ≡ new) × (length new ≤ length template)
unfolding complete_path cut_template
complete_path-again s template path new h size k = elim (Bool-cases (starts_at_master path)) [
  | inl t ↦
      let started = expand_items-starts s template path new t (rw (t, complete_path) at h) in
      (rw started refl, omega (arith, (rw (t, complete_path) at size)))
  | inr f ↦
      let whole : length new ≡ length template =
        (rw (f, complete_path) at size)
        ∙ length-reverse (fill (reverse template) (reverse path))
        ∙ fill-length (reverse template) (reverse path)
        ∙ length-reverse template in
      (complete_path-whole template new whole, omega arith)
]

-- Expanding a path, without a level offset, gives a path that is expanded already: expanding it again,
-- with the same template and settings, returns it as it is. The condition is that no item of the path or
-- of the template is the variable network.
pub path_expand-again :
    (s : Settings) (template path npath : List Text)
    → All IsKeyItem template
    → All IsKeyItem path
    → path_expand s template (pos 0) path ≡ ok npath
    → path_expand s template (pos 0) npath ≡ ok npath
unfolding path_expand
path_expand-again s template path npath kt kp h =
    let (fits, g) = guard_ok (leb (length path) (length template)) _ _ npath h in
    let (items, e, g') =
      bind_ok (expand_items s template (complete_path (pos 0) template path)) _ npath g in
    let (some_key, g'') = guard_ok (not (has_none items)) _ _ npath g' in
    let clean : has_none items ≡ false = ground arith in
    let (fixed, size) =
      expand_items-fixed s template _ items (complete_path-All template path kt kp) clean e in
    let (again, short) = complete_path-again s template path items e size (ground arith) in
    let fits_again : leb (length items) (length template) ≡ true = ground arith in
    rw (sym (ok_value g'')) (rw (again, fixed, fits_again, clean) refl)
