-- ===== src/Block/RoundTrip/Whole.antt =====
-- `Block.parse_bytesio` of bitcoinlib/blocks.py on what `Block.serialize` writes.
use bitcoinlib.Common.{
  ℕ, suc, ◌<◌, ◌^◌, ◌≡◌, refl, sym, ap, ◌∙◌, List, [], ◌∷◌, ◌++◌, reverse, reverse-reverse, map,
  true, not, ◌&&◌, Option, none, some, Result, ok, value_error, ◌==◌, ltb, length, bind_ok,
  guard_ok, ok_value, All, arith,
}
use bitcoinlib.Encoding.Bytes.{little_digits, to_little, from_big}
use bitcoinlib.Encoding.Bytes.Laws.{from_big-little_digits}
use bitcoinlib.Encoding.Hex.{to_bytes}
use bitcoinlib.Encoding.VarInt.{int_to_varbyteint}
use bitcoinlib.Transaction.{Transaction}
use bitcoinlib.Transaction.Parse.{Parsed, double_sha256}
use bitcoinlib.Transaction.Reader.{
  return, Reads, Reads-return, Reads-bind, Reads-then, Reads-require, ReadsAll,
}
use bitcoinlib.Transaction.RoundTrip.Inputs.{to_little_digits}
use bitcoinlib.Transaction.RoundTrip.Whole.{IsWire}
use bitcoinlib.Block.{Bytes, Block}
use bitcoinlib.Block.Header.{new_block, block_height}
use bitcoinlib.Block.Parse.{lift, parse_found, parse_all, finish_block}
use bitcoinlib.Block.Serialize.{write_transactions, write_header, serialize_block}
use bitcoinlib.Block.RoundTrip.Transactions.{
  shown, Blocks, write_transactions-Blocks, Blocks-length, parse_loop-ReadsAll,
}

-- A byte string of one length that does not spell another in hexadecimal digits.
pub record IsField (size : ℕ) (field : Bytes) : Type 0 where
  pub width : length field ≡ size
  pub plain : to_bytes field ≡ field

pub record IsBlock (b : Block Transaction) : Type 0 where
  pub version : IsField 4 b.version
  pub prev_block : IsField 32 b.prev_block
  pub merkle_root : IsField 32 b.merkle_root
  pub bits : IsField 4 b.bits
  pub nonce : IsField 4 b.nonce
  pub transactions : All IsWire b.transactions

-- The block that is parsed: `header` is what is hashed.
abbrev pub parsed_block : (Bytes → Bytes) → Bytes → Option ℕ → Block Transaction → Block Parsed
parsed_block sha256 header height b = record {
  block_hash = to_bytes (reverse (double_sha256 sha256 header));
  version = b.version;
  version_int = from_big b.version;
  prev_block = b.prev_block;
  merkle_root = b.merkle_root;
  time = b.time;
  bits = b.bits;
  nonce = b.nonce;
  transactions = map shown b.transactions;
  tx_count = length b.transactions;
  height = height;
}

pub length-map : {A B : Type 0} (f : A → B) (xs : List A) → length (map f xs) ≡ length xs
length-map f [] = refl
length-map f (x ∷ xs) = ap suc (length-map f xs)

-- The constructor on the fields that are read.
pub new_block-parsed_block :
    (sha256 : Bytes → Bytes) (header : Bytes) (height : Option ℕ) (b : Block Transaction)
    → IsBlock b
    → b.time < 256 ^ 4
    → block_height none (from_big b.version) (map shown b.transactions) ≡ ok height
    → new_block
        (reverse (double_sha256 sha256 header))
        (reverse (reverse b.version))
        (reverse (reverse b.prev_block))
        (reverse (reverse b.merkle_root))
        (reverse (little_digits 4 b.time))
        (reverse (reverse b.bits))
        (reverse (reverse b.nonce))
        (map shown b.transactions)
        none
        (length b.transactions)
      ≡ ok (parsed_block sha256 header height b)
unfolding new_block
new_block-parsed_block sha256 header height b wire small h =
    rw
      (
        reverse-reverse b.version,
        reverse-reverse b.prev_block,
        reverse-reverse b.merkle_root,
        reverse-reverse b.bits,
        reverse-reverse b.nonce,
        wire.version.plain,
        wire.prev_block.plain,
        wire.merkle_root.plain,
        wire.bits.plain,
        wire.nonce.plain,
        from_big-little_digits 4 b.time small,
        h,
      )
      refl

lift-Reads : {A : Type 0} (r : Result A) (a : A) → r ≡ ok a → Reads (lift r) [] a
unfolding lift return
lift-Reads r a e = rw e Reads-return

pub finish_block-Reads :
    (tx_count : ℕ) (ts : List Parsed) (make : List Parsed → Result (Block Parsed))
    (b : Block Parsed)
    → tx_count ≡ length ts
    → make ts ≡ ok b
    → Reads (finish_block true 0 tx_count (some ts) make) [] (some b)
unfolding finish_block
finish_block-Reads tx_count ts make b n e =
    Reads-then (Reads-require _ (ground arith))
      (Reads-bind _ (lift-Reads (make ts) b e) Reads-return)

pub parse_all-ReadsAll :
    (sha256 : Bytes → Bytes) (ts : List Transaction) (codes : Bytes)
    → Blocks ts codes
    → ReadsAll (parse_all sha256 true 0) codes (some (map shown ts))
unfolding parse_all parse_found
parse_all-ReadsAll sha256 ts codes blocks = record {
  run_all = λ s r n.
      (parse_loop-ReadsAll sha256 (suc (length s.buffer)) 0 ts codes blocks
          (omega (arith, n, Blocks-length ts codes blocks))).run_all
        s r n;
}

-- The parts of the bytes of a block.
pub record Written (b : Block Transaction) (code : Bytes) : Type 0 where
  pub count : Bytes
  pub codes : Bytes
  pub counted : int_to_varbyteint (length b.transactions) ≡ ok count
  pub blocks : Blocks b.transactions codes
  pub time : b.time < 256 ^ 4
  pub shape :
      code
      ≡ (reverse b.version
          ++ (reverse b.prev_block
              ++ (reverse b.merkle_root
                  ++ (little_digits 4 b.time ++ (reverse b.bits ++ reverse b.nonce)))))
        ++ (count ++ codes)

write_header-digits :
    (b : Block Transaction) (rb : Bytes)
    → write_header b ≡ ok rb
    → (b.time < 256 ^ 4)
      × (rb
          ≡ reverse b.version
            ++ (reverse b.prev_block
                ++ (reverse b.merkle_root
                    ++ (little_digits 4 b.time ++ (reverse b.bits ++ reverse b.nonce)))))
unfolding write_header
write_header-digits b rb e =
    let (time, e1, f1) = bind_ok (to_little 4 b.time) _ rb e in
    let whole =
      reverse b.version
      ++ (reverse b.prev_block
          ++ (reverse b.merkle_root ++ (time ++ (reverse b.bits ++ reverse b.nonce)))) in
    let (g, f2) = guard_ok (length whole == 80) value_error (ok whole) rb f1 in
    (
      ground arith,
      sym (ok_value f2)
          ∙ ap
              (λ x.
                reverse b.version
                ++ (reverse b.prev_block
                    ++ (reverse b.merkle_root ++ (x ++ (reverse b.bits ++ reverse b.nonce)))))
              (to_little_digits 4 b.time time e1),
    )

pub serialize_block-Written :
    (b kept : Block Transaction) (code : Bytes)
    → All IsWire b.transactions
    → serialize_block b ≡ ok (code, kept)
    → Written b code
unfolding serialize_block
serialize_block-Written b kept code wire e =
    let (g, f0) =
      guard_ok ((length b.transactions == b.tx_count) && not (ltb (length b.transactions) 1))
        value_error _ (code, kept) e in
    let (rb, e1, f1) = bind_ok (write_header b) _ (code, kept) f0 in
    let (count, e2, f2) = bind_ok (int_to_varbyteint (length b.transactions)) _ (code, kept) f1 in
    let ((codes, ts), e3, f3) = bind_ok (write_transactions b.transactions) _ (code, kept) f2 in
    let (small, digits) = write_header-digits b rb e1 in
    record {
      count = count;
      codes = codes;
      counted = e2;
      blocks = write_transactions-Blocks b.transactions ts codes wire e3;
      time = small;
      shape = sym (ap (λ x. x.0) (ok_value f3)) ∙ ap (λ x. x ++ (count ++ codes)) digits;
    }
