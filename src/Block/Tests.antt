-- ===== src/Block/Tests.antt =====
-- Runs of the block code of bitcoinlib/blocks.py. The hash of the tests keeps the first 32 bytes.
use bitcoinlib.Common.{
  ℕ, ◌-◌, ◌*◌, ◌^◌, ◌<◌, ◌≡◌, ◌≢◌, refl, [], ◌∷◌, ◌++◌, true, false, Option, none, some, ok,
  replicate, take, length, arith,
}
use bitcoinlib.Common.Integer.{pos}
use bitcoinlib.Encoding.Bytes.{little_digits, from_big}
use bitcoinlib.Encoding.Hex.{to_bytes}
use bitcoinlib.Encoding.VarInt.{int_to_varbyteint, varstr}
use bitcoinlib.Transaction.{Bytes, Transaction, legacy, coinbase_script}
use bitcoinlib.Transaction.Raw.{raw}
use bitcoinlib.Block.{Block}
use bitcoinlib.Block.Header.{block_height}
use bitcoinlib.Block.Target.{check_proof_of_work, version_bin, version_bips}
use bitcoinlib.Block.Target.Laws.{check_proof_of_work-zeros, from_bits, IsBits, version_bin_lem}
use bitcoinlib.Block.Parse.{parse_block}
use bitcoinlib.Block.Serialize.{serialize_block}
use bitcoinlib.Block.Total.{parse_block-ne-none}
use bitcoinlib.Block.RoundTrip.Transactions.{shown}
use bitcoinlib.Block.RoundTrip.Whole.{IsBlock, parsed_block}
use bitcoinlib.Block.RoundTrip.Serialized.{parse_block-serialize_block}

abbrev reward : Transaction
reward = record {
  version = 0 ∷ 0 ∷ 0 ∷ 1 ∷ [];
  version_int = 1;
  inputs =
      record {
        prev_txid = replicate 32 0;
        output_n = replicate 4 255;
        unlocking_script = 3 ∷ 1 ∷ 2 ∷ 3 ∷ [];
        locking_script = [];
        redeemscript = [];
        script_type = coinbase_script;
        witness_type = legacy;
        witnesses = [];
        sequence = 0xffff_ffff;
        index_n = 0;
        value = 0;
      }
      ∷ [];
  outputs = record { value = pos 5000; lock_script = 81 ∷ []; change = false } ∷ [];
  locktime = 0;
  witness_type = legacy;
  coinbase = true;
  size = 65;
  vsize = pos 65;
  input_total = pos 5000;
  output_total = pos 5000;
  fee = none;
}

abbrev mined : Block Transaction
mined = record {
  block_hash = replicate 32 0;
  version = 32 ∷ 0 ∷ 0 ∷ 2 ∷ [];
  version_int = 0x2000_0002;
  prev_block = replicate 32 5;
  merkle_root = replicate 32 6;
  time = 1600000000;
  bits = 23 ∷ 0 ∷ 255 ∷ 255 ∷ [];
  nonce = 1 ∷ 2 ∷ 3 ∷ 4 ∷ [];
  transactions = reward ∷ [];
  tx_count = 1;
  height = some 600000;
}

abbrev mined_bytes : Bytes
mined_bytes =
    (2 ∷ 0 ∷ 0 ∷ 32 ∷ [])
    ++ (replicate 32 5
        ++ (replicate 32 6
            ++ ((0 ∷ 16 ∷ 94 ∷ 95 ∷ 255 ∷ 255 ∷ 0 ∷ 23 ∷ 4 ∷ 3 ∷ 2 ∷ 1 ∷ 1 ∷ 1 ∷ 0 ∷ 0 ∷ 0 ∷ 1 ∷ [])
                ++ (replicate 32 0
                    ++ (255 ∷ 255 ∷ 255 ∷ 255 ∷ 4 ∷ 3 ∷ 1 ∷ 2 ∷ 3 ∷ 255 ∷ 255 ∷ 255 ∷ 255 ∷ 1 ∷ 136
                        ∷ 19 ∷ 0 ∷ 0 ∷ 0 ∷ 0 ∷ 0 ∷ 0 ∷ 1 ∷ 81 ∷ 0 ∷ 0 ∷ 0 ∷ 0 ∷ [])))))

serialize_mined : serialize_block mined ≡ ok (mined_bytes, mined)
unfolding serialize_block raw int_to_varbyteint varstr little_digits
serialize_mined = refl

-- Four bytes that spell two others are replaced by them.
hex_nonce : to_bytes (49 ∷ 50 ∷ 51 ∷ 52 ∷ []) ≡ 18 ∷ 52 ∷ []
unfolding to_bytes
hex_nonce = refl

-- Four blanks are replaced by nothing.
blank_nonce : to_bytes (replicate 4 32) ≡ []
unfolding to_bytes
blank_nonce = refl

mined_works : check_proof_of_work mined ≡ true
unfolding check_proof_of_work
mined_works = refl

mined_version : version_bin mined ≡ 0 ∷ 0 ∷ 1 ∷ replicate 27 0 ++ (1 ∷ 0 ∷ [])
unfolding version_bin
mined_version = refl

mined_bips : version_bips mined ≡ ok (9 ∷ 141 ∷ [])
unfolding version_bips
mined_bips = refl

mined-IsBlock : IsBlock mined
unfolding to_bytes
mined-IsBlock = record {
  version = record { width = refl; plain = refl };
  prev_block = record { width = refl; plain = refl };
  merkle_root = record { width = refl; plain = refl };
  bits = record { width = refl; plain = refl };
  nonce = record { width = refl; plain = refl };
  transactions = (
    record {
      version = refl;
      some_input = omega arith;
      some_output = omega arith;
      inputs = (
        record {
          txid = refl;
          output_n = refl;
          script = refl;
          plain_txid = refl;
          plain_script = refl;
        },
        tt,
      );
      outputs = ((refl, refl), tt);
    },
    tt,
  );
}

abbrev short_hash : Bytes → Bytes
short_hash = take 32

parse_block-serialize_block_example :
    (h : Option ℕ) × (block_height none (from_big mined.version) (shown reward ∷ []) ≡ ok h)
    × (parse_block short_hash [] none true 0 (record { buffer = mined_bytes; position = 0 })
        ≡ ok (
          some (parsed_block short_hash (take 80 mined_bytes) h mined),
          record { buffer = mined_bytes; position = 146 },
        ))
parse_block-serialize_block_example =
    parse_block-serialize_block short_hash mined mined mined_bytes mined-IsBlock serialize_mined

-- All bytes of the hash of the tests are 0.
check_proof_of_work-zeros_example :
    (from_big mined.block_hash < from_big (0 ∷ 255 ∷ 255 ∷ []) * 256 ^ (23 - 3))
    × (take 9 mined.block_hash ≡ replicate 9 0)
check_proof_of_work-zeros_example =
    check_proof_of_work-zeros mined 23 (0 ∷ 255 ∷ 255 ∷ []) refl
      (omega arith, (omega arith, (omega arith, tt))) refl (omega arith) (omega arith) refl
      mined_works

version_bin_lem_example :
    (length (version_bin mined) ≡ 32)
    × IsBits (version_bin mined)
    × (from_bits 0 (version_bin mined) ≡ 0x2000_0002)
version_bin_lem_example = version_bin_lem mined (omega arith)

-- Two blocks one behind the other.
parse_block-ne-none_example :
    parse_block short_hash [] none true 0
      (record { buffer = mined_bytes ++ mined_bytes; position = 0 })
    ≢ ok (none, record { buffer = mined_bytes; position = 146 })
parse_block-ne-none_example =
    parse_block-ne-none short_hash [] none true 0
      (record { buffer = mined_bytes ++ mined_bytes; position = 0 })
      (record { buffer = mined_bytes; position = 146 })
