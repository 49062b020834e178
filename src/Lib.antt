-- ===== src/Lib.antt =====
-- Bitcoinlib: encodings, scripts, transactions, blocks, key paths and payments.
--
-- The program encodes and decodes the wire formats of Bitcoin, parses and evaluates scripts, and
-- builds keys, transactions and wallets on top of them. The part modelled here is the core that the
-- rest calls.
--
-- The files and the code that they model:
--   Common                 operators, Boolean tests, list lemmas, exceptions as values, signed
--                          integers over the native naturals, bit operations, powers
--   Encoding/Bytes         `int.to_bytes`, `int.from_bytes` and byte strings
--   Encoding/Stream        `io.BytesIO`: a buffer with a position
--   Encoding/VarInt        bitcoinlib/encoding.py, `varbyteint_to_int`, `read_varbyteint`,
--                          `read_varbyteint_return`, `int_to_varbyteint`, `varstr`
--   Encoding/Der           bitcoinlib/encoding.py, `signature_der_encode`, `signature_der_decode`,
--                          `signature_der_decode_bytes`
--   Encoding/Bech32        bitcoinlib/encoding.py, `_bech32_polymod` and the checksum of
--                          `pubkeyhash_to_addr_bech32`
--   Encoding/ConvertBits   bitcoinlib/encoding.py, `convertbits`
--   Encoding/Address       bitcoinlib/encoding.py, `pubkeyhash_to_addr_bech32`,
--                          `addr_bech32_to_pubkeyhash`, `addr_bech32_checksum` and the code string
--   Encoding/Base58        bitcoinlib/encoding.py, `base58encode`
--   Script/Num             bitcoinlib/scripts.py, `encode_num`, `decode_num`
--   Script/Stack           bitcoinlib/scripts.py, `class Stack`: the methods `op_*`, in one child per
--                          kind (Moves, Arithmetic, Crypto, Timelock)
--   Script/Command         bitcoinlib/scripts.py, `Stack.op_if`, `Stack.op_notif`, and the commands
--                          of a script
--   Script/Wire            bitcoinlib/scripts.py, `data_pack`, `Script.serialize` and the step of
--                          `Script.parse_bytesio` that reads an opcode and its data
--   Script/Template        bitcoinlib/scripts.py, `_get_script_types` and `get_data_type`, with
--                          `SCRIPT_TYPES` of bitcoinlib/config/config.py
--   Script/Evaluate        bitcoinlib/scripts.py, `Script.evaluate`, with the names of the opcodes in
--                          bitcoinlib/config/opcodes.py
--   Keys/Signature         bitcoinlib/keys.py, `Signature.parse_bytes` with the checks of
--                          the constructor
--   Keys/Derivation        bitcoinlib/keys.py, `HDKey._key_derivation`, `child_private`,
--                          `child_public`, `public`, `fingerprint`, `key_for_path`, and the
--                          coordinates of a compressed public key
--   Transaction            bitcoinlib/transactions.py, the fields of `Input`, `Output` and
--                          `Transaction`
--   Transaction/Weight     bitcoinlib/transactions.py, `Transaction.witness_data` and
--                          `calc_weight_units`
--   Transaction/Raw        bitcoinlib/transactions.py, `Transaction.raw`
--   Transaction/Parse      bitcoinlib/transactions.py, `Input.parse`, `Output.parse` and
--                          `Transaction.parse_bytesio`, in Analysis with the analysis of
--                          the scripts
--   Transaction/Sighash    bitcoinlib/transactions.py, `Transaction.signature_segwit`, `signature`,
--                          `signature_hash`
--   Transaction/Fee        bitcoinlib/transactions.py, `Transaction.bumpfee`, up to the signing at its
--                          end
--   Transaction/Locktime   bitcoinlib/transactions.py, `set_locktime_blocks`, `set_locktime_time`,
--                          `set_locktime_relative_blocks`, `set_locktime_relative_time`, up to the
--                          signing at their end
--   Transaction/Size       bitcoinlib/transactions.py, `Transaction.estimate_size`, `update_totals`,
--                          `calculate_fee`, and `get_unlocking_script_type`
--   Encoding/Hex           bitcoinlib/encoding.py, `to_bytes` on a byte string
--   Block                  bitcoinlib/blocks.py, the fields of `Block`
--   Block/Header           bitcoinlib/blocks.py, the constructor `Block.__init__`
--   Block/Parse            bitcoinlib/blocks.py, `Block.parse_bytesio`
--   Block/Serialize        bitcoinlib/blocks.py, `Block.serialize`
--   Block/Target           bitcoinlib/blocks.py, `Block.target`, `check_proof_of_work`, `version_bin`,
--                          `version_bips`
--   Keys/Path              bitcoinlib/keys.py, `path_expand`; bitcoinlib/wallets.py, `normalize_path`;
--                          bitcoinlib/main.py, `get_key_structure_data`
--   Wallet/Select          bitcoinlib/wallets.py, `Wallet.select_inputs`, up to the inputs that it makes
--                          of the selected outputs
--   Wallet/Change          bitcoinlib/wallets.py, `Wallet.transaction_create`, from the fee on
--   Wallet/Payment         bitcoinlib/wallets.py, `Wallet.transaction_create` with the selection of its
--                          inputs
--
-- How they interact: `Script.evaluate` keeps a list of commands and a stack. Each round takes a
-- command off the list, pushes data, or calls the stack method that the opcode's name selects;
-- OP_IF and OP_NOTIF rewrite the list. The stack methods read numbers by `decode_num` and push them
-- by `encode_num`. Signatures on the stack are DER sequences, whose lengths are CompactSize
-- integers. A block is a header and its transactions: it is written by `Transaction.raw` and read
-- by `Transaction.parse_bytesio`, which read and write scripts as strings with a CompactSize
-- length. A wallet takes the inputs of a transaction from `select_inputs`, and `transaction_create`
-- balances fee and change against them; `path_expand` writes the paths that `key_for_path` derives.
--
-- State is passed explicitly. A stack is a list with the top first (Python's `self[-1]`), and a stack
-- method is a function from a stack to a result: its return value and the new stack, or an exception.
-- A byte string is a list of naturals; a theorem that needs them below 256 says so by `IsBytes`. A
-- Python integer that may be negative is a ℤ.
--
-- Fuel: the loop of `evaluate` takes the number of its commands as fuel, since a round leaves fewer
-- commands than it found. The inner loop of `convertbits` takes its number of
-- bits, since a round takes at least one bit away where the digits of the result have a bit at all.
-- The loop over the transactions of a block takes the number of bytes and one more, since each of
-- them takes at least one byte. The loop of `base58encode` takes its number, which each round
-- divides. The loop of `_get_script_types` takes the number of elements of the blueprint, since every
-- template takes at least one. The outcome `exhausted`, or `none`, stands for a loop that does not end.
--
-- Parameters: the hash functions, `Signature.parse_bytes` with the constructor that it calls, and
-- `Signature.verify` are fields of the record Crypto, since they rest on hashlib, pycryptodome and an
-- elliptic curve library. Child key derivation takes the curve and the hashes as the record Curve;
-- what its theorem relies on is in `IsCurve`: adding multiples of the generator adds their factors,
-- and a multiple of the generator is found again from its compressed form. The database of a wallet is
-- the record Database: its rows, and the orders in which it returns them, which only have to be orders
-- of the same rows. Floating point and random numbers in the change are the record Draws.
--
-- A transaction is read from a stream by readers, functions that return a value and the stream behind
-- it, or raise. Of the constructors of inputs and outputs the conversion of the transaction ID and
-- the scripts is included. `Script.parse_bytes`, which analyses a script or raises, is a parameter, and
-- is called behind the reading; in a block the transactions are not analysed.
--
-- The encoding of a segwit address reads the version and the program (`read_program`) and encodes them
-- (`encode_program`, and `encode_negative` for a version below 0). Text is a list of character codes, and characters are printable ASCII.
--
-- Not modelled: the database, the rest of the
-- wallets, service clients and the command line, which are glue around libraries and I/O; conversions
-- that rest on floating point; logging and tracing output; the log message and the text of an exception.
pub mod Common
pub mod Encoding
pub mod Script
pub mod Transaction
pub mod Block
pub mod Keys
pub mod Wallet
