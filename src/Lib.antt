-- ===== src/Lib.antt =====
-- Scripts, transactions and blocks of bitprim-core: their byte formats, evaluation and checks.
--
-- The program's parts. A script is a list of bytes (include/bitcoin/bitcoin/chain/script.hpp,
-- src/chain/script.cpp). Its operations are read through the deserializer
-- (include/bitcoin/bitcoin/impl/utility/deserializer.ipp) by operation::from_data
-- (src/machine/operation.cpp). A program (include/bitcoin/bitcoin/impl/machine/program.ipp) holds the
-- script, the transaction, the stacks, the conditional stack and the counts, and the interpreter
-- (src/machine/interpreter.cpp, include/bitcoin/bitcoin/impl/machine/interpreter.ipp) evaluates the
-- operations over it, one handler for each code. Stack items are bytes, which number::set_data and
-- number::data (include/bitcoin/bitcoin/impl/machine/number.ipp) turn into script numbers and back.
-- script::verify evaluates the script of an input and that of the output it spends, and the embedded
-- script or the witness program where there is one. A transaction (src/chain/transaction.cpp) is read
-- and written through its inputs, outputs and witnesses; it is checked on its own (check), against the
-- chain and the outputs that it spends (accept), and by its scripts (connect). A block
-- (src/chain/block.cpp) does so for its header and all its transactions.
--
-- Which file models which part.
--   Common: shared names, lists, integers and bits over native numbers.
--   Wire/Endian: impl/utility/endian.ipp. Wire/Serializer: impl/utility/serializer.ipp, a write being
--     the bytes it writes. Wire/Deserializer: impl/utility/deserializer.ipp with CheckSafe, a read
--     being a function of the reader's bytes and flag.
--   Chain/Types: the fields of points, inputs, outputs and transactions. Chain/Script, Point, Output,
--     Witness, Input, Header, Transaction: from_data, to_data and serialized_size of src/chain/*.cpp, and
--     variable_uint_size of src/message/messages.cpp. Chain/Compact: src/chain/compact.cpp.
--   Chain/SignatureHash: the digests that signatures sign, of src/chain/script.cpp. Chain/Patterns: its
--     script patterns; Patterns/Make: the scripts that are made by them. Chain/Sigops: sigops.
--     Chain/Verify: verify of script.cpp and of src/chain/witness.cpp.
--   Chain/Amounts: math/limits.hpp and the amounts of constants.hpp. Chain/Points: the order of points.
--     Chain/Prevout: output_point.cpp, and what input.cpp and output.cpp say of an output that is spent.
--   Chain/Checks: the checks of transaction.cpp; Checks/Accept: accept and connect, and the values that
--     need the outputs that are spent. Chain/ProofOfWork: the work of header.cpp. Chain/Retarget: the work
--     that src/chain/chain_state.cpp requires.
--   Chain/Block: block.cpp; Block/Merkle and Block/Locator: the Merkle root and the locator;
--     Block/Checks: check, accept and connect.
--   Machine/Number: number.ipp. Machine/Opcode: machine/opcode.hpp. Machine/Operation: operation.ipp
--     and operation.cpp; Operation/Classes: the classes of codes; Operation/Script: the parts of
--     chain/script.cpp that evaluation uses (operations, find_and_delete_, is_valid_operations).
--   Machine/Program: program.ipp. Methods keep their names; the overloads of push, pop and
--     increment_operation_count have a name each (push_bool, pop_number, count_public_keys, ...).
--   Machine/Interpreter/Stack, Arithmetic, Control, Crypto, Locktime: the handlers op_*; Run: run_op and
--     run. A handler takes the program to its error code and the program after it.
--   The other files hold theorems, and those named Tests or HandlerTests hold concrete instances.
--
-- How the state corresponds. A stack is a list with its top first. An iterator into the script is the
-- index of the operation. int64_t and int32_t are integers; uint64_t bit patterns and size_t counters
-- wrap at 2^64, but for the operation count of a program, which is an unbounded number: evaluation adds
-- 20 to it at most and stops once it is over 201. The codes of error.hpp that evaluation and the checks return are the constructors of
-- ErrorCode. What is known of the output that an input spends (output_point::validation_type) is a
-- function of the input. What the checks read of a chain_state is in the records ChainState and
-- BlockState, and what they find in the caches of transactions and blocks is computed anew. std::sort is
-- an insertion sort.
--
-- Fuel. operations_loop runs with one unit more than the script has bytes, and each operation reads a
-- byte at least; delete_loop likewise; absolute_bytes runs with 8, the bytes of a uint64_t, and
-- logical_size with 32, those of a uint256_t. merkle_loop runs with a unit for each hash, and a round
-- leaves half as many; locator_loop runs with one unit more than the height, and a round takes off one
-- at least.
--
-- What is a parameter. The record Library holds the hashes, the reading of DER signatures and the check
-- of a signature (secp256k1). The clock is an argument of the check of a header.
--
-- What is not modelled. The text form of scripts, the making of endorsements, the store's form of
-- transactions, the caches and their locks, the serialization of blocks, messages, the activation of
-- forks by the chain state, wallets, text formats; configuration, logging, threads and unicode, which wrap boost;
-- vendored cryptography. Definitions follow a build for a currency other than Bitcoin Cash and Litecoin,
-- where witnesses are read and written and max_block_size is 1000000.
pub mod Common
pub mod Wire
pub mod Chain
pub mod Machine
