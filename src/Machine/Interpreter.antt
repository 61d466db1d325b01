-- ===== src/Machine/Interpreter.antt =====
-- include/bitcoin/bitcoin/impl/machine/interpreter.ipp and src/machine/interpreter.cpp. An operation
-- returns its code and the program after it, which a failed operation may have changed too.
pub mod Stack
pub mod Arithmetic
pub mod Control
pub mod Crypto
pub mod Locktime
pub mod Run
pub mod Frame
pub mod Nesting
pub mod Round
pub mod Evaluate
pub mod Multisig
pub mod Shuffle
pub mod Numeric
pub mod Timelocks
pub mod Sequences
pub mod Pushes
mod Tests
mod HandlerTests
