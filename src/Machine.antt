-- ===== src/Machine.antt =====
-- The script machine: src/machine and include/bitcoin/bitcoin/impl/machine.
pub mod Number
pub mod Opcode
pub mod Operation
pub mod ErrorCode
pub mod Program
pub mod Interpreter
