-- ===== src/Chain/ProofOfWork.antt =====
-- src/chain/header.cpp: the work that a header claims, and its check.
use bitprim_core.Common.{ℕ, ◌+◌, ◌-◌, ◌*◌, ◌/◌, ◌%◌, ◌^◌, ◌<◌, ◌≡◌, sym, ◌∙◌}
use bitprim_core.Common.{ap, arith, Bool, true, false, not, none, some, ltb, leb}
use bitprim_core.Common.{◌==◌, if◌then◌else◌, Bytes, ◌||◌}
use native.Mathlib.Nat.{div-eq-sub-div, div-lt_self}
use bitprim_core.Machine.ErrorCode.{ErrorCode}
use bitprim_core.Wire.Endian.{from_little_endian}
use bitprim_core.Chain.Compact.{from_compact}
use bitprim_core.Chain.Point.{hash_size}
use bitprim_core.Chain.SignatureHash.{bitcoin_hash}
use bitprim_core.Chain.Header.{Header, header_to_data}

-- For a currency other than Litecoin.
abbrev pub work_limit : Bool → ℕ
work_limit retarget = if retarget then 0x1d00_ffff else 0x207f_ffff

abbrev pub timestamp_future_seconds : ℕ
timestamp_future_seconds = 2 * 60 * 60

-- The proof for a target, in 256 bits: `~target` is the rest to the largest number.
unfoldable pub target_proof : ℕ → ℕ
target_proof target =
    let divisor = (target + 1) % 2 ^ 256 in
    if divisor == 0 then 0 else ((2 ^ 256 - 1 - target) / divisor + 1) % 2 ^ 256

-- `header::proof(bits)`
unfoldable pub proof : ℕ → ℕ
proof bits = elim (from_compact bits) [ none ↦ 0 | some target ↦ target_proof target ]

-- `header::hash()`
unfoldable pub header_hash : (Bytes → Bytes) → Header → Bytes
header_hash sha256_hash header = bitcoin_hash sha256_hash (header_to_data true header)

-- The target that compact bits stand for, where `uint256_t` takes it from.
unfoldable pub limit : Bool → ℕ
limit retarget = elim (from_compact (work_limit retarget)) [ none ↦ 0 | some target ↦ target ]

-- The claimed work is within limits, and no more than the work of a hash.
unfoldable pub is_work : ℕ → Bool → ℕ → Bool
is_work hash retarget target =
    if ltb target 1 || ltb (limit retarget) target then false else leb hash target

-- `header::is_valid_proof_of_work(retarget)`
unfoldable pub is_valid_proof_of_work : (Bytes → Bytes) → Bool → Header → Bool
is_valid_proof_of_work sha256_hash retarget header = elim (from_compact header.bits) [
  | none ↦ false
  | some target ↦
      is_work (from_little_endian hash_size (header_hash sha256_hash header)) retarget target
]

-- `header::is_valid_timestamp()`, with the time of the clock in seconds.
unfoldable pub is_valid_timestamp : ℕ → Header → Bool
is_valid_timestamp now header = leb header.timestamp (now + timestamp_future_seconds)

-- `header::check(retarget)`
unfoldable pub check_header : (Bytes → Bytes) → Bool → ℕ → Header → ErrorCode
check_header sha256_hash retarget now header =
    if not (is_valid_proof_of_work sha256_hash retarget header)
    then ErrorCode.invalid_proof_of_work
    else if not (is_valid_timestamp now header)
    then ErrorCode.futuristic_timestamp
    else ErrorCode.success

not_zero : (n : ℕ) → 0 < n → (n == 0) ≡ false
not_zero n h = ground arith

proof_of :
    (target divisor : ℕ)
    → (target + 1) % 2 ^ 256 ≡ divisor
    → 0 < divisor
    → target_proof target ≡ ((2 ^ 256 - 1 - target) / divisor + 1) % 2 ^ 256
unfolding target_proof
proof_of target divisor e h = ap in_divisor e ∙ ap choose (not_zero divisor h)
  where
    in_divisor : ℕ → ℕ
    in_divisor d = if d == 0 then 0 else ((2 ^ 256 - 1 - target) / d + 1) % 2 ^ 256

    choose : Bool → ℕ
    choose b = if b then 0 else ((2 ^ 256 - 1 - target) / divisor + 1) % 2 ^ 256

-- The proof of a target, but the largest and 0, is the number of hashes that it takes to meet it:
-- 2 to the 256th, over the number of hashes that meet it.
pub target_proof_lem :
    (target : ℕ) → 0 < target → target < 2 ^ 256 - 1 → target_proof target ≡ 2 ^ 256 / (target + 1)
target_proof_lem target some_target h =
    let divisor = target + 1 in
    let whole = div-eq-sub-div {m = divisor} {n = 2 ^ 256} (omega arith) (omega (arith, h)) in
    let small =
      div-lt_self {n = 2 ^ 256} {k = divisor} (omega arith) (omega (arith, some_target)) in
    let same : 2 ^ 256 - divisor ≡ 2 ^ 256 - 1 - target = omega (arith, h) in
    proof_of target divisor (omega (arith, h)) (omega arith)
    ∙ ap (λ rest. (rest / divisor + 1) % 2 ^ 256) (sym same)
    ∙ ap (λ result. result % 2 ^ 256) (sym whole)
    ∙ omega (arith, small)
