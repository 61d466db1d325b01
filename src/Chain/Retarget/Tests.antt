-- ===== src/Chain/Retarget/Tests.antt =====
-- Retargeting at concrete inputs.
use bitprim_core.Common.{◌*◌, ◌^◌, refl, arith, [], ◌∷◌}
use bitprim_core.Chain.Compact.{from_compact, is_negated, is_overflow, log_256}
use bitprim_core.Chain.ProofOfWork.{limit}
use bitprim_core.Chain.Retarget.{RetargetData, work_required_retarget}
use bitprim_core.Chain.Retarget.Bounds.{IsNextWork, work_required_retarget-IsNextWork}

-- The last 2016 blocks took one week instead of two.
abbrev one_week : RetargetData
one_week = record {
  height = 4032;
  bits = 0x1c00_ffff ∷ [];
  timestamp_self = 1_700_000_000;
  timestamp_retarget = 1_699_000_000;
  timestamps = 1_699_604_800 ∷ [];
}

work_required_retarget-IsNextWork_example :
    IsNextWork (0xffff * 2 ^ 200) (work_required_retarget one_week)
unfolding limit from_compact is_negated is_overflow log_256
work_required_retarget-IsNextWork_example =
    work_required_retarget-IsNextWork one_week (0xffff * 2 ^ 200) refl (omega arith)
