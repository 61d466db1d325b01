-- ===== src/Chain/Retarget.antt =====
-- src/chain/chain_state.cpp: the work that the next block must claim, for a currency other than
-- Bitcoin Cash and Litecoin.
pub mod Bounds
mod Tests
use bitprim_core.Common.{
  ℕ, zero, suc, ◌+◌, ◌-◌, ◌*◌, ◌/◌, ◌%◌, ◌^◌, Bool, true, false, not, ◌&&◌, ◌||◌,
}
use bitprim_core.Common.{
  Option, none, some, List, [], ◌∷◌, ltb, leb, ◌==◌, if◌then◌else◌, length, drop,
}
use bitprim_core.Common.{get_or, min}
use bitprim_core.Common.Int.{ℤ, pos, sub_ℕ, ltb_ℤ, pos_part}
use bitprim_core.Machine.Interpreter.Crypto.{is_enabled}
use bitprim_core.Chain.Compact.{from_compact, from_big}
use bitprim_core.Chain.Prevout.{back_or}
use bitprim_core.Chain.ProofOfWork.{work_limit, limit}

-- Of `chain_state::data`: what the work depends on. The lists have the highest block last.
pub record RetargetData : Type 0 where
  pub height : ℕ
  pub bits : List ℕ
  pub timestamp_self : ℕ
  pub timestamp_retarget : ℕ
  pub timestamps : List ℕ

abbrev pub easy_blocks : ℕ
easy_blocks = 2 ^ 0

abbrev pub retarget : ℕ
retarget = 2 ^ 30

abbrev pub target_timespan_seconds : ℕ
target_timespan_seconds = 2 * 7 * 24 * 60 * 60

abbrev pub target_spacing_seconds : ℕ
target_spacing_seconds = 10 * 60

abbrev pub easy_spacing_seconds : ℕ
easy_spacing_seconds = 2 * target_spacing_seconds

abbrev pub min_timespan : ℕ
min_timespan = target_timespan_seconds / 4

abbrev pub max_timespan : ℕ
max_timespan = target_timespan_seconds * 4

abbrev pub retargeting_interval : ℕ
retargeting_interval = target_timespan_seconds / target_spacing_seconds

abbrev pub median_time_past_interval : ℕ
median_time_past_interval = 11

-- The last of the ordered values. There is none only where the data are invalid, and the source
-- asks for it all the same.
abbrev pub timestamp_high : RetargetData → ℕ
timestamp_high values = back_or values.timestamps 0

abbrev pub bits_high : RetargetData → ℕ
bits_high values = back_or values.bits 0

unfoldable pub retarget_distance : ℕ → ℕ
retarget_distance height = height % retargeting_interval

unfoldable pub is_retarget_height : ℕ → Bool
is_retarget_height height = retarget_distance height == 0

-- `retarget_height(height, forks)`, with the largest size for what is not requested.
unfoldable pub retarget_height : ℕ → ℕ → ℕ
retarget_height height forks =
    if not (is_enabled forks retarget)
    then 2 ^ 64 - 1
    else height
      - (if is_retarget_height height then retargeting_interval else retarget_distance height)

unfoldable pub bits_count : ℕ → ℕ → ℕ
bits_count height forks =
    if is_enabled forks easy_blocks
      && (is_enabled forks retarget && not (is_retarget_height height))
    then min height retargeting_interval
    else 1

unfoldable pub timestamp_count : ℕ → ℕ
timestamp_count height = min height median_time_past_interval

-- `timestamps_subset(times)`: the last eleven.
unfoldable pub timestamps_subset : List ℕ → List ℕ
timestamps_subset times = if ltb 11 (length times) then drop (length times - 11) times else times

unfoldable pub insert_time : ℕ → List ℕ → List ℕ
insert_time time [] = time ∷ []
insert_time time (other ∷ times) =
    let rest = insert_time time times in
    if ltb other time then other ∷ rest else time ∷ other ∷ times

-- `std::sort`
unfoldable pub sort_times : List ℕ → List ℕ
sort_times [] = []
sort_times (time ∷ times) = insert_time time (sort_times times)

-- `chain_state::median_time_past(values, forks)`: 0 for no times.
unfoldable pub median_time_past : List ℕ → ℕ
median_time_past times =
    let subset = sort_times (timestamps_subset times) in get_or subset (length subset / 2) 0

-- `range_constrain`, to a range of unsigned integers.
unfoldable pub range_constrain : ℤ → ℕ → ℕ → ℕ
range_constrain value minimum maximum =
    if ltb_ℤ value (pos minimum)
    then minimum
    else if ltb_ℤ (pos maximum) value
    then maximum
    else pos_part value

unfoldable pub retarget_timespan : RetargetData → ℕ
retarget_timespan values =
    range_constrain (sub_ℕ (timestamp_high values) values.timestamp_retarget) min_timespan
      max_timespan

-- The target that a number of seconds makes of another, in 256 bits.
unfoldable pub next_target : ℕ → ℕ → ℕ
next_target target timespan = target * timespan % 2 ^ 256 / target_timespan_seconds

-- The compact form of a target within the limit.
unfoldable pub limited : ℕ → ℕ
limited target = if ltb (limit true) target then work_limit true else from_big target

-- `work_required_retarget(values)`. The source asserts that the last bits do not overflow.
unfoldable pub work_required_retarget : RetargetData → ℕ
work_required_retarget values = elim (from_compact (bits_high values)) [
  | none ↦ limited (next_target 0 (retarget_timespan values))
  | some target ↦ limited (next_target target (retarget_timespan values))
]

-- `easy_time_limit(values)`, as far as 32 bits go.
unfoldable pub easy_time_limit : RetargetData → ℕ
easy_time_limit values = min (2 ^ 32 - 1) (timestamp_high values + easy_spacing_seconds)

unfoldable pub is_retarget_or_non_limit : ℕ → ℕ → Bool
is_retarget_or_non_limit height bits = not (bits == work_limit true) || is_retarget_height height

-- `for (auto bit = bits.rbegin(); bit != bits.rend(); ++bit)`, over the bits of the blocks from a
-- height up: the bits that are found at or above it, looked for from the top.
unfoldable pub last_non_limit : ℕ → List ℕ → Option ℕ
last_non_limit height [] = none
last_non_limit height (bit ∷ bits) = elim (last_non_limit (suc height) bits) [
  | some found ↦ some found
  | none ↦ if is_retarget_or_non_limit height bit then some bit else none
]

-- `easy_work_required(values)`
unfoldable pub easy_work_required : RetargetData → ℕ
easy_work_required values =
    if ltb (easy_time_limit values) values.timestamp_self
    then work_limit true
    else elim (last_non_limit (values.height - length values.bits) values.bits) [
      | none ↦ work_limit true
      | some bits ↦ bits
    ]

-- `work_required(values, forks)`
unfoldable pub work_required : RetargetData → ℕ → ℕ
work_required values forks =
    if values.height == 0
    then 0
    else if not (is_enabled forks retarget)
    then bits_high values
    else if is_retarget_height values.height
    then work_required_retarget values
    else if is_enabled forks easy_blocks
    then easy_work_required values
    else bits_high values
