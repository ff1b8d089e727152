-- ===== src/Core/Stack/ThreeLevels.antt =====
-- The stack of three addresses on devices without RAM: `ThreeLevelStack` (src/hwstack.cpp). Its warnings
-- are left out.
pub mod Bounded
use simulavr.Prelude.{ℕ, ◌+◌, ◌-◌, ◌≤◌, ◌≡◌, refl, arith, ltb, if◌then◌else◌, ◌==◌}

pub record ThreeLevelStack : Type 0 where
  pub first : ℕ
  pub second : ℕ
  pub third : ℕ
  pub stack_pointer : ℕ
  pub lowest_stack_pointer : ℕ

-- `Reset`.
unfoldable pub reset : ThreeLevelStack → ThreeLevelStack
reset s = record s { stack_pointer = 3; lowest_stack_pointer = 3 }

-- `PushAddr`.
unfoldable pub push_addr : ℕ → ThreeLevelStack → ThreeLevelStack
push_addr addr s =
    let pointer = if ltb 0 s.stack_pointer then s.stack_pointer - 1 else s.stack_pointer in
    record {
      first = addr;
      second = s.first;
      third = s.second;
      stack_pointer = pointer;
      lowest_stack_pointer =
          if ltb pointer s.lowest_stack_pointer then pointer else s.lowest_stack_pointer;
    }

-- `PopAddr`.
unfoldable pub pop_addr : ThreeLevelStack → ℕ × ThreeLevelStack
pop_addr s =
    let pointer = s.stack_pointer + 1 in
    (
      s.first,
      record s {
        first = s.second;
        second = s.third;
        stack_pointer = if ltb 3 pointer then 3 else pointer;
      },
    )
