-- ===== src/InterruptStack.antt =====
-- kernel/kernel/cpu.c: the nesting of sections with device interrupts disabled, on one CPU.
pub mod Nesting
mod Tests
use vimix_os.Base.{
  ℕ, suc, ◌+◌, ◌-◌, ltb, Bool, true, false, ◌&&◌, Option, none, some, List, [], ◌∷◌, ◌==◌,
  if◌then◌else◌,
}

-- the part of `struct cpu` that is used, and whether the CPU takes interrupts
pub record Cpu : Type 0 where
  pub is_interrupts_enabled : Bool
  pub disable_dev_int_stack_depth : ℕ
  pub disable_dev_int_stack_original_state : Bool

pub push_disable : Cpu → Cpu
push_disable cpu = record {
  is_interrupts_enabled = false;
  disable_dev_int_stack_depth = cpu.disable_dev_int_stack_depth + 1;
  disable_dev_int_stack_original_state =
      if cpu.disable_dev_int_stack_depth == 0
      then cpu.is_interrupts_enabled
      else cpu.disable_dev_int_stack_original_state;
}

-- `none` is one of the two panics
pub pop_disable : Cpu → Option Cpu
pop_disable cpu =
    if cpu.is_interrupts_enabled
    then none
    else if ltb cpu.disable_dev_int_stack_depth 1
    then none
    else (let depth = cpu.disable_dev_int_stack_depth - 1 in
        some (record {
          is_interrupts_enabled =
              if depth == 0 && cpu.disable_dev_int_stack_original_state
              then true
              else cpu.is_interrupts_enabled;
          disable_dev_int_stack_depth = depth;
          disable_dev_int_stack_original_state = cpu.disable_dev_int_stack_original_state;
        }))

pub data Call : Type 0 where
  push pop : Call

after : Option Cpu → (Cpu → Option Cpu) → Option Cpu
after none next = none
after (some cpu) next = next cpu

-- a sequence of calls by one CPU
pub run : List Call → Cpu → Option Cpu
unfolding push_disable pop_disable after
run [] cpu = some cpu
run (Call.push ∷ calls) cpu = run calls (push_disable cpu)
run (Call.pop ∷ calls) cpu = after (pop_disable cpu) (run calls)
