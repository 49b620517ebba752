-- ===== src/InterruptStack/Tests.antt =====
-- The tests of kernel/kernel/cpu.c: two sections, one in the other, and one behind them.
use vimix_os.Base.{◌≡◌, refl, true, false, some, none, List, [], ◌∷◌, arith}
use vimix_os.InterruptStack.{Cpu, Call, run}
use vimix_os.InterruptStack.Nesting.{Balanced, IsQuiet, Restores, run-Restores}

abbrev idle : Cpu
idle = record {
  is_interrupts_enabled = true;
  disable_dev_int_stack_depth = 0;
  disable_dev_int_stack_original_state = false;
}

abbrev calls : List Call
calls = Call.push ∷ Call.push ∷ Call.pop ∷ Call.pop ∷ Call.push ∷ Call.pop ∷ []

underrun : run (Call.pop ∷ []) idle ≡ none
unfolding run
underrun = refl

calls-Balanced : Balanced calls
calls-Balanced =
    Balanced.section (Balanced.section Balanced.nothing Balanced.nothing)
      (Balanced.section Balanced.nothing Balanced.nothing)

idle-IsQuiet : IsQuiet idle
idle-IsQuiet h = absurd (omega arith)

nested_example : (cpu1 : Cpu) × ((run calls idle ≡ some cpu1) × Restores idle cpu1)
nested_example = run-Restores calls-Balanced idle idle-IsQuiet
