-- ===== src/InterruptStack/Nesting.antt =====
-- kernel/kernel/cpu.c: sections that nest leave the CPU as they found it.
use vimix_os.Base.{
  ℕ, zero, suc, ◌+◌, ◌-◌, ◌<◌, ◌≡◌, refl, subst, sym, ap, ◌∙◌, Bool, true, false, ◌&&◌, none, some,
  List, [], ◌∷◌, ◌++◌, ltb, ◌==◌, if◌then◌else◌, arith,
}
use vimix_os.InterruptStack.{Cpu, Call, push_disable, pop_disable, after, run}

-- Every push has its pop.
pub data Balanced : List Call → Type 0 where
  nothing : Balanced []
  section :
      {inner rest : List Call}
      → Balanced inner
      → Balanced rest
      → Balanced (Call.push ∷ (inner ++ Call.pop ∷ rest))

-- Inside a section the CPU takes no interrupts.
abbrev pub IsQuiet : Cpu → Type 0
IsQuiet cpu = 0 < cpu.disable_dev_int_stack_depth → cpu.is_interrupts_enabled ≡ false

-- what nested sections leave as it was: inside a section also the state that its end restores
pub record Restores (cpu cpu1 : Cpu) : Type 0 where
  pub enabled : cpu1.is_interrupts_enabled ≡ cpu.is_interrupts_enabled
  pub depth : cpu1.disable_dev_int_stack_depth ≡ cpu.disable_dev_int_stack_depth
  pub original :
      0 < cpu.disable_dev_int_stack_depth
      → cpu1.disable_dev_int_stack_original_state ≡ cpu.disable_dev_int_stack_original_state

run-append :
    (calls rest : List Call) (cpu : Cpu)
    → run (calls ++ rest) cpu ≡ after (run calls cpu) (run rest)
unfolding run after
run-append [] rest cpu = refl
run-append (Call.push ∷ calls) rest cpu = run-append calls rest (push_disable cpu)
run-append (Call.pop ∷ calls) rest cpu =
    elim (pop_disable cpu)
      as (λ o. after o (run (calls ++ rest)) ≡ after (after o (run calls)) (run rest)) [
        | none ↦ refl
        | some cpu1 ↦ run-append calls rest cpu1
      ]

-- the value that the end of a section gives to the interrupt enable
restored :
    (depth inner_depth : ℕ) (enabled original inner_enabled inner_original : Bool)
    → (0 < depth → enabled ≡ false)
    → inner_depth ≡ depth + 1
    → inner_enabled ≡ false
    → inner_original ≡ (if depth == 0 then enabled else original)
    → (if inner_depth - 1 == 0 && inner_original then true else inner_enabled) ≡ enabled
restored zero i e o ei oi quiet deep off first = ground arith
restored (suc d) i e o ei oi quiet deep off first = let q = quiet (omega arith) in ground arith

-- the end of a section
pop_lem :
    (cpu inner : Cpu)
    → IsQuiet cpu
    → Restores (push_disable cpu) inner
    → (cpu1 : Cpu) × ((pop_disable inner ≡ some cpu1) × Restores cpu cpu1)
unfolding pop_disable push_disable
pop_lem cpu inner quiet kept =
    let off = kept.enabled in
    let deep = kept.depth in
    let first : inner.disable_dev_int_stack_original_state ≡ (
        if cpu.disable_dev_int_stack_depth == 0
        then cpu.is_interrupts_enabled
        else cpu.disable_dev_int_stack_original_state) =
      kept.original (omega arith) in
    let alive : ltb inner.disable_dev_int_stack_depth 1 ≡ false = ground arith in
    (
      record {
        is_interrupts_enabled =
            if inner.disable_dev_int_stack_depth - 1 == 0
              && inner.disable_dev_int_stack_original_state
            then true
            else inner.is_interrupts_enabled;
        disable_dev_int_stack_depth = inner.disable_dev_int_stack_depth - 1;
        disable_dev_int_stack_original_state = inner.disable_dev_int_stack_original_state;
      },
      (
        rw (off, alive) refl,
        record {
          enabled =
              restored cpu.disable_dev_int_stack_depth inner.disable_dev_int_stack_depth
                cpu.is_interrupts_enabled cpu.disable_dev_int_stack_original_state
                inner.is_interrupts_enabled inner.disable_dev_int_stack_original_state quiet deep
                off first;
          depth = omega arith;
          original = λ h. ground arith;
        },
      ),
    )

-- From a CPU that takes no interrupts inside a section, any nesting of sections runs without a panic
-- and leaves the interrupts enabled or disabled as they were, at the same depth.
pub run-Restores :
    {calls : List Call}
    → Balanced calls
    → (cpu : Cpu) → IsQuiet cpu
    → (cpu1 : Cpu) × ((run calls cpu ≡ some cpu1) × Restores cpu cpu1)
unfolding run after push_disable
run-Restores Balanced.nothing cpu quiet =
    (cpu, (refl, record { enabled = refl; depth = refl; original = λ h. refl }))
run-Restores (Balanced.section {inner} {rest} b c) cpu quiet =
    let (cpu1, (ran1, kept1)) = run-Restores b (push_disable cpu) (λ h. refl) in
    let (cpu2, (popped, kept2)) = pop_lem cpu cpu1 quiet kept1 in
    let (cpu3, (ran3, kept3)) =
      run-Restores c cpu2 (λ h. kept2.enabled ∙ quiet (subst (λ d. 0 < d) kept2.depth h)) in
    (
      cpu3,
      (
        run-append inner (Call.pop ∷ rest) (push_disable cpu)
            ∙ (ap (λ o. after o (run (Call.pop ∷ rest))) ran1
                ∙ (ap (λ o. after o (run rest)) popped ∙ ran3)),
        record {
          enabled = kept3.enabled ∙ kept2.enabled;
          depth = kept3.depth ∙ kept2.depth;
          original =
              λ h. kept3.original (subst (λ d. 0 < d) (sym kept2.depth) h) ∙ kept2.original h;
        },
      ),
    )
