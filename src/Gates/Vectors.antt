-- ===== src/Gates/Vectors.antt =====
-- The interrupt vectors that `init_idt` sets up.
use os.Common.{
  ℕ, zero, suc, ◌+◌, ◌*◌, ◌^◌, ◌≤◌, ◌<◌, ◌≡◌, ◌≢◌, ◌⊎◌, inl, inr, refl, ◌∙◌, ==_self, ==_of_ne,
  arith,
}
use native.Mathlib.Decide.{dec_lt}
use mathlib.Core.Path.{subst}
use os.Gates.{IdtEntry, Idt, idt_set_gate, set_gates, init_idt, init_gdt}

-- The address that the three parts of an entry make up.
abbrev pub handler : IdtEntry → ℕ
handler e = e.offset_1 + e.offset_2 * 2 ^ 16 + e.offset_3 * 2 ^ 32

-- An entry leads to `base` in the kernel's code segment, with these flags.
abbrev pub LeadsTo : IdtEntry → ℕ → ℕ → Type 0
LeadsTo e base flags =
    (handler e ≡ base) × (e.selector ≡ 8) × (e.type_attr ≡ flags) × (e.zeroes ≡ 0)

set_gate-LeadsTo :
    (num base flags : ℕ) (idt : Idt)
    → base < 2 ^ 64
    → flags < 256
    → LeadsTo (idt_set_gate num base 8 flags idt num) base flags
unfolding idt_set_gate
set_gate-LeadsTo num base flags idt h hf =
    rw (==_self num) (omega arith, omega arith, omega arith, refl)

set_gate_other :
    (num base flags : ℕ) (idt : Idt) (n : ℕ) → n ≢ num → idt_set_gate num base 8 flags idt n ≡ idt n
unfolding idt_set_gate
set_gate_other num base flags idt n ne = rw (==_of_ne n num ne) refl

module _ (isr : ℕ → ℕ) where
  set_gates_outside :
      (left num : ℕ) (idt : Idt) (n : ℕ)
      → (n < num) ⊎ (num + left ≤ n)
      → set_gates left num isr idt n ≡ idt n
  unfolding set_gates
  set_gates_outside zero num idt n out = refl
  set_gates_outside (suc left) num idt n out =
      set_gates_outside left (num + 1) _ n (outside out)
      ∙ set_gate_other num (isr num) 0x8E idt n (differs out)
    where
      outside : (n < num) ⊎ (num + suc left ≤ n) → (n < num + 1) ⊎ (num + 1 + left ≤ n)
      outside (inl h) = inl (omega arith)
      outside (inr h) = inr (omega arith)

      differs : (n < num) ⊎ (num + suc left ≤ n) → n ≢ num
      differs (inl h) e = absurd (omega arith)
      differs (inr h) e = absurd (omega arith)

  set_gates-LeadsTo :
      (left num : ℕ) (idt : Idt) (n : ℕ)
      → num ≤ n
      → n < num + left
      → isr n < 2 ^ 64
      → LeadsTo (set_gates left num isr idt n) (isr n) 0x8E
  unfolding set_gates
  set_gates-LeadsTo zero num idt n lo hi h = absurd (omega arith)
  set_gates-LeadsTo (suc left) num idt n lo hi h = elim (dec_lt num n) [
    | yes p ↦ set_gates-LeadsTo left (num + 1) _ n (omega arith) (omega arith) h
    | no p ↦
        (let same : num ≡ n = omega arith in
          subst
            (λ k.
              LeadsTo (set_gates left (num + 1) isr (idt_set_gate num (isr num) 8 0x8E idt) k)
                (isr k) 0x8E)
            same
            (rw
              (set_gates_outside left (num + 1) (idt_set_gate num (isr num) 8 0x8E idt) num
                (inl (omega arith)))
              (set_gate-LeadsTo num (isr num) 0x8E idt (rw (← same) at h) (omega arith))))
  ]

  -- After `init_idt` each of the vectors 0 to 33 leads to its own handler by a gate of the kernel,
  -- vector 128 to that of system calls by a gate open to user code, and a vector `n` beyond these
  -- is as it was.
  pub init_idt-LeadsTo :
      (idt : Idt) (k n : ℕ)
      → k < 34
      → isr k < 2 ^ 64
      → isr 128 < 2 ^ 64
      → 34 ≤ n
      → n ≢ 128
      → LeadsTo (init_idt isr idt k) (isr k) 0x8E
        × LeadsTo (init_idt isr idt 128) (isr 128) 0xEE
        × (init_idt isr idt n ≡ idt n)
  unfolding init_idt
  init_idt-LeadsTo idt k n hk h h128 hn ne = (
    rw (set_gate_other 128 (isr 128) 0xEE (set_gates 34 0 isr idt) k (omega arith))
        (set_gates-LeadsTo 34 0 idt k (omega arith) (omega arith) h),
    set_gate-LeadsTo 128 (isr 128) 0xEE _ h128 (omega arith),
    set_gate_other 128 (isr 128) 0xEE (set_gates 34 0 isr idt) n ne
        ∙ set_gates_outside 34 0 idt n (inr (omega arith)),
  )

-- The two parts of the base in the task state's descriptor make up its address.
pub init_gdt_base :
    (tss : ℕ)
    → tss < 2 ^ 64
    → ((init_gdt tss).sd_lobase + (init_gdt tss).sd_hibase * 2 ^ 24 ≡ tss)
      × ((init_gdt tss).sd_lobase < 2 ^ 24)
      × ((init_gdt tss).sd_hibase < 2 ^ 40)
unfolding init_gdt
init_gdt_base tss h = (omega arith, omega arith, omega arith)
