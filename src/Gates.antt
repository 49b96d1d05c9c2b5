-- ===== src/Gates.antt =====
-- The descriptor tables: sys/idt.c and sys/gdt.c. Entries are records of their fields; the addresses of
-- the interrupt handlers, of the tables and of the task state are arguments.
use Prim.Native.Nat.{bit_or}
use os.Common.{ℕ, zero, suc, ◌+◌, ◌-◌, ◌*◌, ◌/◌, ◌%◌, ◌^◌, List, [], ◌∷◌}
use os.Common.Links.{update}
pub mod Vectors

-- `struct idt_entry`
pub record IdtEntry : Type 0 where
  pub offset_1 : ℕ
  pub selector : ℕ
  pub ist : ℕ
  pub type_attr : ℕ
  pub offset_2 : ℕ
  pub offset_3 : ℕ
  pub zeroes : ℕ

abbrev pub Idt : Type 0
Idt = ℕ → IdtEntry

-- `idt_set_gate`; the field `ist` stays.
unfoldable pub idt_set_gate : ℕ → ℕ → ℕ → ℕ → Idt → Idt
idt_set_gate num base sel flags idt = update idt num (record (idt num) {
  offset_1 = base % 2 ^ 16;
  offset_2 = base / 2 ^ 16 % 2 ^ 16;
  offset_3 = base / 2 ^ 32 % 2 ^ 32;
  selector = sel % 2 ^ 16;
  zeroes = 0;
  type_attr = flags % 2 ^ 8;
})

-- The calls for the vectors from `num` on, in order; `isr` gives the handlers' addresses.
unfoldable pub set_gates : ℕ → ℕ → (ℕ → ℕ) → Idt → Idt
set_gates zero num isr idt = idt
set_gates (suc left) num isr idt =
    set_gates left (num + 1) isr (idt_set_gate num (isr num) 8 0x8E idt)

-- The calls of `idt_set_gate` in `init_idt`.
unfoldable pub init_idt : (ℕ → ℕ) → Idt → Idt
init_idt isr idt = idt_set_gate 128 (isr 128) 8 0xEE (set_gates 34 0 isr idt)

-- `pic_remap`: the ports and the bytes written to them.
abbrev pub pic_remap : List (ℕ × ℕ)
pic_remap =
    (0x20, 0x11)
    ∷ (0xA0, 0x11)
    ∷ (0x21, 0x20)
    ∷ (0xA1, 0x28)
    ∷ (0x21, 4)
    ∷ (0xA1, 2)
    ∷ (0x21, 1)
    ∷ (0xA1, 1)
    ∷ (0x21, 0)
    ∷ (0xA1, 0)
    ∷ []

-- `struct sys_segment_descriptor`, without the fields that are not set.
pub record SysSegmentDescriptor : Type 0 where
  pub sd_lolimit : ℕ
  pub sd_lobase : ℕ
  pub sd_type : ℕ
  pub sd_dpl : ℕ
  pub sd_p : ℕ
  pub sd_hilimit : ℕ
  pub sd_gran : ℕ
  pub sd_hibase : ℕ

-- The segments of `gdt` before the task state: of kernel code and data, an empty one, and of user
-- data and code.
abbrev pub gdt : List ℕ
gdt =
    0
    ∷ bit_or (bit_or 0x00180000000000 0x00800000000000) 0x20000000000000
    ∷ bit_or (bit_or 0x00100000000000 0x00800000000000) 0x00020000000000
    ∷ 0
    ∷ bit_or (bit_or (bit_or 0x00100000000000 0x00800000000000) 0x00020000000000) 0x00600000000000
    ∷ bit_or (bit_or (bit_or 0x00180000000000 0x00800000000000) 0x00600000000000) 0x20000000000000
    ∷ []

-- What `init_gdt` writes behind them, for the address of `tss`, a structure of 104 bytes.
unfoldable pub init_gdt : ℕ → SysSegmentDescriptor
init_gdt tss = record {
  sd_lolimit = 104 - 1;
  sd_lobase = tss % 2 ^ 24;
  sd_type = 9;
  sd_dpl = 0;
  sd_p = 1;
  sd_hilimit = 0;
  sd_gran = 0;
  sd_hibase = tss / 2 ^ 24 % 2 ^ 40;
}

-- `struct tss_t`: the field that is set.
pub record TaskState : Type 0 where
  pub rsp0 : ℕ

unfoldable pub set_tss_rsp : ℕ → TaskState → TaskState
set_tss_rsp rsp t = record t { rsp0 = rsp }
