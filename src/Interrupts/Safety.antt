-- ===== src/Interrupts/Safety.antt =====
-- The clock and the terminal under every sequence of interrupts and reads.
use os.Common.{
  ℕ, ◌+◌, ◌≡◌, arith, Bool, true, Option, none, some, List, [], ◌∷◌, ltb, ◌==◌, Bool-cases, inl,
  inr,
}
use os.Clock.Elapsed
use os.Clock.Elapsed.{add_tick-IsValid}
use os.Terminal.{term_read}
use os.Terminal.Line.{Holds}
use os.Terminal.Input.{key, term_putchar-key}
use os.Terminal.Read.{drop_line, term_read_line, term_read_waits, term_read_none}
use os.Interrupts.{
  Keyboard, Machine, printkey, control_key, key_pressed, update_kkbd, tick, irq_func, isr_handler,
}
use os.Interrupts.Keys.{is_key, hands_key, printkey-hands}

-- The clock agrees with its milliseconds, and the terminal holds some complete input and some line.
pub record Safe (m : Machine) : Type 0 where
  pub pre : List ℕ
  pub line : List ℕ
  pub holds : Holds m.terminal pre line
  pub clock : Elapsed.IsValid m.clock

-- What happens to the machine: an interrupt, with its number, error code and scancode, or a read of
-- the terminal by a process.
pub data Event : Type 0 where
  interrupt : ℕ → ℕ → ℕ → Event
  read : ℕ → Event

unfoldable pub happen : Event → Machine → Machine
happen (interrupt num err scancode) m = (isr_handler num err scancode m).0
happen (read size) m = record m { terminal = (term_read m.terminal size).2 }

unfoldable pub happen_all : List Event → Machine → Machine
happen_all [] m = m
happen_all (e ∷ es) m = happen_all es (happen e m)

update_kkbd-Safe :
    (a : ℕ) (ctrl : Bool) (m : Machine)
    → is_key (control_key a ctrl) ≡ true
    → Safe m
    → Safe (update_kkbd (a, ctrl) m).0
unfolding update_kkbd
update_kkbd-Safe a ctrl m k s =
    let c = control_key a ctrl in
    let r = term_putchar-key s.holds c (ground (arith, k)) (λ e l. absurd (ground (arith, k, e))) in
    record {
      pre = (key s.pre s.line c).1;
      line = (key s.pre s.line c).2;
      holds = r.2;
      clock = s.clock;
    }

key_pressed-Safe :
    (o : Option (ℕ × Bool)) (k : Keyboard) (m : Machine)
    → hands_key o ≡ true
    → Safe m
    → Safe (key_pressed (o, k) m).0
unfolding key_pressed
key_pressed-Safe none k m h s = record {
  pre = s.pre;
  line = s.line;
  holds = s.holds;
  clock = s.clock;
}
key_pressed-Safe (some (a, ctrl)) k m h s =
    update_kkbd-Safe a ctrl (record m { keyboard = k }) h
      (record { pre = s.pre; line = s.line; holds = s.holds; clock = s.clock })

tick-Safe : (m : Machine) → Safe m → Safe (tick m).0
unfolding tick
tick-Safe m s = record {
  pre = s.pre;
  line = s.line;
  holds = s.holds;
  clock = add_tick-IsValid s.clock;
}

irq_func-Safe : (num scancode : ℕ) (m : Machine) → Safe m → Safe (irq_func num scancode m).0
unfolding irq_func
irq_func-Safe num scancode m s = elim (Bool-cases (num == 32)) [
  | inl e ↦ rw e (tick-Safe m s)
  | inr n ↦ elim (Bool-cases (num == 33)) [
    | inl e ↦
        rw (n, e)
          (key_pressed-Safe (printkey scancode m.keyboard).0 (printkey scancode m.keyboard).1 m
            (printkey-hands scancode m.keyboard) s)
    | inr e ↦ rw (n, e) s
  ]
]

isr_handler-Safe :
    (num err scancode : ℕ) (m : Machine) → Safe m → Safe (isr_handler num err scancode m).0
unfolding isr_handler
isr_handler-Safe num err scancode m s = elim (Bool-cases (ltb num 32)) [
  | inl e ↦ rw e s
  | inr n ↦ elim (Bool-cases (ltb num 48)) [
    | inl e ↦ rw (n, e) (irq_func-Safe num scancode m s)
    | inr e ↦ rw (n, e) s
  ]
]

read-Safe : (size : ℕ) (m : Machine) → Safe m → Safe (happen (read size) m)
unfolding happen
read-Safe size m s = elim (Bool-cases (size == 0)) [
  | inl z ↦
      let w = term_read_none m.terminal size z in
      record { pre = s.pre; line = s.line; holds = rw w s.holds; clock = s.clock }
  | inr nz ↦ elim (Bool-cases (m.terminal.count == 0)) [
    | inl z ↦
        let w = term_read_waits s.holds size (ground (arith, z)) (ground (arith, nz)) in
        record { pre = s.pre; line = s.line; holds = rw w s.holds; clock = s.clock }
    | inr n ↦
        let r = term_read_line s.holds size (ground (arith, nz)) (ground (arith, n)) in
        record { pre = drop_line (size + 1) s.pre; line = s.line; holds = r.2; clock = s.clock }
  ]
]

-- Every sequence of interrupts of all kinds and of reads of the terminal, in whatever order and with
-- whatever scancodes and sizes, keeps the clock in step with its milliseconds, and the terminal's
-- ring and counters in step with some complete input and some line being edited.
pub happen_all-Safe : (es : List Event) (m : Machine) → Safe m → Safe (happen_all es m)
unfolding happen_all happen
happen_all-Safe [] m s = s
happen_all-Safe (interrupt num err scancode ∷ es) m s =
    happen_all-Safe es (isr_handler num err scancode m).0 (isr_handler-Safe num err scancode m s)
happen_all-Safe (read size ∷ es) m s =
    happen_all-Safe es (happen (read size) m) (read-Safe size m s)
