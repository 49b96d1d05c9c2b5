-- ===== src/Examples/Console.antt =====
-- The clock, the terminal and a pipe.
use os.Common.{◌≡◌, refl, arith, true, false, some, [], ◌∷◌, length, replicate}
use os.Common.Int.{pos}
use os.Clock.{Clock}
use os.Clock.Elapsed
use os.Clock.Elapsed.{seconds, add_tick-IsValid, run_cycle}
use os.Terminal.{Terminal, term_putchar, term_read, echoed}
use os.Terminal.Ring
use os.Terminal.Ring.{used}
use os.Terminal.Line.{Holds}
use os.Terminal.Input.{term_putchar-key}
use os.Terminal.Read.{term_read_line}
use os.Pipe.{PipeBuf, File, empty_pipe}
use os.Pipe.Flow.{read, write, transfers, transfers_met}
use os.Interrupts.{Keyboard, Machine}
use os.Interrupts.Safety
use os.Interrupts.Safety.{Safe, interrupt, happen_all, happen_all-Safe}

-- The clock at the start.
abbrev zero_clock : Clock
zero_clock = record { ticks = 0; s_cnt = 0; second = 0; day = 0; ms = 0 }

zero_clock-IsValid : Elapsed.IsValid zero_clock
zero_clock-IsValid = record {
  count_in = omega arith;
  ticks_in = omega arith;
  second_in = omega arith;
  elapsed = refl;
}

-- The line "ab" is complete, and "c" is being edited.
abbrev typed : Terminal
typed = record {
  start = 0;
  end = 4;
  echo = true;
  full = false;
  count = 1;
  backspace = 1;
  buf = b'a' ∷ b'b' ∷ b'\n' ∷ b'c' ∷ replicate 252 0;
}

typed-Holds : Holds typed (b'a' ∷ b'b' ∷ b'\n' ∷ []) (b'c' ∷ [])
typed-Holds = record {
  body = record {
    valid = record {
      start_in = omega arith;
      end_in = omega arith;
      room = omega arith;
      full_iff = λ e. ground arith;
    };
    bytes = refl;
    counted = refl;
    keys = refl;
  };
  edit = refl;
  plain = refl;
}

term_putchar-key_example :
    let (ret, out, t') = term_putchar typed b'd' in
    (ret ≡ pos 0)
    × (out ≡ echoed typed b'd')
    × Holds t' (b'a' ∷ b'b' ∷ b'\n' ∷ []) (b'c' ∷ b'd' ∷ [])
term_putchar-key_example = term_putchar-key typed-Holds b'd' (omega arith) (λ e l. omega arith)

term_read_line_example :
    let (ret, out, t') = term_read typed 10 in
    (out ≡ b'a' ∷ b'b' ∷ b'\n' ∷ []) × (ret ≡ pos (length out)) × Holds t' [] (b'c' ∷ [])
term_read_line_example = term_read_line typed-Holds 10 (omega arith) (omega arith)

-- 253 bytes are held.
abbrev nearly_full : Terminal
nearly_full = record {
  start = 0;
  end = 253;
  echo = true;
  full = false;
  count = 0;
  backspace = 253;
  buf = replicate 256 b'a';
}

nearly_full-IsValid : Ring.IsValid nearly_full
nearly_full-IsValid = record {
  start_in = omega arith;
  end_in = omega arith;
  room = omega arith;
  full_iff = λ e. ground arith;
}

-- 256 empty lines.
abbrev newlines : Terminal
newlines = record {
  start = 0;
  end = 0;
  echo = true;
  full = true;
  count = 0;
  backspace = 0;
  buf = replicate 256 b'\n';
}

newlines-Holds : Holds newlines (replicate 256 b'\n') []
newlines-Holds = record {
  body = record {
    valid = record {
      start_in = omega arith;
      end_in = omega arith;
      room = omega arith;
      full_iff = λ e. refl;
    };
    bytes = refl;
    counted = refl;
    keys = refl;
  };
  edit = refl;
  plain = refl;
}

-- An open head of a pipe, and a pipe with three bytes.
abbrev open_head : File
open_head = record { data_set = true; count = 1 }

abbrev three_bytes : PipeBuf
three_bytes = record { start = 0; end = 3; full = false; buf = 10 ∷ 20 ∷ 30 ∷ replicate 2045 0 }

transfers_met_example :
    transfers
      (write (some open_head) (some (λ n. n)) 10 ∷ read (some open_head) true 10 ∷ [])
      empty_pipe
    ≡ some empty_pipe
transfers_met_example =
    transfers_met (write (some open_head) (some (λ n. n)) 10 ∷ read (some open_head) true 10 ∷ [])
      empty_pipe refl

abbrev keyboard : Keyboard
keyboard = record { shift = true; ctrl = false }

abbrev machine : Machine
machine = record { clock = zero_clock; keyboard = keyboard; terminal = typed; video = λ i. 0 }

-- A tick of the clock, a key pressed, and a reader.
happen_all-Safe_example :
    Safe (happen_all (interrupt 32 0 0 ∷ interrupt 33 0 30 ∷ Safety.read 10 ∷ []) machine)
happen_all-Safe_example =
    happen_all-Safe (interrupt 32 0 0 ∷ interrupt 33 0 30 ∷ Safety.read 10 ∷ []) machine (record {
      pre = b'a' ∷ b'b' ∷ b'\n' ∷ [];
      line = b'c' ∷ [];
      holds = typed-Holds;
      clock = zero_clock-IsValid;
    })
