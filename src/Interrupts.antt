-- ===== src/Interrupts.antt =====
-- Interrupts, sys/isr.c: the keyboard decoder `printkey`, and `isr_handler`, which calls it and the
-- clock. `scancode` is what the port of the keyboard gives.
pub mod Keys
pub mod Safety
use os.Common.{
  ℕ, zero, suc, ◌+◌, ◌-◌, ◌*◌, ◌/◌, ◌%◌, ◌^◌, Bool, true, false, not, ◌&&◌, ◌||◌, Option, none,
  some, List, [], ◌∷◌, ◌++◌, ltb, leb, ◌==◌, if◌then◌else◌, get_or, replicate, map,
}
use os.Common.Int.{ℤ}
use os.Common.Links.{update}
use os.Clock.{Clock, add_tick}
use os.Terminal.{Terminal, term_putchar}

-- A key with a character of its own when shift is down.
abbrev pub both : ℕ → ℕ → ℕ
both high low = high * 256 + low

-- The table of the keys, by scancode.
abbrev pub kbtb : List ℕ
kbtb =
    0
      ∷ 27
      ∷ both b'!' b'1'
      ∷ both b'@' b'2'
      ∷ both b'#' b'3'
      ∷ both b'$' b'4'
      ∷ both b'%' b'5'
      ∷ both b'^' b'6'
      ∷ both b'&' b'7'
      ∷ both b'*' b'8'
      ∷ both b'(' b'9'
      ∷ both b')' b'0'
      ∷ both b'_' b'-'
      ∷ both b'+' b'='
      ∷ 8
      ∷ b'I'
      ∷ b'q'
      ∷ b'w'
      ∷ b'e'
      ∷ b'r'
      ∷ b't'
      ∷ b'y'
      ∷ b'u'
      ∷ b'i'
      ∷ b'o'
      ∷ b'p'
      ∷ both b'{' b'['
      ∷ both b'}' b']'
      ∷ b'\n'
      ∷ 0
      ∷ b'a'
      ∷ b's'
      ∷ b'd'
      ∷ b'f'
      ∷ b'g'
      ∷ b'h'
      ∷ b'j'
      ∷ b'k'
      ∷ b'l'
      ∷ both b':' b';'
      ∷ both 34 39
      ∷ both b'~' 96
      ∷ 0
      ∷ both b'|' 92
      ∷ b'z'
      ∷ b'x'
      ∷ b'c'
      ∷ b'v'
      ∷ b'b'
      ∷ b'n'
      ∷ b'm'
      ∷ both b'<' b','
      ∷ both b'>' b'.'
      ∷ both b'?' b'/'
      ∷ 0
      ∷ b'*'
      ∷ 0
      ∷ b' '
      ∷ replicate 16 0
    ++ b'-' ∷ 0 ∷ 0 ∷ 0 ∷ b'+' ∷ replicate 49 0

-- SHIFT and CTRL.
pub record Keyboard : Type 0 where
  pub shift : Bool
  pub ctrl : Bool

-- A `short` of the table as the `char` that is passed on, in its bits.
abbrev pub char_of : Bool → ℕ → ℕ
char_of shift e =
    if shift then (if ltb 96 e && ltb e 126 then e - 32 else e / 256) % 256 else e % 256

abbrev pub is_special : ℕ → Bool
is_special scancode = scancode == 28 || (scancode == 15 || scancode == 14)

-- A pressed key other than the special ones.
unfoldable pub press_key : ℕ → Keyboard → Option (ℕ × Bool) × Keyboard
press_key scancode k =
    if scancode == 42
    then (none, record k { shift = true })
    else if scancode == 29
    then (none, record k { ctrl = true })
    else (some (char_of k.shift (get_or kbtb (scancode % 128) 0), k.ctrl), k)

unfoldable pub release_key : ℕ → Keyboard → Keyboard
release_key scancode k =
    if scancode == 170
    then record k { shift = false }
    else if scancode == 157
    then record k { ctrl = false }
    else k

-- The arguments of the call of `update_kkbd`, if there is one.
unfoldable pub printkey : ℕ → Keyboard → Option (ℕ × Bool) × Keyboard
printkey scancode k =
    if is_special scancode
    then (some (get_or kbtb (scancode % 128) 0 % 256, true), k)
    else if ltb scancode 128
    then press_key scancode k
    else (none, release_key scancode k)

-- The key that `update_kkbd` hands to the terminal: with control, the capital letter.
unfoldable pub control_key : ℕ → Bool → ℕ
control_key key ctrl = if ctrl && (ltb 96 key && ltb key 126) then key - 32 else key

-- The cells in the corner of the screen that show the key.
unfoldable pub show_key : ℕ → Bool → (ℕ → ℕ) → ℕ → ℕ
show_key key ctrl video =
    let at : ℕ = if ctrl then 1996 else 1995 in
    let marked : ℕ → ℕ = if ctrl then update video 1995 1886 else video in
    update (update marked at (1792 + key)) (at + 1) 1824

-- What an interrupt makes the kernel do besides.
pub data Effect : Type 0 where
  message : ℕ → Effect
  error_code : ℕ → Effect
  page_fault : ℕ → Effect
  show_time : ℕ × ℕ → Effect
  echo : ℕ → Effect
  outb : ℕ → ℕ → Effect

pub record Machine : Type 0 where
  pub clock : Clock
  pub keyboard : Keyboard
  pub terminal : Terminal
  pub video : ℕ → ℕ

unfoldable pub update_kkbd : ℕ × Bool → Machine → Machine × List Effect
update_kkbd (key, ctrl) m =
    let a : ℕ = control_key key ctrl in
    let (ret, out, t) = term_putchar m.terminal a in
    (record m { terminal = t; video = show_key a ctrl m.video }, map echo out)

-- `printkey`, with the call of `update_kkbd`.
unfoldable pub key_pressed : Option (ℕ × Bool) × Keyboard → Machine → Machine × List Effect
key_pressed (none, k) m = (record m { keyboard = k }, [])
key_pressed (some key, k) m = update_kkbd key (record m { keyboard = k })

unfoldable pub tick : Machine → Machine × List Effect
tick m = let (c, shown) = add_tick m.clock in (record m { clock = c }, map show_time shown)

-- `irq_func[num - 32]`.
unfoldable pub irq_func : ℕ → ℕ → Machine → Machine × List Effect
irq_func num scancode m =
    if num == 32
    then tick m
    else if num == 33
    then key_pressed (printkey scancode m.keyboard) m
    else (m, [])

-- The acknowledgement, to the slave and to the master.
abbrev pub acknowledge : ℕ → List Effect
acknowledge num = (if leb 40 num then outb 160 32 ∷ [] else []) ++ outb 32 32 ∷ []

unfoldable pub isr_handler : ℕ → ℕ → ℕ → Machine → Machine × List Effect
isr_handler num err scancode m =
    let (m2, effects) = irq_func num scancode m in
    if ltb num 32
    then (
      m,
      message (if ltb 18 num then 19 else num)
          ∷ ((if err == num then [] else error_code err ∷ [])
              ++ (if num == 14 then page_fault err ∷ [] else [])),
    )
    else if ltb num 48
    then (m2, effects ++ acknowledge num)
    else (m, [])
