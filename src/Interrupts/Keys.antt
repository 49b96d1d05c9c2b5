-- ===== src/Interrupts/Keys.antt =====
-- The keys that the decoder of sys/isr.c hands to the terminal.
use os.Common.{
  ℕ, zero, suc, ◌-◌, ◌%◌, ◌≡◌, refl, arith, Bool, true, false, not, ◌&&◌, Option, none, some, List,
  [], ◌∷◌, ltb, ◌==◌, if◌then◌else◌, get_or, Bool-cases, inl, inr,
}
use os.Interrupts.{Keyboard, kbtb, char_of, is_special, press_key, printkey, control_key}

-- A key that the terminal takes: ASCII, and no tab.
abbrev pub is_key : ℕ → Bool
is_key a = ltb a 128 && not (a == 9)

-- Does the entry of the table give such a key, in every state of shift and control?
abbrev gives_keys : ℕ → Bool
gives_keys e =
    (is_key (char_of false e) && is_key (char_of true e))
    && (is_key (control_key_of (char_of false e)) && is_key (control_key_of (char_of true e)))
  where
    control_key_of : ℕ → ℕ
    control_key_of key = if ltb 96 key && ltb key 126 then key - 32 else key

abbrev all : (ℕ → Bool) → List ℕ → Bool
all p [] = true
all p (x ∷ xs) = p x && all p xs

get_or-all :
    (p : ℕ → Bool) (xs : List ℕ) (i : ℕ) → all p xs ≡ true → p 0 ≡ true → p (get_or xs i 0) ≡ true
get_or-all p [] i h z = z
get_or-all p (x ∷ xs) zero h z = ground (arith, h)
get_or-all p (x ∷ xs) (suc i) h z = get_or-all p xs i (ground (arith, h)) z

table_lem : (i : ℕ) → gives_keys (get_or kbtb i 0) ≡ true
table_lem i = get_or-all gives_keys kbtb i refl refl

-- What the decoder hands on is a key.
abbrev pub hands_key : Option (ℕ × Bool) → Bool
hands_key none = true
hands_key (some (key, ctrl)) = is_key (control_key key ctrl)

entry_hands :
    (shift ctrl : Bool) (e : ℕ)
    → gives_keys e ≡ true
    → is_key (control_key (char_of shift e) ctrl) ≡ true
unfolding control_key
entry_hands true true e h = ground (arith, h)
entry_hands true false e h = ground (arith, h)
entry_hands false true e h = ground (arith, h)
entry_hands false false e h = ground (arith, h)

press_key-hands : (scancode : ℕ) (k : Keyboard) → hands_key (press_key scancode k).0 ≡ true
unfolding press_key
press_key-hands scancode k =
    let entry =
      entry_hands k.shift k.ctrl (get_or kbtb (scancode % 128) 0) (table_lem (scancode % 128)) in
    ground (arith, entry)

special_hands :
    (scancode : ℕ) → is_key (control_key (get_or kbtb (scancode % 128) 0 % 256) true) ≡ true
special_hands scancode =
    entry_hands false true (get_or kbtb (scancode % 128) 0) (table_lem (scancode % 128))

-- Whatever the keyboard sends, in whatever state of shift and control, what the decoder hands to the
-- terminal is an ASCII character and no tab: the key for a tab stands in the table as the letter `I`.
pub printkey-hands : (scancode : ℕ) (k : Keyboard) → hands_key (printkey scancode k).0 ≡ true
unfolding printkey
printkey-hands scancode k =
    let a = special_hands scancode in
    let b = press_key-hands scancode k in
    elim (Bool-cases (is_special scancode)) [
      | inl e ↦ rw e a
      | inr n ↦ elim (Bool-cases (ltb scancode 128)) [
        | inl e ↦ rw (n, e) b
        | inr e ↦ rw (n, e) refl
      ]
    ]
