-- ===== src/Terminal/Line.antt =====
-- The abstract view of the terminal of sys/kprintf.c: complete input, and the line being edited.
use os.Common.{
  ℕ, suc, ◌+◌, ◌-◌, ◌%◌, ◌<◌, ◌≡◌, refl, ◌≢◌, ◌∙◌, ap, sym, arith, Bool, true, false, ◌&&◌, List,
  [], ◌∷◌, ◌++◌, ltb, if◌then◌else◌, length, get_or,
}
use os.Common.Int.{pos}
use os.Terminal.{Terminal, term_push, term_pop, to_int, is_delim}
use os.Terminal.Ring.{
  IsValid, used, contents, length-contents, popped, term_push-IsValid, contents-term_push,
  term_pop_cons, contents-popped,
}

-- The number of line ends and EOT characters.
abbrev pub delims : List ℕ → ℕ
delims [] = 0
delims (x ∷ xs) = if is_delim x then suc (delims xs) else delims xs

-- Every byte is a character of the keyboard's table, so widening it does not change its sign.
abbrev pub ascii : List ℕ → Bool
ascii [] = true
ascii (x ∷ xs) = ltb x 128 && ascii xs

abbrev pub drop_last : List ℕ → List ℕ
drop_last [] = []
drop_last (x ∷ []) = []
drop_last (x ∷ y ∷ xs) = x ∷ drop_last (y ∷ xs)

pub drop_last-snoc : (xs : List ℕ) (a : ℕ) → drop_last (xs ++ a ∷ []) ≡ xs
drop_last-snoc [] a = refl
drop_last-snoc (x ∷ []) a = refl
drop_last-snoc (x ∷ y ∷ xs) a = ap (λ l. x ∷ l) (drop_last-snoc (y ∷ xs) a)

pub drop_last-append : (xs ys : List ℕ) → ys ≢ [] → drop_last (xs ++ ys) ≡ xs ++ drop_last ys
drop_last-append [] ys h = refl
drop_last-append (x ∷ []) [] h = absurd (h refl)
drop_last-append (x ∷ []) (y ∷ ys) h = refl
drop_last-append (x ∷ z ∷ xs) ys h = ap (λ l. x ∷ l) (drop_last-append (z ∷ xs) ys h)

pub delims-append : (xs ys : List ℕ) → delims (xs ++ ys) ≡ delims xs + delims ys
delims-append [] ys = omega arith
delims-append (x ∷ xs) ys = ground (arith, delims-append xs ys)

pub ascii-append : (xs ys : List ℕ) → ascii (xs ++ ys) ≡ (ascii xs && ascii ys)
ascii-append [] ys = refl
ascii-append (x ∷ xs) ys = ground (arith, ascii-append xs ys)

pub delims-drop_last : (xs : List ℕ) → delims xs ≡ 0 → delims (drop_last xs) ≡ 0
delims-drop_last [] h = refl
delims-drop_last (x ∷ []) h = refl
delims-drop_last (x ∷ y ∷ xs) h = ground (arith, delims-drop_last (y ∷ xs))

pub ascii-drop_last : (xs : List ℕ) → ascii xs ≡ true → ascii (drop_last xs) ≡ true
ascii-drop_last [] h = refl
ascii-drop_last (x ∷ []) h = refl
ascii-drop_last (x ∷ y ∷ xs) h = ground (arith, ascii-drop_last (y ∷ xs))

pub length-drop_last : (xs : List ℕ) → length (drop_last xs) ≡ length xs - 1
length-drop_last [] = refl
length-drop_last (x ∷ []) = refl
length-drop_last (x ∷ y ∷ xs) = omega (arith, length-drop_last (y ∷ xs))

-- The terminal holds exactly these bytes, and `count` is the number of delimiters among them.
pub record Body (t : Terminal) (xs : List ℕ) : Type 0 where
  pub valid : IsValid t
  pub bytes : contents t ≡ xs
  pub counted : t.count ≡ delims xs % 256
  pub keys : ascii xs ≡ true

-- Complete input `pre`, and the line `line` that backspace may still change.
pub record Holds (t : Terminal) (pre line : List ℕ) : Type 0 where
  pub body : Body t (pre ++ line)
  pub edit : t.backspace ≡ length line
  pub plain : delims line ≡ 0

pub used-Body : {t : Terminal} {xs : List ℕ} → Body t xs → used t ≡ length xs
used-Body {t} b = sym (length-contents t) ∙ ap length b.bytes

pub count-term_push :
    (t : Terminal) (a : ℕ)
    → (term_push t a).count ≡ (if is_delim a then (t.count + 1) % 256 else t.count)
unfolding term_push
count-term_push t a = ground arith

pub term_push-Body :
    {t : Terminal} {xs : List ℕ} (a : ℕ)
    → Body t xs
    → a < 128
    → length xs < 256
    → Body (term_push t a) (xs ++ a ∷ [])
term_push-Body {t} {xs} a b h room =
    let open_ : t.full ≡ false = ground (arith, used-Body b) in
    record {
      valid = term_push-IsValid b.valid a open_;
      bytes = contents-term_push b.valid a open_ ∙ ap (λ l. l ++ a ∷ []) b.bytes;
      counted = ground (arith, b.counted, count-term_push t a, delims-append xs (a ∷ []));
      keys = ground (arith, b.keys, ascii-append xs (a ∷ []));
    }

to_int_key : (c : ℕ) (xs : List ℕ) → ascii (c ∷ xs) ≡ true → to_int c ≡ pos c
to_int_key c xs h = ground arith

ascii-tail : (c : ℕ) (xs : List ℕ) → ascii (c ∷ xs) ≡ true → ascii xs ≡ true
ascii-tail c xs h = ground arith

count_popped :
    (k d c : ℕ)
    → k ≡ (if is_delim c then suc d else d) % 256
    → (if is_delim c then (k + 255) % 256 else k) ≡ d % 256
count_popped k d c h = ground arith

pub term_pop-Body :
    {t : Terminal} {c : ℕ} {xs : List ℕ}
    → Body t (c ∷ xs)
    → (term_pop t ≡ (pos c, popped t)) × Body (popped t) xs
term_pop-Body {t} {c} {xs} b =
    let u : used t ≡ suc (length xs) = used-Body b in
    let e : get_or t.buf t.start 0 ∷ contents (popped t) ≡ c ∷ xs =
      sym (contents-popped b.valid (length xs) u) ∙ b.bytes in
    let head : get_or t.buf t.start 0 ≡ c = cc in
    let parts = term_pop_cons b.valid (length xs) u in
    (
      parts.0 ∙ ap (λ i. (i, popped t)) (ap to_int head ∙ to_int_key c xs b.keys),
      record {
        valid = parts.1;
        bytes = cc;
        counted = rw head (count_popped t.count (delims xs) c b.counted);
        keys = ascii-tail c xs b.keys;
      },
    )

-- How much may be erased is no part of what the ring holds.
pub Body-backspace :
    {t : Terminal} {xs : List ℕ} (k : ℕ) → Body t xs → Body (record t { backspace = k }) xs
Body-backspace k b = record {
  valid = record {
    start_in = b.valid.start_in;
    end_in = b.valid.end_in;
    room = b.valid.room;
    full_iff = b.valid.full_iff;
  };
  bytes = b.bytes;
  counted = b.counted;
  keys = b.keys;
}

pub backspace-term_push :
    (t : Terminal) (a : ℕ) → (term_push t a).backspace ≡ (if is_delim a then 0 else t.backspace)
unfolding term_push
backspace-term_push t a = ground arith
