-- ===== src/Strings.antt =====
-- The string and memory functions of libc/string.c and sys/system.c, over a memory that maps an
-- address to its byte. A loop takes fuel, and one step for each turn; `none` is a loop still going.
pub mod Copy
pub mod Compare
pub mod Blocks
pub mod Digits
use os.Common.{
  ℕ, zero, suc, ◌+◌, ◌-◌, ◌%◌, ◌/◌, ◌^◌, Bool, true, false, not, ◌&&◌, Option, none, some, List, [],
  ◌∷◌, ltb, leb, ◌==◌, if◌then◌else◌,
}
use os.Common.Int.{ℤ, pos, negsuc, sub_ℕ}
use os.Common.Links.{update}

abbrev pub Memory : Type 0
Memory = ℕ → ℕ

-- The value of a byte as a `char`, less that of another: the result of the comparisons.
abbrev pub char_difference : ℕ → ℕ → ℤ
char_difference a b =
    if ltb ((a + 128) % 256) ((b + 128) % 256)
    then negsuc ((b + 128) % 256 - (a + 128) % 256 - 1)
    else pos ((a + 128) % 256 - (b + 128) % 256)

-- `*current1 && *current2 && *current1 == *current2`.
abbrev pub alike : Memory → ℕ → ℕ → Bool
alike m a b = not (m a == 0) && (not (m b == 0) && (m a == m b))

unfoldable pub strcmp : ℕ → Memory → ℕ → ℕ → Option ℤ
strcmp zero m a b = none
strcmp (suc fuel) m a b =
    let rest = strcmp fuel m (suc a) (suc b) in
    if alike m a b then rest else some (char_difference (m b) (m a))

-- `num` is an `unsigned int` and `count` an `int`, below 2 ^ 31.
unfoldable pub strncmp : ℕ → Memory → ℕ → ℕ → ℕ → ℕ → Option ℤ
strncmp zero m a b count num = none
strncmp (suc fuel) m a b count num =
    let rest = strncmp fuel m (suc a) (suc b) (suc count) num in
    if alike m a b
    then (if suc count == num then some (pos 0) else rest)
    else some (char_difference (m b) (m a))

unfoldable pub strlen_from : ℕ → Memory → ℕ → ℕ → Option ℕ
strlen_from zero m p len = none
strlen_from (suc fuel) m p len =
    let rest = strlen_from fuel m (suc p) (suc len) in if m p == 0 then some len else rest

unfoldable pub strlen : ℕ → Memory → ℕ → Option ℕ
strlen fuel m str = strlen_from fuel m str 0

-- The loop of `strcpy` from index `i` on, and the terminating null byte.
unfoldable pub strcpy_from : ℕ → Memory → ℕ → ℕ → ℕ → Option Memory
strcpy_from zero m target src i = none
strcpy_from (suc fuel) m target src i =
    let rest = strcpy_from fuel (update m (target + i) (m (src + i))) target src (suc i) in
    if m (src + i) == 0 then some (update m (target + i) 0) else rest

unfoldable pub strcpy : ℕ → Memory → ℕ → ℕ → Option Memory
strcpy fuel m target src = strcpy_from fuel m target src 0

-- The kernel's own, sys/kstring.c: the same loops, with the arguments of the copy in the other order.
unfoldable pub kstrlen : ℕ → Memory → ℕ → Option ℕ
kstrlen fuel m str = strlen_from fuel m str 0

unfoldable pub kstrcpy : ℕ → Memory → ℕ → ℕ → Option Memory
kstrcpy fuel m src dest = strcpy_from fuel m dest src 0

-- Null bytes at the indices from `i` on, `n` of them.
unfoldable pub fill_null : ℕ → Memory → ℕ → ℕ → Memory
fill_null zero m target i = m
fill_null (suc n) m target i = fill_null n (update m (target + i) 0) target (suc i)

-- The first loop of `strncpy` with `n` bytes to go, and the second one.
unfoldable pub strncpy_from : ℕ → Memory → ℕ → ℕ → ℕ → Memory
strncpy_from zero m target src i = m
strncpy_from (suc n) m target src i =
    let rest = strncpy_from n (update m (target + i) (m (src + i))) target src (suc i) in
    if m (src + i) == 0 then fill_null (suc n) m target i else rest

-- `n` is not negative.
unfoldable pub strncpy : ℕ → Memory → ℕ → ℕ → Memory
strncpy n m target src = strncpy_from n m target src 0

-- `while (*cursor) cursor++;`
unfoldable pub seek_null : ℕ → Memory → ℕ → Option ℕ
seek_null zero m cursor = none
seek_null (suc fuel) m cursor =
    let rest = seek_null fuel m (suc cursor) in if m cursor == 0 then some cursor else rest

-- The second loop of `strcat`.
unfoldable pub append_from : ℕ → Memory → ℕ → ℕ → Option Memory
append_from zero m cursor src = none
append_from (suc fuel) m cursor src =
    let rest = append_from fuel (update m cursor (m src)) (suc cursor) (suc src) in
    if m src == 0 then some m else rest

unfoldable pub strcat : ℕ → Memory → ℕ → ℕ → Option Memory
strcat fuel m dest src = elim (seek_null fuel m dest) [
  | none ↦ none
  | some cursor ↦ append_from fuel m cursor src
]

-- `strchr`: the loop tests the pointer, not the byte.
unfoldable pub strchr : ℕ → Memory → ℕ → ℕ → Option ℕ
strchr zero m cursor character = none
strchr (suc fuel) m cursor character =
    let rest = strchr fuel m (suc cursor) character in
    if cursor == 0 then some 0 else if m cursor == character then some cursor else rest

-- The inner loop of `strtok`: is the byte one of the delimiters from `d` on?
unfoldable pub is_delimiter : ℕ → Memory → ℕ → ℕ → Option Bool
is_delimiter zero m d byte = none
is_delimiter (suc fuel) m d byte =
    let rest = is_delimiter fuel m (suc d) byte in
    if m d == 0 then some false else if byte == m d then some true else rest

-- What `strtok` returns, the memory, and `position`.
unfoldable pub last_token : Memory → ℕ → ℕ → ℕ × Memory × ℕ
last_token m position index =
    if m position == 0 then (0, m, position) else (position, m, position + index)

unfoldable pub strtok_from : ℕ → Memory → ℕ → ℕ → ℕ → Option (ℕ × Memory × ℕ)
strtok_from zero m delimiters position index = none
strtok_from (suc fuel) m delimiters position index =
    let rest = strtok_from fuel m delimiters position (suc index) in
    if m (position + index) == 0
    then some (last_token m position index)
    else elim (is_delimiter fuel m delimiters (m (position + index))) [
      | none ↦ none
      | some true ↦ some (position, update m (position + index) 0, position + index + 1)
      | some false ↦ rest
    ]

-- With a null `str`, the saved position.
unfoldable pub strtok : ℕ → Memory → ℕ → ℕ → ℕ → Option (ℕ × Memory × ℕ)
strtok fuel m str delimiters position =
    strtok_from fuel m delimiters (if str == 0 then position else str) 0

-- The copies of `strcat` and `strtok` in sys/system.c.
unfoldable pub kstrcat : ℕ → Memory → ℕ → ℕ → Option Memory
kstrcat fuel m dest src = elim (seek_null fuel m dest) [
  | none ↦ none
  | some cursor ↦ append_from fuel m cursor src
]

unfoldable pub kstrtok : ℕ → Memory → ℕ → ℕ → ℕ → Option (ℕ × Memory × ℕ)
kstrtok fuel m str delimiters position =
    strtok_from fuel m delimiters (if str == 0 then position else str) 0

-- `while(n-- > 0) *a++ = *b++;`
unfoldable pub memcpy_up : ℕ → Memory → ℕ → ℕ → Memory
memcpy_up zero m b a = m
memcpy_up (suc n) m b a = memcpy_up n (update m a (m b)) (suc b) (suc a)

-- `while(n-- > 0) *--a = *--b;` from the ends `b + n` and `a + n`.
unfoldable pub memcpy_down : ℕ → Memory → ℕ → ℕ → Memory
memcpy_down zero m b a = m
memcpy_down (suc n) m b a = memcpy_down n (update m (a + n) (m (b + n))) b a

unfoldable pub memcpy : Memory → ℕ → ℕ → ℕ → Memory
memcpy m src dst count = memcpy_up count m src dst

-- The sum of a pointer and a number is taken in 64 bits.
unfoldable pub memmove : Memory → ℕ → ℕ → ℕ → Memory
memmove m src dst n =
    if ltb dst src && ltb ((src + n) % 2 ^ 64) dst
    then memcpy_down n m src dst
    else memcpy_up n m src dst

unfoldable pub memcmp : Memory → ℕ → ℕ → ℕ → ℤ
memcmp m str1 str2 zero = pos 0
memcmp m str1 str2 (suc count) =
    let rest = memcmp m (suc str1) (suc str2) count in
    if m str1 == m str2 then rest else sub_ℕ (m str1) (m str2)

-- 0 is the null pointer.
unfoldable pub memchr : Memory → ℕ → ℕ → ℕ → ℕ
memchr m str ch zero = 0
memchr m str ch (suc count) =
    let rest = memchr m (suc str) ch count in if ch % 256 == m str then str else rest

-- The digits that `kint_to_str` writes, the last one first, for an `i` that is not negative. The
-- characters of `Rep`, sixteen of them, are given by their index.
unfoldable pub digit_of : ℕ → ℕ
digit_of d = if ltb d 10 then b'0' + d else b'A' + (d - 10)

unfoldable pub write_digits : ℕ → ℕ → ℕ → List ℕ → Option (List ℕ)
write_digits zero base i done = none
write_digits (suc fuel) base i done =
    let rest = write_digits fuel base (i / base) (digit_of (i % base) ∷ done) in
    if i / base == 0 then some (digit_of (i % base) ∷ done) else rest

-- The string at the returned pointer.
unfoldable pub kint_to_str : ℕ → ℕ → Option (List ℕ)
kint_to_str i base = write_digits 32 base i []
