-- ===== src/Elf/Stack.antt =====
-- The arguments on the stack of a new task: the end of `load_elf` of sys/elf64.c.
use os.Common.{
  ℕ, ◌+◌, ◌-◌, ◌*◌, ◌^◌, ◌≤◌, ◌<◌, ◌≡◌, refl, ◌∙◌, sym, arith, Bool, true, false, some, ◌&&◌, List,
  [], ◌∷◌, ◌++◌, length-append, ltb, length, inr,
}
use mathlib.Core.Path.{subst}
use mathlib.Core.List.{append-nil}
use os.Strings.{Memory}
use os.Strings.Copy.{IsString, Strings}
use os.Elf.{
  store64, put_string, store_strings, push, push_words, fits_buffer, store_buffers, store_arguments,
}
use os.Elf.Words.{
  load64-store64, Same, Words, Words-Same, IsString-Same, all_plain, size, put_string-elsewhere,
  put_string-IsString,
}

-- The strings are there, none of them below `lo`, at addresses below `hi`.
abbrev Stored : Memory → ℕ → ℕ → List ℕ → List (List ℕ) → Type 0
Stored m lo hi [] [] = true ≡ true
Stored m lo hi [] (s ∷ strings) = true ≡ false
Stored m lo hi (p ∷ ps) [] = true ≡ false
Stored m lo hi (p ∷ ps) (s ∷ strings) =
    IsString m p s × (lo ≤ p) × (p < hi) × Stored m lo hi ps strings

Stored-Same :
    (ps : List ℕ) (strings : List (List ℕ)) (m m' : Memory) (lo hi : ℕ)
    → Same lo m m'
    → Stored m lo hi ps strings
    → Stored m' lo hi ps strings
Stored-Same [] [] m m' lo hi s h = refl
Stored-Same [] (x ∷ xs) m m' lo hi s h = h
Stored-Same (p ∷ ps) [] m m' lo hi s h = h
Stored-Same (p ∷ ps) (x ∷ xs) m m' lo hi s h =
    (IsString-Same x m m' lo p s h.1 h.0, h.1, h.2, Stored-Same ps xs m m' lo hi s h.3)

Stored-lower :
    (ps : List ℕ) (strings : List (List ℕ)) (m : Memory) (lo lo' hi : ℕ)
    → lo' ≤ lo
    → Stored m lo hi ps strings
    → Stored m lo' hi ps strings
Stored-lower [] [] m lo lo' hi l h = refl
Stored-lower [] (x ∷ xs) m lo lo' hi l h = h
Stored-lower (p ∷ ps) [] m lo lo' hi l h = h
Stored-lower (p ∷ ps) (x ∷ xs) m lo lo' hi l h =
    (h.0, omega (arith, h.1), h.2, Stored-lower ps xs m lo lo' hi l h.3)

Stored-Strings :
    (ps : List ℕ) (strings : List (List ℕ)) (m : Memory) (lo hi : ℕ)
    → Stored m lo hi ps strings
    → Strings m ps strings × (length ps ≡ length strings)
Stored-Strings [] [] m lo hi h = (refl, refl)
Stored-Strings [] (x ∷ xs) m lo hi h = absurd (ground (arith, h))
Stored-Strings (p ∷ ps) [] m lo hi h = absurd (ground (arith, h))
Stored-Strings (p ∷ ps) (x ∷ xs) m lo hi h =
    let (s, e) = Stored-Strings ps xs m lo hi h.3 in ((h.0, s), omega (arith, e))

-- After the strings: where the stack is, what stands there, and what has not changed.
record StringsPushed (m : Memory) (ss : ℕ) (strings : List (List ℕ)) (r : Memory × ℕ × List ℕ)
    : Type 0 where
  down : r.1 + size strings ≡ ss
  stored : Stored r.0 r.1 ss r.2 strings
  same : Same ss m r.0

store_strings-pushed :
    (strings : List (List ℕ)) (m : Memory) (ss : ℕ)
    → size strings ≤ ss
    → all_plain strings ≡ true
    → StringsPushed m ss strings (store_strings strings (m, ss))
unfolding store_strings
store_strings-pushed [] m ss h b = record { down = omega arith; stored = refl; same = λ a l. refl }
store_strings-pushed (x ∷ xs) m ss h b =
    let ih = store_strings-pushed xs m ss (omega arith) (ground (arith, b)) in
    let r = store_strings xs (m, ss) in
    let ss2 = r.1 - (length x + 1) in
    let down : ss2 + (length x + 1) ≡ r.1 = omega (arith, ih.down) in
    let kept : Same r.1 r.0 (put_string r.0 ss2 x) =
      λ a l. put_string-elsewhere x r.0 ss2 a (inr (omega arith)) in
    record {
      down = omega (arith, ih.down);
      stored = (
        put_string-IsString x r.0 ss2 (ground (arith, b)),
        omega arith,
        omega (arith, ih.down),
        Stored-lower r.2 xs _ r.1 ss2 ss (omega arith)
            (Stored-Same r.2 xs r.0 _ r.1 ss kept ih.stored),
      );
      same = λ a l. kept a (omega (arith, ih.down)) ∙ ih.same a l;
    }

record WordsPushed (m : Memory) (ss : ℕ) (vs : List ℕ) (r : Memory × ℕ) : Type 0 where
  down : r.1 + 8 * length vs ≡ ss
  words : Words r.0 r.1 vs
  same : Same ss m r.0

abbrev bounded : List ℕ → Bool
bounded [] = true
bounded (v ∷ vs) = ltb v (2 ^ 64) && bounded vs

store64-Same : (m : Memory) (a v : ℕ) → Same (a + 8) m (store64 m a v)
store64-Same m a v q l = ground arith

push-pushed :
    (v : ℕ) (m : Memory) (ss : ℕ) (vs : List ℕ) (r : Memory × ℕ)
    → v < 2 ^ 64
    → 8 ≤ r.1
    → WordsPushed m ss vs r
    → WordsPushed m ss (v ∷ vs) (push v r)
push-pushed v m ss vs r b room w =
    let e : r.1 - 8 + 8 ≡ r.1 = omega arith in
    let kept : Same r.1 r.0 (store64 r.0 (r.1 - 8) v) =
      λ a l. store64-Same r.0 (r.1 - 8) v a (omega arith) in
    record {
      down = omega (arith, w.down);
      words = (
        load64-store64 r.0 (r.1 - 8) v b,
        subst (λ a. Words (store64 r.0 (r.1 - 8) v) a vs) (sym e)
            (Words-Same vs r.0 _ r.1 r.1 kept (omega arith) w.words),
      );
      same = λ a l. kept a (omega (arith, w.down)) ∙ w.same a l;
    }

push_words-pushed :
    (vs ws : List ℕ) (m : Memory) (ss : ℕ) (r : Memory × ℕ)
    → 8 * length vs ≤ r.1
    → bounded vs ≡ true
    → WordsPushed m ss ws r
    → WordsPushed m ss (vs ++ ws) (push_words vs r)
unfolding push_words
push_words-pushed [] ws m ss r h b w = w
push_words-pushed (v ∷ vs) ws m ss r h b w =
    let ih = push_words-pushed vs ws m ss r (omega arith) (ground (arith, b)) w in
    push-pushed v m ss (vs ++ ws) (push_words vs r) (ground (arith, b))
      (omega (arith, ih.down, w.down, length-append vs ws)) ih

Stored-bounded :
    (ps : List ℕ) (strings : List (List ℕ)) (m : Memory) (lo hi : ℕ)
    → hi < 2 ^ 64
    → Stored m lo hi ps strings
    → bounded ps ≡ true
Stored-bounded [] [] m lo hi l h = refl
Stored-bounded [] (x ∷ xs) m lo hi l h = refl
Stored-bounded (p ∷ ps) [] m lo hi l h = absurd (ground (arith, h))
Stored-bounded (p ∷ ps) (x ∷ xs) m lo hi l h =
    let ih = Stored-bounded ps xs m lo hi l h.3 in
    let low : p < 2 ^ 64 = omega (arith, h.2) in ground (arith, ih, low)

-- What a task finds from `sp` on: the number of the arguments, their addresses, null, and the
-- addresses of the environment, with the strings at these addresses; from `top` on nothing differs.
pub record Layout (args env : List (List ℕ)) (m : Memory) (top : ℕ) (m' : Memory) (sp : ℕ)
    : Type 0 where
  pub argv : List ℕ
  pub envp : List ℕ
  pub words : Words m' sp (length args ∷ argv ++ 0 ∷ envp)
  pub args_there : Strings m' argv args
  pub env_there : Strings m' envp env
  pub down : sp + (size args + size env + 8 * (length args + length env + 2)) ≡ top
  pub above : (a : ℕ) → top ≤ a → m' a ≡ m a

store_buffers-Layout :
    (args env : List (List ℕ)) (start_stack : ℕ) (m : Memory)
    → all_plain args ≡ true
    → all_plain env ≡ true
    → size args + size env + 8 * (length args + length env + 2) ≤ start_stack
    → start_stack < 2 ^ 64
    → Layout args env m start_stack
        (store_buffers args env start_stack m).0
        (store_buffers args env start_stack m).1
unfolding store_buffers
store_buffers-Layout args env start_stack m pa pe room low =
    let r1 = store_strings env (m, start_stack) in
    let s1 = store_strings-pushed env m start_stack (omega arith) pe in
    let r2 = store_strings args (r1.0, r1.1) in
    let s2 = store_strings-pushed args r1.0 r1.1 (omega (arith, s1.down)) pa in
    let (e_strings, e_len) = Stored-Strings r1.2 env r1.0 _ _ s1.stored in
    let (a_strings, a_len) = Stored-Strings r2.2 args r2.0 _ _ s2.stored in
    let start : WordsPushed r2.0 r2.1 [] (r2.0, r2.1) = record {
      down = omega arith;
      words = refl;
      same = λ a l. refl;
    } in
    let w3 =
      push_words-pushed r1.2 [] r2.0 r2.1 (r2.0, r2.1) (omega (arith, s1.down, s2.down, e_len))
        (Stored-bounded r1.2 env r1.0 _ _ low s1.stored) start in
    let w3' : WordsPushed r2.0 r2.1 r1.2 (push_words r1.2 (r2.0, r2.1)) =
      subst (λ ws. WordsPushed r2.0 r2.1 ws (push_words r1.2 (r2.0, r2.1))) (append-nil r1.2) w3 in
    let w4 =
      push-pushed 0 r2.0 r2.1 r1.2 _ (omega arith)
        (omega (arith, s1.down, s2.down, w3'.down, e_len)) w3' in
    let w5 =
      push_words-pushed r2.2 (0 ∷ r1.2) r2.0 r2.1 _
        (omega (arith, s1.down, s2.down, w4.down, e_len, a_len))
        (Stored-bounded r2.2 args r2.0 _ _ (omega (arith, s1.down)) s2.stored) w4 in
    let count = length-append r2.2 (0 ∷ r1.2) in
    let w6 =
      push-pushed (length args) r2.0 r2.1 (r2.2 ++ 0 ∷ r1.2) _ (omega arith)
        (omega (arith, s1.down, s2.down, w5.down, e_len, a_len, count)) w5 in
    let top = r2.1 in
    record {
      argv = r2.2;
      envp = r1.2;
      words = w6.words;
      args_there =
          (Stored-Strings r2.2 args _ _ _
            (Stored-Same r2.2 args r2.0 _ r2.1 r1.1 w6.same s2.stored)).0;
      env_there =
          (Stored-Strings r1.2 env _ _ _ (
            Stored-Same r1.2 env r1.0 _ r1.1 start_stack
              (λ a l. w6.same a (omega (arith, s2.down)) ∙ s2.same a l) s1.stored)).0;
      down = omega (arith, s1.down, s2.down, w6.down, e_len, a_len, count);
      above = λ a l.
          w6.same a (omega (arith, s1.down, s2.down))
          ∙ s2.same a (omega (arith, s1.down))
          ∙ s1.same a l;
    }

-- For at most ten arguments and ten strings of the environment, each of less than 100 bytes and without
-- null bytes, that fit below `start_stack`, the new task finds at its stack pointer the number of the
-- arguments, behind it the addresses of the arguments, null, and the addresses of the environment's
-- strings; at the addresses stand the strings, in order; the stack has gone down by what these take,
-- and nothing from `start_stack` on has changed.
pub store_arguments-Layout :
    (args env : List (List ℕ)) (start_stack : ℕ) (m : Memory)
    → fits_buffer args ≡ true
    → fits_buffer env ≡ true
    → all_plain args ≡ true
    → all_plain env ≡ true
    → size args + size env + 8 * (length args + length env + 2) ≤ start_stack
    → start_stack < 2 ^ 64
    → (m' : Memory) × (sp : ℕ) × (store_arguments args env start_stack m ≡ some (m', sp))
      × Layout args env m start_stack m' sp
unfolding store_arguments
store_arguments-Layout args env start_stack m fa fe pa pe room low = (
  (store_buffers args env start_stack m).0,
  (store_buffers args env start_stack m).1,
  rw (fa, fe) refl,
  store_buffers-Layout args env start_stack m pa pe room low,
)
