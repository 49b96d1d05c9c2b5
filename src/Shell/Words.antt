-- ===== src/Shell/Words.antt =====
-- The words of a line as the arguments of a command, in bin/sbush/sbush.c.
use os.Common.{
  ℕ, zero, suc, ◌+◌, ◌≤◌, ◌<◌, ◌≡◌, refl, ◌≢◌, ◌∙◌, ap, arith, Bool, true, false, not, ◌&&◌, ◌||◌,
  some, List, [], ◌∷◌, ◌==◌, leb, length,
}
use mathlib.Core.Path.{subst}
use os.Strings.{Memory}
use os.Strings.Copy.{IsString, Strings}
use os.Shell.{
  Cmd, ecmd, with_entries, skip_blanks, skip_word, is_end, cut, add_entry, getexec_loop, background,
  parsecmd,
}
use os.Shell.Tokens.{fetchtoken_at, getexec_loop_at, getexec_loop_end}
use os.Shell.Ends.{getpipe_one, parsecmd_at, strlen-ends}

-- A character that neither ends nor separates.
abbrev pub in_word : ℕ → Bool
in_word c = not (is_end c) && not (c == 32)

-- The characters of a word from `p` on, none of which ends it, and behind them `t`.
abbrev pub Word : Memory → ℕ → List ℕ → ℕ → Type 0
Word m p [] t = m p ≡ t
Word m p (c ∷ cs) t = (m p ≡ c) × (in_word c ≡ true) × Word m (suc p) cs t

-- What is behind a word, with these words to come.
abbrev pub after : List (List ℕ) → ℕ
after [] = 0
after (w ∷ ws) = 32

-- The line from `p` on: the words, each with a character at least and a single blank between two, and
-- two null bytes.
abbrev pub Line : Memory → ℕ → List (List ℕ) → Type 0
Line m p [] = m p ≡ 0
Line m p (w ∷ ws) = (1 ≤ length w) × Word m p w (after ws) × Line m (suc (p + length w)) ws

-- Where the words start.
abbrev pub starts : ℕ → List (List ℕ) → List ℕ
starts p [] = []
starts p (w ∷ ws) = p ∷ starts (suc (p + length w)) ws

abbrev pub size : List (List ℕ) → ℕ
size [] = 1
size (w ∷ ws) = suc (length w) + size ws

skip_blanks_at :
    (fuel : ℕ) (m : Memory) (p : ℕ) → (m p == 32) ≡ false → skip_blanks (suc fuel) m p ≡ some p
unfolding skip_blanks
skip_blanks_at fuel m p b = rw (skip_blanks, b) refl

skip_word-Word :
    (w : List ℕ) (fuel : ℕ) (m : Memory) (p t : ℕ)
    → Word m p w t
    → (is_end t || t == 32) ≡ true
    → length w < fuel
    → skip_word fuel m p ≡ some (p + length w)
unfolding skip_word
skip_word-Word [] zero m p t h b enough = absurd (omega arith)
skip_word-Word (c ∷ cs) zero m p t h b enough = absurd (omega arith)
skip_word-Word [] (suc fuel) m p t h b enough = ground (arith, h, b)
skip_word-Word (c ∷ cs) (suc fuel) m p t h b enough =
    let ih = skip_word-Word cs fuel m (suc p) t h.2 b (omega arith) in ground (arith, ih, h)

-- What the characters up to a place determine.
Word-frame :
    (w : List ℕ) (m m' : Memory) (p t : ℕ)
    → ((a : ℕ) → p ≤ a → m' a ≡ m a)
    → Word m p w t
    → Word m' p w t
Word-frame [] m m' p t same h = same p (omega arith) ∙ h
Word-frame (c ∷ cs) m m' p t same h = (
  same p (omega arith) ∙ h.0,
  h.1,
  Word-frame cs m m' (suc p) t (λ a l. same a (omega arith)) h.2,
)

Line-frame :
    (ws : List (List ℕ)) (m m' : Memory) (p : ℕ)
    → ((a : ℕ) → p ≤ a → m' a ≡ m a)
    → Line m p ws
    → Line m' p ws
Line-frame [] m m' p same h = same p (omega arith) ∙ h
Line-frame (w ∷ ws) m m' p same h = (
  h.0,
  Word-frame w m m' p (after ws) same h.1,
  Line-frame ws m m' (suc (p + length w)) (λ a l. same a (omega arith)) h.2,
)

-- The word with null behind it is a string.
Word-IsString :
    (w : List ℕ) (m m' : Memory) (p t : ℕ)
    → Word m p w t
    → ((a : ℕ) → a < p + length w → m' a ≡ m a)
    → m' (p + length w) ≡ 0
    → IsString m' p w
Word-IsString [] m m' p t h same z = ground (arith, h, z)
Word-IsString (c ∷ cs) m m' p t h same z =
    let add_lem : p + suc (length cs) ≡ suc p + length cs = omega arith in
    (
      same p (omega arith) ∙ h.0,
      ground (arith, h.1),
      Word-IsString cs m m' (suc p) t h.2 (λ a l. same a (omega arith))
          (subst (λ x. m' x ≡ 0) add_lem z),
    )

Word-last : (w : List ℕ) (m : Memory) (p t : ℕ) → Word m p w t → m (p + length w) ≡ t
Word-last [] m p t h = ground (arith, h)
Word-last (c ∷ cs) m p t h =
    let add_lem : suc p + length cs ≡ p + suc (length cs) = omega arith in
    subst (λ x. m x ≡ t) add_lem (Word-last cs m (suc p) t h.2)

after-stops : (ws : List (List ℕ)) → (is_end (after ws) || after ws == 32) ≡ true
after-stops [] = refl
after-stops (w ∷ ws) = refl

cut_null : (m : Memory) (r : ℕ) (ws : List (List ℕ)) → m r ≡ after ws → (cut m r).0 r ≡ 0
unfolding cut
cut_null m r [] h = ground (arith, h)
cut_null m r (w ∷ ws) h = ground (arith, h)

cut_pair : (m : Memory) (r : ℕ) → some (cut m r) ≡ some ((cut m r).0, suc r)
unfolding cut
cut_pair m r = refl

cut_elsewhere : (m : Memory) (r a : ℕ) → a ≢ r → (cut m r).0 a ≡ m a
unfolding cut
cut_elsewhere m r a h = ground (arith, h)

-- What the loop makes of a line of words.
record Entered (m : Memory) (p : ℕ) (ws : List (List ℕ)) (m' : Memory) (q : ℕ) : Type 0 where
  strings : Strings m' (starts p ws) ws
  before : (a : ℕ) → a < p → m' a ≡ m a
  at_null : m' q ≡ 0

getexec_loop-Line :
    (ws : List (List ℕ)) (fuel : ℕ) (m : Memory) (p : ℕ)
    → Line m p ws
    → size ws ≤ fuel
    → (m' : Memory) × (q : ℕ) × (getexec_loop fuel m p ≡ some (m', q, starts p ws))
      × Entered m p ws m' q
getexec_loop-Line [] zero m p h enough = absurd (omega arith)
getexec_loop-Line (w ∷ ws) zero m p h enough = absurd (omega arith)
getexec_loop-Line [] (suc fuel) m p h enough = (
  m,
  p,
  getexec_loop_end fuel m p (ground (arith, h)),
  record { strings = refl; before = λ a l. refl; at_null = h },
)
getexec_loop-Line ([] ∷ ws) (suc fuel) m p h enough = absurd (omega (arith, h.0))
getexec_loop-Line ((c ∷ cs) ∷ ws) (suc fuel) m p h enough =
    let w = c ∷ cs in
    let r = p + length w in
    let no_blank : (m p == 32) ≡ false = ground (arith, h.1.0, h.1.1) in
    let no_end : is_end (m p) ≡ false = ground (arith, h.1.0, h.1.1) in
    let token =
      fetchtoken_at (suc fuel) m p p r (skip_blanks_at fuel m p no_blank)
        (skip_word-Word w (suc fuel) m p (after ws) h.1 (after-stops ws) (omega arith)) in
    let m1 = (cut m r).0 in
    let kept : (a : ℕ) → a ≢ r → m1 a ≡ m a = cut_elsewhere m r in
    let null = cut_null m r ws (Word-last w m p (after ws) h.1) in
    let line1 = Line-frame ws m m1 (suc r) (λ a l. kept a (λ e. absurd (omega arith))) h.2 in
    let (m2, q, e, i) = getexec_loop-Line ws fuel m1 (suc r) line1 (omega arith) in
    (
      m2,
      q,
      getexec_loop_at fuel m p m1 (suc r) no_end (token ∙ cut_pair m r) ∙ ap (add_entry p) e,
      record {
        strings = (
          Word-IsString w m m2 p (after ws) h.1
              (λ a l. i.before a (omega arith) ∙ kept a (λ e. absurd (omega arith)))
              (i.before r (omega arith) ∙ null),
          i.strings,
        );
        before = λ a l. i.before a (omega arith) ∙ kept a (λ e. absurd (omega arith));
        at_null = i.at_null;
      },
    )

first_no_blank : (m : Memory) (p : ℕ) (ws : List (List ℕ)) → Line m p ws → (m p == 32) ≡ false
first_no_blank m p [] h = ground (arith, h)
first_no_blank m p ([] ∷ ws) h = absurd (omega (arith, h.0))
first_no_blank m p ((c ∷ cs) ∷ ws) h = ground (arith, h.1.0, h.1.1)

background_none :
    (m : Memory) (src : ℕ) (c : Cmd) → m src ≡ 0 → background (m, src, c) ≡ (m, src, c)
unfolding background
background_none m src c h = rw (background, h) refl

-- The end of the line is a null byte.
last_null :
    (ws : List (List ℕ)) (m : Memory) (p : ℕ)
    → Line m p ws
    → (n : ℕ) × (m n ≡ 0) × (p ≤ n) × (n < p + size ws)
last_null [] m p h = (p, h, omega arith, omega arith)
last_null (w ∷ ws) m p h =
    let (n, z, h1, h2) = last_null ws m (suc (p + length w)) h.2 in (n, z, omega arith, omega arith)

starts-length : (p : ℕ) (ws : List (List ℕ)) → length (starts p ws) ≡ length ws
starts-length p [] = refl
starts-length p (w ∷ ws) = omega (arith, starts-length (suc (p + length w)) ws)

with_entries_few : (argv : List ℕ) → length argv ≤ 10 → with_entries argv ≡ ecmd argv
unfolding with_entries
with_entries_few argv h = (let few : leb (length argv) 10 ≡ true = ground arith in rw few refl)

-- For a line of at most ten words with a single blank between two, and two null bytes behind them, `parsecmd`
-- returns one command to execute, whose entries are the words, each as a string of its own, in order.
pub parsecmd-Line :
    (fuel : ℕ) (m : Memory) (buf : ℕ) (ws : List (List ℕ))
    → Line m buf ws
    → length ws ≤ 10
    → size ws < fuel
    → (m' : Memory) × (src : ℕ) × (parsecmd fuel m buf ≡ some (m', src, ecmd (starts buf ws)))
      × Strings m' (starts buf ws) ws
parsecmd-Line zero m buf ws h few enough = absurd (omega arith)
parsecmd-Line (suc fuel) m buf ws h few enough =
    let (m', q, e, i) = getexec_loop-Line ws (suc fuel) m buf h (omega arith) in
    let z = i.at_null in
    let pipe =
      getpipe_one fuel m buf buf m' q (starts buf ws)
        (skip_blanks_at fuel m buf (first_no_blank m buf ws h)) e (ground (arith, z)) in
    let whole : with_entries (starts buf ws) ≡ ecmd (starts buf ws) =
      with_entries_few (starts buf ws) (omega (arith, few, starts-length buf ws)) in
    let (n, nz, n1, n2) = last_null ws m buf h in
    let (len, e0) = strlen-ends (suc fuel) m buf n nz n1 (omega arith) in
    (
      m',
      q,
      parsecmd_at (suc fuel) m buf len (m', q, with_entries (starts buf ws)) e0 pipe
          ∙ ap some (background_none m' q _ z ∙ ap (λ (c : Cmd). (m', q, c)) whole),
      i.strings,
    )
