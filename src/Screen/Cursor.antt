-- ===== src/Screen/Cursor.antt =====
-- Where `kputchar` of sys/kprintf.c puts the cursor, and which cells it writes.
use os.Common.{
  ℕ, zero, suc, ◌+◌, ◌-◌, ◌*◌, ◌%◌, ◌^◌, ◌≤◌, ◌<◌, ◌≡◌, refl, ◌≢◌, ◌∙◌, ap, arith, Bool, true,
  false, ◌&&◌, not, Option, none, some, List, [], ◌∷◌, ◌++◌, ltb, leb, ◌==◌, Bool-cases, ◌⊎◌, inl,
  inr,
}
use os.Screen.{
  Screen, put_cell, put_char, moved_back, back, wrap_row, scroll, settle, put_plain, tab_loop,
  kputchar, kputs,
}

-- The cursor is in one of the 24 rows.
pub record InScreen (s : Screen) : Type 0 where
  pub column : s.x < 80
  pub row : s.y < 24

-- No cell of the video memory behind the 24 rows differs.
abbrev pub Confined : Screen → Screen → Type 0
Confined s t = (i : ℕ) → 1920 ≤ i → t.video i ≡ s.video i

-- A cursor one past the end of its row, or below the last one, is put right.
settle-InScreen : (s : Screen) → s.x ≤ 80 → s.y ≤ 24 → (s.y ≡ 24 → s.x ≡ 0) → InScreen (settle s)
unfolding settle wrap_row scroll
settle-InScreen s hx hy he = ground arith

settle-Confined : (s : Screen) → s.y ≤ 24 → Confined s (settle s)
unfolding settle wrap_row scroll
settle-Confined s hy i hi = ground arith

put_cell-Confined : (c : ℕ) (s : Screen) → InScreen s → Confined s (put_cell c s)
unfolding put_cell
put_cell-Confined c s v i hi =
    let e : (s.x + s.y * 80) % 2 ^ 32 ≡ s.x + s.y * 80 = omega (arith, v.column, v.row) in
    rw e (ground (arith, v.column, v.row))

put_cell-cursor : (c : ℕ) (s : Screen) → ((put_cell c s).x ≡ s.x) × ((put_cell c s).y ≡ s.y)
unfolding put_cell
put_cell-cursor c s = (refl, refl)

moved_back-InScreen : (s : Screen) → InScreen s → (s.x ≢ 0) ⊎ (s.y ≢ 0) → InScreen (moved_back s)
unfolding moved_back
moved_back-InScreen s v at = elim (Bool-cases (s.x == 0)) [
  | inl z ↦
      let y_nz : s.y ≢ 0 = ground (arith, z, at) in
      let e : (s.y + 2 ^ 32 - 1) % 2 ^ 32 ≡ s.y - 1 = omega (arith, v.row) in
      rw z (record { column = omega arith; row = omega (arith, v.row) })
  | inr nz ↦ rw nz (record { column = omega (arith, v.column); row = v.row })
]

moved_back_video : (s : Screen) → (moved_back s).video ≡ s.video
unfolding moved_back
moved_back_video s = ground arith

back-InScreen :
    (s : Screen) → InScreen s → (s.x ≢ 0) ⊎ (s.y ≢ 0) → InScreen (back s) × Confined s (back s)
unfolding back
back-InScreen s v at =
    let m = moved_back-InScreen s v at in
    let c = put_cell-cursor b' ' (moved_back s) in
    (
      record { column = omega (arith, c.0, m.column); row = omega (arith, c.1, m.row) },
      λ i hi. put_cell-Confined b' ' (moved_back s) m i hi ∙ ap (λ f. f i) (moved_back_video s),
    )

put_char-Confined : (c : ℕ) (s : Screen) → InScreen s → Confined s (put_char c s)
unfolding put_char
put_char-Confined c s v i hi = put_cell-Confined c s v i hi

put_char-cursor : (c : ℕ) (s : Screen) → ((put_char c s).x ≡ s.x + 1) × ((put_char c s).y ≡ s.y)
unfolding put_char
put_char-cursor c s = (ap (λ x. x + 1) (put_cell-cursor c s).0, (put_cell-cursor c s).1)

-- A screen and how it was changed.
abbrev Kept : Screen → Screen → Type 0
Kept s t = InScreen t × Confined s t

settle-Kept :
    (s t : Screen) → t.x ≤ 80 → t.y ≤ 24 → (t.y ≡ 24 → t.x ≡ 0) → Confined s t → Kept s (settle t)
settle-Kept s t hx hy he c =
    (settle-InScreen t hx hy he, λ i hi. settle-Confined t hy i hi ∙ c i hi)

newline-Kept :
    (s : Screen) → InScreen s → Kept s (settle (record s { x = 0; y = (s.y + 1) % 2 ^ 32 }))
newline-Kept s v =
    let e : (s.y + 1) % 2 ^ 32 ≡ s.y + 1 = omega (arith, v.row) in
    settle-Kept s (record s { x = 0; y = (s.y + 1) % 2 ^ 32 }) (omega arith) (omega (arith, v.row))
      (λ h. refl) (λ i hi. refl)

char-Kept : (c : ℕ) (s : Screen) → InScreen s → Kept s (settle (put_char c s))
char-Kept c s v =
    let p = put_char-cursor c s in
    settle-Kept s (put_char c s) (omega (arith, p.0, v.column)) (omega (arith, p.1, v.row))
      (λ h. absurd (omega (arith, p.1, v.row))) (put_char-Confined c s v)

back-Kept : (s : Screen) → InScreen s → (s.x ≢ 0) ⊎ (s.y ≢ 0) → Kept s (settle (back s))
back-Kept s v at =
    let (b, c) = back-InScreen s v at in
    settle-Kept s (back s) (omega (arith, b.column)) (omega (arith, b.row))
      (λ h. absurd (omega (arith, b.row))) c

-- A character other than a tab leaves the cursor in the 24 rows and writes no cell behind them,
-- where a backspace does not stand in the first place of the screen.
pub put_plain-InScreen :
    (c : ℕ) (s : Screen)
    → InScreen s
    → (c ≡ 8 → (s.x ≢ 0) ⊎ (s.y ≢ 0))
    → InScreen (put_plain c s) × Confined s (put_plain c s)
unfolding put_plain
put_plain-InScreen c s v at = elim (Bool-cases (c == b'\n')) [
  | inl e ↦ rw e (newline-Kept s v)
  | inr n1 ↦ elim (Bool-cases (c == b'\r')) [
    | inl e ↦
        rw (n1, e)
          (settle-Kept s (record s { x = 0 }) (omega arith) (omega (arith, v.row)) (λ h. refl)
            (λ i hi. refl))
    | inr n2 ↦ elim (Bool-cases (leb b' ' c && ltb c 128)) [
      | inl e ↦ rw (n1, n2, e) (char-Kept c s v)
      | inr n3 ↦ elim (Bool-cases (c == 8)) [
        | inl e ↦ rw (n1, n2, n3, e) (back-Kept s v (at (ground (arith, e))))
        | inr n4 ↦ rw (n1, n2, n3, n4) (v, λ i hi. refl)
      ]
    ]
  ]
]

tab_loop_never : (fuel : ℕ) (s : Screen) → tab_loop fuel 0 s ≡ none
unfolding tab_loop
tab_loop_never zero s = refl
tab_loop_never (suc fuel) s = tab_loop_never fuel (put_plain b' ' s)

kputs_cons :
    (fuel c : ℕ) (cs : List ℕ) (s t : Screen)
    → kputchar fuel c s ≡ some t
    → kputs fuel (c ∷ cs) s ≡ kputs fuel cs t
unfolding kputs
kputs_cons fuel c cs s t e = rw (kputs, e) refl

kputs-none :
    (fuel c : ℕ) (cs : List ℕ) (s : Screen)
    → (o : Option Screen) → kputchar fuel c s ≡ o
    → ((t : Screen) → kputs fuel cs t ≡ none)
    → kputs fuel (c ∷ cs) s ≡ none
unfolding kputs
kputs-none fuel c cs s none e h = rw (kputs, e) refl
kputs-none fuel c cs s (some t) e h = kputs_cons fuel c cs s t e ∙ h t

kputs_stuck :
    (fuel c : ℕ) (cs : List ℕ) (s : Screen)
    → kputchar fuel c s ≡ none
    → kputs fuel (c ∷ cs) s ≡ none
unfolding kputs
kputs_stuck fuel c cs s e = rw (kputs, e) refl

-- A tab never ends: the loop that is to put four spaces does not count them, so no number of turns
-- is enough, whatever the text before and behind the tab.
pub kputs_tab_never :
    (fuel : ℕ) (before after : List ℕ) (s : Screen) → kputs fuel (before ++ b'\t' ∷ after) s ≡ none
unfolding kputchar
kputs_tab_never fuel [] after s = kputs_stuck fuel b'\t' after s (tab_loop_never fuel s)
kputs_tab_never fuel (c ∷ before) after s =
    kputs-none fuel c (before ++ b'\t' ∷ after) s (kputchar fuel c s) refl
      (kputs_tab_never fuel before after)

-- Text without tabs and backspaces.
abbrev pub plain_text : List ℕ → Bool
plain_text [] = true
plain_text (c ∷ cs) = (not (c == b'\t') && not (c == 8)) && plain_text cs

-- Text without tabs and backspaces, of any length, is put: `kputs` ends with the cursor in the 24
-- rows, and no cell behind them is written.
pub kputs-InScreen :
    (fuel : ℕ) (cs : List ℕ) (s : Screen)
    → InScreen s
    → plain_text cs ≡ true
    → (t : Screen) × (kputs fuel cs s ≡ some t) × InScreen t × Confined s t
unfolding kputchar kputs
kputs-InScreen fuel [] s v p = (s, refl, v, λ i hi. refl)
kputs-InScreen fuel (c ∷ cs) s v p =
    let no_tab : (c == b'\t') ≡ false = ground (arith, p) in
    let no_back : c ≢ 8 = ground (arith, p) in
    let one = put_plain-InScreen c s v (λ e. absurd (no_back e)) in
    let (t, run, w, k) = kputs-InScreen fuel cs (put_plain c s) one.0 (ground (arith, p)) in
    (
      t,
      kputs_cons fuel c cs s (put_plain c s) (rw no_tab refl) ∙ run,
      w,
      λ i hi. k i hi ∙ one.1 i hi,
    )
