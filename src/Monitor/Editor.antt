-- ===== src/Monitor/Editor.antt =====
-- The monitor's line: keys edit it, and the newline runs it as a command.
use mathlib.Core.List.{append_assoc, append-nil}
use native.Mathlib.Decide.{ℕ_discrete, dec_lt}
use storm_os.Base.{
  ltb, ◌==◌, if◌then◌else◌, ==_eq, ==_ne, ltb-true, ltb-false, Bool-cases, length, length-append,
  All, update, update_self, update_ne, ℕ, ◌+◌, ◌-◌, ◌<◌, ◌≡◌, refl, sym, ap, ◌∙◌, ◌≢◌, ◌⊎◌, inl,
  inr, true, false, some, List, [], ◌∷◌, ◌++◌, arith,
}
use storm_os.Console.{console_buffer_size}
use storm_os.Monitor.{
  Call, starts_user, Monitor, monitor_key, monitor_keys, run_command, invoke, refused, echo, prompt,
}
use storm_os.Monitor.Parse.{max_args}
use storm_os.Monitor.Words.{Text, words}
use storm_os.Monitor.Split.{parse_arguments_lem}

-- What a command line is answered with.
abbrev pub answer : List ℕ → List Call
answer line = if ltb (length (words line)) max_args then invoke (words line) else refused

-- What the newline behind a line is answered with: there is a prompt if no user process is started.
pub reply : List ℕ → List Call
reply line =
    if starts_user (answer line)
    then echo b'\n' ∷ answer line
    else echo b'\n' ∷ answer line ++ prompt ∷ []

run_command_lem :
    (buf : ℕ → ℕ) (line : List ℕ)
    → length line < console_buffer_size
    → Text buf 0 line
    → (cleared : ℕ → ℕ) × (run_command buf ≡ some (answer line, cleared))
unfolding run_command
run_command_lem buf line fits text =
    elim (parse_arguments_lem console_buffer_size buf line fits text) [
      | inl (few, argv, cleared, e, strs) ↦ (
        cleared,
        rw (run_command, e, ltb-true (length (words line)) max_args few)
            (ap (λ ws. some (invoke ws, cleared)) strs),
      )
      | inr (many, cleared, e) ↦
          (cleared, rw (run_command, e, ltb-false (length (words line)) max_args many) refl)
    ]

abbrev pub drop_last : List ℕ → List ℕ
drop_last [] = []
drop_last (c ∷ []) = []
drop_last (c ∷ d ∷ cs) = c ∷ drop_last (d ∷ cs)

-- A key other than the newline, as an edit of a line.
abbrev pub edit : ℕ → List ℕ → List ℕ
edit c line =
    if c == 0
    then line
    else if c == 0x08
    then drop_last line
    else if ltb (length line) (console_buffer_size - 1)
    then line ++ c ∷ []
    else line

abbrev pub edits : List ℕ → List ℕ → List ℕ
edits [] line = line
edits (c ∷ cs) line = edits cs (edit c line)

-- The keys that are shown.
abbrev pub echoes : List ℕ → List Call
echoes [] = []
echoes (c ∷ cs) = if c == 0 then echoes cs else echo c ∷ echoes cs

unfoldable pub Held : (ℕ → ℕ) → ℕ → List ℕ → Type 0
Held buf i [] = Unit
Held buf i (c ∷ cs) = (buf i ≡ c) × (c ≢ 0) × Held buf (i + 1) cs

-- The state of the monitor for a line.
pub record Line (s : Monitor) (line : List ℕ) : Type 0 where
  pub index : s.index ≡ length line
  pub fits : length line < console_buffer_size
  pub held : Held s.buf 0 line
  pub here : s.left ≡ false

-- After the newline the next line is empty, or the monitor is left, if the line starts a user
-- process.
abbrev pub Next : Monitor → List ℕ → Type 0
Next t line =
    ((starts_user (answer line) ≡ false) × Line t [])
    ⊎ ((starts_user (answer line) ≡ true) × (t.left ≡ true))

Held-snoc :
    (cs : List ℕ) (buf : ℕ → ℕ) (i j c : ℕ)
    → i + length cs ≡ j
    → c ≢ 0
    → Held buf i cs
    → Held (update buf j c) i (cs ++ c ∷ [])
unfolding Held
Held-snoc [] buf i j c e ne held =
    let here : i ≡ j = omega arith in
    (ap (λ k. update buf j c k) here ∙ update_self buf j c, ne, tt)
Held-snoc (d ∷ cs) buf i j c e ne (here, nz, held) = (
  update_ne buf j i c (omega arith) ∙ here,
  nz,
  Held-snoc cs buf (i + 1) j c (omega arith) ne held,
)

Held-Text :
    (cs : List ℕ) (buf : ℕ → ℕ) (i j : ℕ)
    → i + length cs ≡ j
    → Held buf i cs
    → Text (update buf j 0) i cs
unfolding Held Text
Held-Text [] buf i j e held =
    let here : i ≡ j = omega arith in ap (λ k. update buf j 0 k) here ∙ update_self buf j 0
Held-Text (d ∷ cs) buf i j e (here, nz, held) =
    (update_ne buf j i 0 (omega arith) ∙ here, nz, Held-Text cs buf (i + 1) j (omega arith) held)

Held-drop : (cs : List ℕ) (buf : ℕ → ℕ) (i : ℕ) → Held buf i cs → Held buf i (drop_last cs)
unfolding Held
Held-drop [] buf i held = tt
Held-drop (c ∷ []) buf i held = tt
Held-drop (c ∷ d ∷ cs) buf i (here, nz, held) = (here, nz, Held-drop (d ∷ cs) buf (i + 1) held)

length-drop_last : (cs : List ℕ) → length (drop_last cs) ≡ length cs - 1
length-drop_last [] = refl
length-drop_last (c ∷ []) = refl
length-drop_last (c ∷ d ∷ cs) = omega (arith, length-drop_last (d ∷ cs))

monitor_key-Line :
    (c : ℕ) (s : Monitor) (line : List ℕ)
    → c ≢ b'\n'
    → Line s line
    → (t : Monitor) × (monitor_key c s ≡ some (t, echoes (c ∷ []))) × Line t (edit c line)
unfolding monitor_key
monitor_key-Line c s line ne h = elim (ℕ_discrete c 0) [
  | yes z ↦ (s, rw (h.here, ==_eq c 0 z) refl, rw (==_eq c 0 z) h)
  | no nz ↦ elim (ℕ_discrete c 0x08) [
    | yes back ↦ (
      record s { index = s.index - 1 },
      rw (h.here, ==_ne c 0 nz, ==_ne c b'\n' ne, ==_eq c 0x08 back) refl,
      rw (==_ne c 0 nz, ==_eq c 0x08 back)
          (record {
            index = omega (arith, h.index, length-drop_last line);
            fits = omega (arith, h.fits, length-drop_last line);
            held = Held-drop line s.buf 0 h.held;
            here = h.here;
          }),
    )
    | no other ↦ elim (dec_lt (length line) (console_buffer_size - 1)) [
      | yes lt ↦ (
        record s { index = s.index + 1; buf = update s.buf s.index c },
        rw
            (
              h.here,
              ==_ne c 0 nz,
              ==_ne c b'\n' ne,
              ==_ne c 0x08 other,
              ltb-true s.index (console_buffer_size - 1) (omega (arith, lt, h.index)),
            )
            refl,
        rw (==_ne c 0 nz, ==_ne c 0x08 other, ltb-true (length line) (console_buffer_size - 1) lt)
            (record {
              index = omega (arith, h.index, length-append line (c ∷ []));
              fits = omega (arith, lt, length-append line (c ∷ []));
              held = Held-snoc line s.buf 0 s.index c (omega (arith, h.index)) nz h.held;
              here = h.here;
            }),
      )
      | no full ↦ (
        s,
        rw
            (
              h.here,
              ==_ne c 0 nz,
              ==_ne c b'\n' ne,
              ==_ne c 0x08 other,
              ltb-false s.index (console_buffer_size - 1) (omega (arith, full, h.index)),
            )
            refl,
        rw
            (
              ==_ne c 0 nz,
              ==_ne c 0x08 other,
              ltb-false (length line) (console_buffer_size - 1) (omega (arith, full)),
            )
            h,
      )
    ]
  ]
]

pub Line-empty : (buf : ℕ → ℕ) → Line (record { index = 0; buf = buf; left = false }) []
unfolding Held
Line-empty buf = record { index = refl; fits = omega arith; held = tt; here = refl }

-- The newline.
monitor_key-newline :
    (s : Monitor) (line : List ℕ)
    → Line s line
    → (t : Monitor) × (monitor_key b'\n' s ≡ some (t, reply line)) × Next t line
unfolding monitor_key reply
monitor_key-newline s line h =
    let (cleared, e) =
      run_command_lem (update s.buf s.index 0) line h.fits
        (Held-Text line s.buf 0 s.index (omega (arith, h.index)) h.held) in
    elim (Bool-cases (starts_user (answer line))) [
      | inl yes_it ↦ (
        record { index = s.index; buf = cleared; left = true },
        rw (h.here, e, yes_it) refl,
        inr (yes_it, refl),
      )
      | inr not_it ↦ (
        record { index = 0; buf = cleared; left = false },
        rw (h.here, e, not_it) refl,
        inl (not_it, Line-empty cleared),
      )
    ]

monitor_keys-cons :
    (c : ℕ) (cs : List ℕ) (s t u : Monitor) (calls later : List Call)
    → monitor_key c s ≡ some (t, calls)
    → monitor_keys cs t ≡ some (u, later)
    → monitor_keys (c ∷ cs) s ≡ some (u, calls ++ later)
unfolding monitor_keys
monitor_keys-cons c cs s t u calls later e e' = rw (monitor_keys, e, e') refl

echoes-cons : (c : ℕ) (keys : List ℕ) → echoes (c ∷ keys) ≡ echoes (c ∷ []) ++ echoes keys
echoes-cons c keys = ground arith

-- When the monitor's buffer holds a line, typing keys without a newline and then a newline edits
-- the line and runs it: a character is added while there is room for it, a backspace takes the last
-- one back, and the zero that stands for no key does nothing. The keys are shown, and the command
-- that the words of the line name is invoked once with these words (16 words or more are refused).
-- If that starts a user process, the monitor is left and shows nothing more; otherwise the prompt
-- is shown, and the next line is empty.
pub monitor_keys_lem :
    (keys line : List ℕ) (s : Monitor)
    → All (λ c. c ≢ b'\n') keys
    → Line s line
    → (t : Monitor) × (monitor_keys (keys ++ b'\n' ∷ []) s
        ≡ some (t, echoes keys ++ reply (edits keys line)))
      × Next t (edits keys line)
unfolding monitor_keys
monitor_keys_lem [] line s _ h =
    let (t, e, after) = monitor_key-newline s line h in
    (t, rw (monitor_keys, e) (ap (λ xs. some (t, xs)) (append-nil (reply line))), after)
monitor_keys_lem (c ∷ keys) line s (ne, rest) h =
    let (t, e, h') = monitor_key-Line c s line ne h in
    let (u, later, empty) = monitor_keys_lem keys (edit c line) t rest h' in
    let tail = reply (edits keys (edit c line)) in
    let shown : echoes (c ∷ []) ++ (echoes keys ++ tail) ≡ echoes (c ∷ keys) ++ tail =
      sym (append_assoc (echoes (c ∷ [])) (echoes keys) tail)
      ∙ ap (λ xs. xs ++ tail) (sym (echoes-cons c keys)) in
    (
      u,
      monitor_keys-cons c (keys ++ b'\n' ∷ []) s t u (echoes (c ∷ [])) (echoes keys ++ tail) e later
          ∙ ap (λ xs. some (u, xs)) shown,
      empty,
    )
