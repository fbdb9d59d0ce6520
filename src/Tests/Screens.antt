-- ===== src/Tests/Screens.antt =====
-- A command line, and the buffer of the screen.
use storm_os.Base.{
  ℕ, ◌+◌, ◌*◌, ◌%◌, ◌≤◌, ◌<◌, ◌≡◌, ◌≢◌, ◌⊎◌, false, some, List, [], ◌∷◌, ◌++◌, arith, pos,
}
use storm_os.Monitor.{Monitor, monitor_keys, codes}
use storm_os.Monitor.Editor.{Next, Line-empty, echoes, reply, monitor_keys_lem}
use storm_os.Screen.{Screen, draw_char_at, scroll_screen, char_size, vga_width, vga_height}
use storm_os.Screen.Pixels.{pixel, shown, draw_char_at_lem}
use storm_os.Screen.Scroll.{scroll_screen_lem}
use storm_os.Syscalls.{plane_size, vga_planes}

abbrev blank : Monitor
blank = record { index = 0; buf = λ i. 0; left = false }

-- "hx", a backspace and "elp"
abbrev keys : List ℕ
keys = b'h' ∷ b'x' ∷ 0x08 ∷ b'e' ∷ b'l' ∷ b'p' ∷ []

monitor_keys_example :
    (t : Monitor) × (monitor_keys (b'h' ∷ b'x' ∷ 0x08 ∷ b'e' ∷ b'l' ∷ b'p' ∷ b'\n' ∷ []) blank
      ≡ some (t, echoes keys ++ reply (codes "help")))
    × Next t (codes "help")
monitor_keys_example =
    monitor_keys_lem keys [] blank
      (omega arith, (omega arith, (omega arith, (omega arith, (omega arith, (omega arith, tt))))))
      (Line-empty (λ i. 0))

abbrev striped : Screen
striped = record { screen_buf = λ a. a % 7; last_clear_color = 1 }

abbrev font : ℕ → ℕ → ℕ
font c i = 0x0F

draw_char_at_example :
    let t = draw_char_at font b'A' (pos 2) (pos 5) 15 striped in
    let place = λ (p : ℕ) (y : ℕ) (x : ℕ). p * plane_size + y * vga_width + x in
    ((p i x : ℕ)
      → p < vga_planes
      → i < char_size
      → x < 8
      → pixel x (t.screen_buf (place p (2 * char_size + i) 5))
        ≡ shown font b'A' 15 1 p i x (pixel x (striped.screen_buf (place p (2 * char_size + i) 5))))
    × ((p y x : ℕ)
        → y < vga_height
        → x < vga_width
        → (x ≢ 5) ⊎ ((y < 2 * char_size) ⊎ (2 * char_size + char_size ≤ y))
        → t.screen_buf (place p y x) ≡ striped.screen_buf (place p y x))
draw_char_at_example =
    draw_char_at_lem font b'A' 2 5 15 striped (omega arith) (omega arith) (omega arith)
      (λ i. omega arith)

scroll_screen_example : (scroll_screen 8 striped).screen_buf 38400 ≡ striped.screen_buf 39040
scroll_screen_example =
    scroll_screen_lem 8 striped (omega arith) 1 0 0 (omega arith) (omega arith) (omega arith)
