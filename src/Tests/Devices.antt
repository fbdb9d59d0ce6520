-- ===== src/Tests/Devices.antt =====
-- The keyboard and the interrupt controllers at concrete states.
use storm_os.Base.{if◌then◌else◌, ◌+◌, ◌≡◌, refl, Bool, false, not, some, [], ◌∷◌, arith}
use storm_os.Pic.{boot_pic, pic_enable}
use storm_os.Keyboard.Tables.{Flag, capslock, shiftcode, togglecode, normalmap}
use storm_os.Keyboard.{keyboard_get_data, is_entry, key_pressed, charcode, swap_case, press}
use storm_os.Keyboard.Case.{holding, press_release}

pic_enable_runs : (pic_enable 1 boot_pic).irqmask ≡ 0xFFF9
unfolding pic_enable
pic_enable_runs = refl

abbrev idle : Flag → Bool
idle f = false

-- caps lock
press_release_example :
    (keyboard_get_data (keyboard_get_data (holding idle 0x3A ((0x3A + 0x80) ∷ []) [])).1).1.flags
      capslock
    ≡ (if is_entry (shiftcode 0x3A) capslock
        then false
        else if is_entry (togglecode 0x3A) capslock
        then not (idle capslock)
        else idle capslock)
press_release_example = press_release idle 0x3A [] [] capslock (omega arith) (omega arith) refl

-- the key `a`, with caps lock
key_runs : (keyboard_get_data (holding (λ f. is_entry (some capslock) f) 0x1E [] [])).0 ≡ some 0x41
unfolding keyboard_get_data key_pressed charcode swap_case press shiftcode togglecode normalmap
key_runs = refl
