-- ===== src/Cap.antt =====
-- fep/cap.c: terminfo capabilities by their long names. `tigetstr` of the terminfo library is a
-- parameter; `none` is its null result.
use Prim.Native.String.{String}
use text.Mathlib.Text.{◌==◌}
use libfep.Base.{Option, none, List, Bytes, [], ◌∷◌, if◌then◌else◌}

abbrev pub Tigetstr : Type 0
Tigetstr = String → Option Bytes

-- `caps`: the long name and the terminfo name.
abbrev pub caps : List (String × String)
caps =
    ("enter_underline_mode", "smul")
    ∷ ("exit_underline_mode", "rmul")
    ∷ ("enter_standout_mode", "smso")
    ∷ ("exit_standout_mode", "rmso")
    ∷ ("exit_attribute_mode", "sgr0")
    ∷ ("enter_bold_mode", "bold")
    ∷ ("enter_blink_mode", "blink")
    ∷ ("orig_pair", "op")
    ∷ ("cursor_address", "cup")
    ∷ ("clear_screen", "clear")
    ∷ ("clr_eol", "el")
    ∷ ("clr_eos", "ed")
    ∷ ("change_scroll_region", "csr")
    ∷ ("cursor_up", "cuu1")
    ∷ ("save_cursor", "sc")
    ∷ ("restore_cursor", "rc")
    ∷ ("cursor_left", "cub1")
    ∷ ("cursor_right", "cuf1")
    ∷ ("parm_ich", "ich")
    ∷ ("parm_dch", "dch")
    ∷ ("key_backspace", "kbs")
    ∷ ("key_dc", "kdch1")
    ∷ ("key_left", "kcub1")
    ∷ ("key_up", "kcuu1")
    ∷ ("key_right", "kcuf1")
    ∷ ("key_down", "kcud1")
    ∷ ("key_ppage", "kpp")
    ∷ ("key_npage", "knp")
    ∷ ("key_home", "khome")
    ∷ ("key_end", "kend")
    ∷ ("key_ic", "kich1")
    ∷ ("key_f1", "kf1")
    ∷ ("key_f2", "kf2")
    ∷ ("key_f3", "kf3")
    ∷ ("key_f4", "kf4")
    ∷ ("key_f5", "kf5")
    ∷ ("key_f6", "kf6")
    ∷ ("key_f7", "kf7")
    ∷ ("key_f8", "kf8")
    ∷ ("key_f9", "kf9")
    ∷ ("key_f10", "kf10")
    ∷ ("key_f11", "kf11")
    ∷ ("key_f12", "kf12")
    ∷ []

abbrev pub cap_in : List (String × String) → Tigetstr → String → Option Bytes
cap_in [] tigetstr name = none
cap_in ((n, capname) ∷ r) tigetstr name =
    if name == n then tigetstr capname else cap_in r tigetstr name

unfoldable pub cap_get_string : Tigetstr → String → Option Bytes
cap_get_string = cap_in caps
