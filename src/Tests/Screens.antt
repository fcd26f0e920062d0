-- ===== src/Tests/Screens.antt =====
-- A screen and a terminal, at fixed inputs.
use libfep.Base.{◌≡◌, refl, false, [], ◌∷◌, ◌++◌, none, some, ok, arith}
use libfep.Base.Int.{pos}
use libfep.Draw.{string_with_attribute, clear_ptybuf, status_text, init_screen}
use libfep.Draw.Texts.{parts, string_with_attribute_lem}
use libfep.FepString.{zeroed}
use libfep.MainLoop.Drawing.{here, next, in_status, finished, Reach-LeavesInput}
use libfep.MainLoop.Running.{start_screen, last_drawing}
use libfep.Message.{Attribute}
use libfep.Screen.{Point, Device, Screen}
use libfep.Screen.Quiet.{LeavesInput}
use libfep.Screen.Sending.{sends, change_bytes}
use libfep.Sgr.{no_attr}
use libfep.Tests.{calloc, dumb}
use libfep.Tests.Texts.{wide_bytes, wide_bytes-Faithful}

-- Each capability is one byte.
abbrev pub typewriter : Device
typewriter = record {
  tputs = λ s. s;
  cursor_address = λ row col. 1 ∷ [];
  change_scroll_region = λ start end. 2 ∷ [];
  clear_screen = 3 ∷ [];
  exit_attribute_mode = 4 ∷ [];
  save_cursor = 5 ∷ [];
  restore_cursor = 6 ∷ [];
  clr_eol = 7 ∷ [];
  cursor_invisible = 8 ∷ [];
  cursor_normal = 9 ∷ [];
  to_locale = λ s. some s;
  locale = wide_bytes;
  memory = calloc;
}

abbrev origin : Point
origin = record { row = pos 0; col = pos 0 }

abbrev pub underlined : Attribute
underlined = record { type = 0; value = 1; start_index = 0; end_index = 1 }

abbrev pub blank : Screen
blank = record {
  tty_out = record { sent = []; answers = [] };
  tty = record { arriving = []; ttybuf = zeroed };
  ptybuf = zeroed;
  has_cpr = false;
  cursor = origin;
  cursor_save = origin;
  cursor_diff = origin;
  ws_row = 24;
  ws_col = 80;
  cursor_text = none;
  cursor_text_attr = underlined;
  status_text = [];
  status_text_attr = underlined;
  attr = no_attr;
  attr_pty = no_attr;
  attr_tty = no_attr;
  sgr_codes = λ q. 0;
}

string_with_attribute_lem_example :
    string_with_attribute typewriter (97 ∷ 98 ∷ []) (pos 2) underlined blank ≡ (
      ok tt,
      sends
          (change_bytes typewriter blank no_attr ++ parts typewriter blank (97 ∷ []) 0 1 underlined)
          blank,
    )
unfolding libfep.Wide.strtrunc libfep.Wide.fitting libfep.Wide.wcsrtombs
string_with_attribute_lem_example =
    string_with_attribute_lem typewriter 97 (98 ∷ []) (97 ∷ 98 ∷ []) (97 ∷ []) (97 ∷ []) (pos 2)
      underlined blank refl refl wide_bytes-Faithful refl refl refl (omega arith)

abbrev started : Screen
started = (start_screen typewriter dumb blank).1

abbrev told : Screen
told = (status_text typewriter (97 ∷ []) underlined started).1

abbrev ended : Screen
ended = (last_drawing typewriter (pos 3) told).1

Reach-LeavesInput_example : LeavesInput blank.tty ended
unfolding init_screen libfep.Sgr.get_codes_in libfep.Cap.cap_get_string
    libfep.Screen.get_cursor_position libfep.Screen.restore_cursor libfep.Sgr.get_sgr_codes
    status_text string_with_attribute libfep.Draw.draw_parts libfep.Screen.putp
    libfep.Screen.put_each libfep.Screen.apply_attr libfep.Screen.set_attributes
    libfep.Screen.goto_status_text libfep.Screen.cursor_address libfep.Screen.change_scroll_region
    libfep.Wire.write_fd libfep.Wide.strtrunc libfep.Wide.fitting libfep.Wide.wcsrtombs
    libfep.Wide.substring libfep.Wide.charcount libfep.Strv.strjoinv libfep.Strv.joined
    libfep.Strv.joined_length libfep.Sgr.params_from_attr libfep.Sgr.attr_from_attribute
    libfep.Csi.csi_format libfep.FepString.clear
Reach-LeavesInput_example = Reach-LeavesInput typewriter dumb blank {t = started} refl (
    next (next here (in_status (97 ∷ []) underlined {s = started} refl))
      (finished (pos 3) {s = told} refl))
