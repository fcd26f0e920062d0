-- ===== src/Tests/Passing.antt =====
-- Text of the child process, at fixed inputs.
use libfep.Base.{◌≡◌, refl, Bytes, [], ◌∷◌, ◌++◌, length, ok, fault, arith}
use libfep.Csi.{Csi, csi_format}
use libfep.Csi.Parsing.{IsWellFormed}
use libfep.Draw.Pty.{string_from_pty}
use libfep.Draw.Passing.{passed_on, written, string_from_pty_tracks, string_from_pty_overruns}
use libfep.Sgr.{SgrAttr}
use libfep.Tests.Screens.{typewriter, blank}

-- Red foreground, between two letters.
abbrev red : Csi
red = record { params = b'3' ∷ b'1' ∷ []; intermediate = []; final = b'm' }

abbrev reddish : SgrAttr
reddish = record { attr = 0; foreground = 31; background = 0 }

red-IsWellFormed : IsWellFormed red
red-IsWellFormed = record { params_ok = (refl, (refl, tt)); intermediate_ok = tt; final_ok = refl }

abbrev a_red_b : Bytes
a_red_b = 97 ∷ [] ++ (csi_format red ++ 98 ∷ [])

abbrev six_zeros : Bytes
six_zeros = 0 ∷ 0 ∷ 0 ∷ 0 ∷ 0 ∷ 0 ∷ []

string_from_pty_tracks_example :
    string_from_pty typewriter (a_red_b ++ six_zeros) (length a_red_b) blank ≡ (
      ok tt,
      passed_on typewriter (record (written typewriter a_red_b blank) { attr_pty = reddish }),
    )
unfolding libfep.Sgr.params_to_attr libfep.Sgr.params_to_attr_from libfep.Sgr.apply_param
    libfep.Number.strtoul libfep.Strv.Fields.fields csi_format
string_from_pty_tracks_example =
    string_from_pty_tracks typewriter (97 ∷ []) (98 ∷ []) six_zeros red reddish blank
      (omega arith, tt)
      (
        omega arith,
        (
          omega arith,
          (omega arith, (omega arith, (omega arith, (omega arith, (omega arith, tt))))),
        ),
      )
      red-IsWellFormed refl refl refl refl (omega arith)

string_from_pty_overruns_example :
    (string_from_pty typewriter (a_red_b ++ 0 ∷ []) (length a_red_b) blank).0 ≡ fault
unfolding libfep.Sgr.params_to_attr libfep.Sgr.params_to_attr_from libfep.Sgr.apply_param
    libfep.Number.strtoul libfep.Strv.Fields.fields csi_format
string_from_pty_overruns_example =
    string_from_pty_overruns typewriter (97 ∷ []) (98 ∷ []) (0 ∷ []) red reddish blank
      (omega arith, tt) (omega arith, (omega arith, tt)) red-IsWellFormed refl refl refl
      (omega arith) (omega arith)
