-- ===== src/Draw/Pty.antt =====
-- fep/output.c, lines 111 to 164: what the child process puts out, passed on to the terminal.
use libfep.Base.{
  ℕ, zero, suc, Option, none, some, Bytes, [], ◌∷◌, ◌++◌, length, take, drop, ltb, if◌then◌else◌,
  Outcome, ok, fault, looping,
}
use libfep.Base.Act.{Act, ◌>>=◌, ◌>>◌, lift, pure}
use libfep.Base.Int.{negsuc}
use libfep.Csi.{Csi, Scan, complete, partial, absent, csi_scan, csi_parse}
use libfep.FepString.{append}
use libfep.Draw.{cursor_text}
use libfep.Screen.{Device, Screen, change, write_tty, apply_attr}
use libfep.Sgr.{params_to_attr}
use libfep.Strv.{strsplit}

-- `sgr` and `sgr_len` at the end of the loop of `_fep_output_string_from_pty`
abbrev pub Cut : Type 0
Cut = Option Bytes

module _ (d : Device) where
  -- `c = sgr[sgr_len]`, the byte behind the sequence
  abbrev pub byte_behind : Bytes → Outcome ℕ
  byte_behind [] = fault
  byte_behind (c ∷ p) = ok c

  -- What one sequence says of the attributes; a sequence that does not parse says nothing. `p` is
  -- the memory behind it.
  abbrev pub attr_in : Bytes → Option (Csi × Bytes) → Act Screen (Unit {0})
  attr_in p none = pure tt
  attr_in p (some (csi, rest)) = do
    params ← lift (strsplit csi.params (b';' ∷ []))
    λ s.
        (do
          attr ← lift (params_to_attr s.sgr_codes params)
          c ← lift (byte_behind p)
          change (λ s'. record s' { attr_pty = attr }))
          s

  -- A scan that reads past the end of the memory at `p` is a fault.
  abbrev pub scanned : (Bytes → Act Screen Cut) → ℕ → Bytes → Scan → Act Screen Cut
  scanned again str_len p absent = if ltb (length p) str_len then lift fault else pure none
  scanned again str_len p (partial before csi) =
      if ltb (length p) str_len then lift fault else pure (some csi)
  scanned again str_len p (complete before csi rest) = do
    attr_in (drop (length (before ++ csi)) p) (csi_parse csi b'[')
    again (drop (length (before ++ csi)) p)

  -- The loop, with fuel. The length that each scan is given is that of the whole string; `p` is the
  -- memory from there on.
  unfoldable pub attrs_loop : ℕ → ℕ → Bytes → Act Screen Cut
  attrs_loop zero str_len p s = (looping, s)
  attrs_loop (suc f) str_len p s =
      let again = λ (q : Bytes) (t : Screen). attrs_loop f str_len q t in
      (do scan ← lift (csi_scan (take str_len p) (some b'm')); scanned again str_len p scan) s

  -- `if (sgr != NULL) _fep_string_append (&fep->ptybuf, sgr, sgr_len)`
  abbrev pub keep_cut : Cut → Act Screen (Unit {0})
  keep_cut none s = (ok tt, s)
  keep_cut (some csi) s =
      (do
        ptybuf ← lift (append d.memory s.ptybuf csi)
        change (λ s'. record s' { ptybuf = ptybuf }))
        s

  -- The text at the cursor that may be drawn over
  abbrev pub redraw : Option Bytes → Act Screen (Unit {0})
  redraw none = pure tt
  redraw (some text) = do
    change (λ s. record s { cursor_text = none })
    λ s. cursor_text d text s.cursor_text_attr s

  -- `_fep_output_string_from_pty`, on the memory from `str` to the end of its block
  unfoldable pub string_from_pty : Bytes → ℕ → Act Screen (Unit {0})
  string_from_pty mem zero = pure tt
  string_from_pty mem (suc n) = do
    λ s. apply_attr d s.attr_pty s
    change (write_tty (take (suc n) mem))
    cut ← attrs_loop (suc (length mem)) (suc n) mem
    change (λ s. record s { attr = s.attr_pty })
    keep_cut cut
    change (λ s. record s { cursor = record { row = negsuc 0; col = negsuc 0 } })
    λ s. redraw s.cursor_text s
