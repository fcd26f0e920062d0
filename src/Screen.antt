-- ===== src/Screen.antt =====
-- fep/output.c, lines 46 to 110, 238 to 275, 398 to 462 and 505 to 515, with the fields of
-- `struct _Fep` and `struct _FepPoint` (fep/private.h) that drawing reads or changes: the terminal's
-- attributes, its cursor, and the report of where the cursor is. The terminal's capabilities, with
-- their parameters filled in by `tparm`, and `tputs` are parameters. Log output is left out.
pub mod Sending
pub mod Quiet
use libfep.Base.{
  ℕ, suc, ◌-◌, ◌%◌, ◌^◌, bit_and, Bool, true, false, not, ◌&&◌, ◌||◌, Option, none, some, List,
  Bytes, [], ◌∷◌, ◌++◌, length, take, drop, get_elem?, ◌==◌, ltb, if◌then◌else◌, Outcome, ok,
  failed, fault, died, looping,
}
use libfep.Base.Act.{Act, ◌>>=◌, ◌>>◌, lift, pure}
use libfep.Base.Int.{ℤ, pos, negsuc, ◌+ℤ◌, negℤ}
use libfep.Csi.{Csi, Scan, complete, partial, absent, csi_scan, csi_format}
use libfep.FepString.{Memory, FepString, zeroed, append}
use libfep.Input.{Tty, Reading, read_tty}
use libfep.Message.{Attribute}
use libfep.Number.{Strtoul, strtoul}
use libfep.Sgr.{SgrAttr, SgrCodes, params_from_attr}
use libfep.Strv.{strsplit, strjoinv}
use libfep.Wide.{Locale}
use libfep.Wire.{Sink, send_once}

pub record Point : Type 0 where
  pub row : ℤ
  pub col : ℤ

-- `FEP_SGR_ATTR_MASK`
abbrev pub attr_mask : ℕ
attr_mask = 15

-- What the terminal's description and the libraries give. A conversion that fails gives `none`.
pub record Device : Type 0 where
  pub tputs : Bytes → Bytes
  pub cursor_address : ℤ → ℤ → Bytes
  pub change_scroll_region : ℤ → ℤ → Bytes
  pub clear_screen : Bytes
  pub exit_attribute_mode : Bytes
  pub save_cursor : Bytes
  pub restore_cursor : Bytes
  pub clr_eol : Bytes
  pub cursor_invisible : Bytes
  pub cursor_normal : Bytes
  pub to_locale : Bytes → Option Bytes
  pub locale : Locale
  pub memory : Memory

-- `tty_out` is what the terminal is sent, and `tty` what it sends.
pub record Screen : Type 0 where
  pub tty_out : Sink
  pub tty : Tty
  pub ptybuf : FepString
  pub has_cpr : Bool
  pub cursor : Point
  pub cursor_save : Point
  pub cursor_diff : Point
  pub ws_row : ℕ
  pub ws_col : ℕ
  pub cursor_text : Option Bytes
  pub cursor_text_attr : Attribute
  pub status_text : Bytes
  pub status_text_attr : Attribute
  pub attr : SgrAttr
  pub attr_pty : SgrAttr
  pub attr_tty : SgrAttr
  pub sgr_codes : SgrCodes

-- A change that cannot fail.
abbrev pub change : (Screen → Screen) → Act Screen (Unit {0})
change f s = (ok tt, f s)

-- `write (fep->tty_out, str, length)`, whose result is not looked at
abbrev pub write_tty : Bytes → Screen → Screen
write_tty str s = record s { tty_out = send_once str s.tty_out }

-- `_putchar` on every byte that `tputs` puts out
unfoldable pub put_each : Bytes → Screen → Screen
put_each [] s = s
put_each (c ∷ str) s = put_each str (write_tty (c ∷ []) s)

-- The test of `apply_attr`: a bit is cleared, or a colour goes back to the default.
abbrev pub is_cleared : SgrAttr → SgrAttr → Bool
is_cleared old new =
    not (bit_and (bit_and old.attr (2 ^ 32 - 1 - new.attr)) attr_mask == 0)
    || (not (old.foreground == 0) && new.foreground == 0)
    || (not (old.background == 0) && new.background == 0)

-- `memcmp (&fep->attr, attr, sizeof(FepSgrAttr)) == 0`
abbrev pub same_attr : SgrAttr → SgrAttr → Bool
same_attr a b = a.attr == b.attr && a.foreground == b.foreground && a.background == b.background

-- `csi.intermediate = ""; csi.final = 'm'`
abbrev pub sgr_csi : Bytes → Csi
sgr_csi params = record { params = params; intermediate = []; final = b'm' }

-- An `unsigned long` stored in an `int`
abbrev pub int_of : ℕ → ℤ
int_of n = if ltb (n % 2 ^ 32) (2 ^ 31) then pos (n % 2 ^ 32) else negsuc (2 ^ 32 - 1 - n % 2 ^ 32)

-- `errno != 0 || *endptr != '\0'`
abbrev pub not_number : Strtoul → Bool
not_number r = r.range_error || ltb 0 (length r.rest)

-- `strtoul (strv[i], &endptr, 10)`: a place past the strings holds NULL.
abbrev pub number_at : {A : Type 0} → List Bytes → ℕ → (Strtoul → Outcome A) → Outcome A
number_at strv i next = elim (get_elem? strv i) [ none ↦ fault | some str ↦ next (strtoul str) ]

-- The point stored, and whether the report was understood. A row that is no number is stored too.
abbrev pub parse_col : Point → Strtoul → Outcome (Point × Bool)
parse_col point col = ok (record point { col = int_of col.value }, not (not_number col))

abbrev pub parse_row : Point → List Bytes → Strtoul → Outcome (Point × Bool)
parse_row point strv row =
    let point' = record point { row = int_of row.value } in
    if not_number row then ok (point', false) else number_at strv 1 (parse_col point')

abbrev pub parse_cpr : Point → List Bytes → Outcome (Point × Bool)
parse_cpr point strv = number_at strv 0 (parse_row point strv)

module _ (d : Device) where
  unfoldable pub putp : Bytes → Screen → Screen
  putp str s = put_each (d.tputs str) s

  -- `_fep_output_set_attributes`
  unfoldable pub set_attributes : SgrAttr → Act Screen (Unit {0})
  set_attributes attr s =
      (do
        params ← lift (strjoinv (params_from_attr s.sgr_codes attr) (b';' ∷ []))
        change (λ s'. putp (csi_format (sgr_csi params)) (record s' { attr = attr })))
        s

  -- `_fep_output_change_scroll_region`
  unfoldable pub change_scroll_region : ℤ → ℤ → Screen → Screen
  change_scroll_region start end s = record (putp (d.change_scroll_region start end) s) {
    cursor = record { row = pos 0; col = pos 0 };
  }

  unfoldable pub apply_attr : SgrAttr → Act Screen (Unit {0})
  apply_attr attr s =
      if is_cleared s.attr attr
      then (do change (putp d.exit_attribute_mode); set_attributes attr) s
      else if same_attr s.attr attr
      then (ok tt, s)
      else set_attributes attr s

  -- `_fep_output_cursor_address`
  unfoldable pub cursor_address : ℤ → ℤ → Screen → Screen
  cursor_address row col s = record (putp (d.cursor_address row col) s) {
    cursor = record { row = row; col = col };
  }

  unfoldable pub goto_status_text : ℤ → Screen → Screen
  goto_status_text col s = cursor_address (pos s.ws_row) col s

  -- From the test of `strtoul` on: what is around the report is put back.
  abbrev pub finish_dsr : Bytes → Bytes → Point × Bool → Act Screen (Point × Bool)
  finish_dsr before rest (point, false) s = (ok (point, false), s)
  finish_dsr before rest (point, true) s =
      (do
        ttybuf ← lift (append d.memory s.tty.ttybuf before)
        ttybuf' ← lift (append d.memory ttybuf rest)
        λ (s' : Screen). (ok (point, true), record s' { tty = record s'.tty { ttybuf = ttybuf' } }))
        s

  abbrev pub scanned_cpr : Point → Scan → Act Screen (Point × Bool)
  scanned_cpr point absent = pure (point, false)
  scanned_cpr point (partial before csi) = pure (point, false)
  scanned_cpr point (complete before csi rest) = do
    strv ← lift (strsplit (take (length csi - 3) (drop 2 csi)) (b';' ∷ []))
    parsed ← lift (parse_cpr point strv)
    finish_dsr before rest parsed

  -- What `_fep_read` leaves of the 16 bytes of `buf`: bytes that it has not stored are not known, so
  -- that using one is a fault.
  abbrev pub appended : Reading → Outcome Bytes
  appended r = if ltb (length r.stored) r.returned then fault else ok r.stored

  abbrev pub reads : ℕ → Act Screen Reading
  reads n s = let (r, tty) = read_tty n s.tty in (r, record s { tty = tty })

  -- A return of -1 from `_fep_read` ends the function with false.
  abbrev pub dsr_read : Point → Outcome Reading × Screen → Outcome (Point × Bool) × Screen
  dsr_read point (ok r, s) =
      (do
        buf ← lift (appended r)
        csibuf ← lift (append d.memory zeroed buf)
        scan ← lift (csi_scan (take csibuf.len csibuf.str) (some b'R'))
        scanned_cpr point scan)
        s
  dsr_read point (failed, s) = (ok (point, false), s)
  dsr_read point (fault, s) = (fault, s)
  dsr_read point (died, s) = (died, s)
  dsr_read point (looping, s) = (looping, s)

  -- `_fep_output_dsr_cpr`: with `retry` 2 the loop has one round. It gives the point that it leaves.
  unfoldable pub dsr_cpr : Point → Act Screen (Point × Bool)
  dsr_cpr point s = dsr_read point (reads 16 (putp (27 ∷ b'[' ∷ b'6' ∷ b'n' ∷ []) s))

  -- The two coordinates less `cursor_diff`
  abbrev pub less_diff : Point × Bool → Act Screen (Point × Bool)
  less_diff (point, false) s = (ok (point, false), s)
  less_diff (point, true) s =
      let corrected : Point = record {
        row = point.row +ℤ negℤ s.cursor_diff.row;
        col = point.col +ℤ negℤ s.cursor_diff.col;
      } in
      (ok (corrected, true), s)

  -- `_fep_output_get_cursor_position`
  unfoldable pub get_cursor_position : Point → Act Screen (Point × Bool)
  get_cursor_position point s =
      if s.has_cpr then (do found ← dsr_cpr point; less_diff found) s else (ok (point, false), s)

  -- `_fep_output_save_cursor`
  unfoldable pub save_cursor : Act Screen (Unit {0})
  save_cursor s =
      if s.has_cpr
      then (do
        (point, found) ← get_cursor_position s.cursor_save
        change (λ s'. record s' { cursor_save = point }))
          s
      else (let s' = putp d.save_cursor s in (ok tt, record s' { cursor_save = s'.cursor }))

  -- `_fep_output_restore_cursor`
  unfoldable pub restore_cursor : Screen → Screen
  restore_cursor s =
      if s.has_cpr
      then cursor_address s.cursor_save.row s.cursor_save.col s
      else (let s' = putp d.restore_cursor s in record s' { cursor = s'.cursor_save })
