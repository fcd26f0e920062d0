-- ===== src/Tests/Attributes.antt =====
-- SGR parameters at fixed inputs.
use libfep.Base.{◌-◌, ◌^◌, ◌≡◌, refl, ok}
use libfep.Message.{Attribute}
use libfep.Sgr.{
  enter_underline, exit_underline, enter_standout, exit_standout, enter_bold, enter_blink,
  orig_pair, orig_fore, orig_back, SgrCodes, SgrAttr, params_from_attr, params_to_attr,
}
use libfep.Sgr.Colours.{Apart, params_to_attr-params_from_attr}

abbrev xterm : SgrCodes
xterm enter_underline = 4
xterm exit_underline = 24
xterm enter_standout = 7
xterm exit_standout = 27
xterm enter_bold = 1
xterm enter_blink = 5
xterm orig_pair = 2 ^ 32 - 1
xterm orig_fore = 39
xterm orig_back = 49

xterm-Apart : Apart xterm
xterm-Apart enter_underline = refl
xterm-Apart exit_underline = refl
xterm-Apart enter_standout = refl
xterm-Apart exit_standout = refl
xterm-Apart enter_bold = refl
xterm-Apart enter_blink = refl
xterm-Apart orig_pair = refl
xterm-Apart orig_fore = refl
xterm-Apart orig_back = refl

-- Red on bright white.
abbrev red_on_white : SgrAttr
red_on_white = record { attr = 0; foreground = 31; background = 97 }

params_to_attr-params_from_attr_example :
    params_to_attr xterm (params_from_attr xterm red_on_white) ≡ ok red_on_white
params_to_attr-params_from_attr_example =
    params_to_attr-params_from_attr xterm xterm-Apart 31 97 refl refl

abbrev bold_text : Attribute
bold_text = record { type = 5; value = 1; start_index = 0; end_index = 3 }
