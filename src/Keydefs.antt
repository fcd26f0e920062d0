-- ===== src/Keydefs.antt =====
-- libfep/keydefs.h: modifier bits and key values.
use libfep.Base.{ℕ, ◌^◌}

abbrev pub shift_mask : ℕ
shift_mask = 2 ^ 0

abbrev pub lock_mask : ℕ
lock_mask = 2 ^ 1

abbrev pub control_mask : ℕ
control_mask = 2 ^ 2

abbrev pub mod1_mask : ℕ
mod1_mask = 2 ^ 3

abbrev pub mod2_mask : ℕ
mod2_mask = 2 ^ 4

abbrev pub mod3_mask : ℕ
mod3_mask = 2 ^ 5

abbrev pub mod4_mask : ℕ
mod4_mask = 2 ^ 6

abbrev pub mod5_mask : ℕ
mod5_mask = 2 ^ 7

abbrev pub super_mask : ℕ
super_mask = 2 ^ 26

abbrev pub hyper_mask : ℕ
hyper_mask = 2 ^ 27

abbrev pub meta_mask : ℕ
meta_mask = 2 ^ 28

abbrev pub release_mask : ℕ
release_mask = 2 ^ 30

abbrev pub left : ℕ
left = 0xff51

abbrev pub up : ℕ
up = 0xff52

abbrev pub right : ℕ
right = 0xff53

abbrev pub down : ℕ
down = 0xff54

abbrev pub back_space : ℕ
back_space = 0xff08

abbrev pub delete : ℕ
delete = 0xffff

abbrev pub prior : ℕ
prior = 0xff55

abbrev pub next : ℕ
next = 0xff56

abbrev pub home : ℕ
home = 0xff50

abbrev pub end : ℕ
end = 0xff57

abbrev pub insert : ℕ
insert = 0xff63

abbrev pub f1 : ℕ
f1 = 0xffbe

abbrev pub f2 : ℕ
f2 = 0xffbf

abbrev pub f3 : ℕ
f3 = 0xffc0

abbrev pub f4 : ℕ
f4 = 0xffc1

abbrev pub f5 : ℕ
f5 = 0xffc2

abbrev pub f6 : ℕ
f6 = 0xffc3

abbrev pub f7 : ℕ
f7 = 0xffc4

abbrev pub f8 : ℕ
f8 = 0xffc5

abbrev pub f9 : ℕ
f9 = 0xffc6

abbrev pub f10 : ℕ
f10 = 0xffc7

abbrev pub f11 : ℕ
f11 = 0xffc8

abbrev pub f12 : ℕ
f12 = 0xffc9

abbrev pub tab : ℕ
tab = 0xff09

abbrev pub return : ℕ
return = 0xff0d

abbrev pub escape : ℕ
escape = 0xff1b
