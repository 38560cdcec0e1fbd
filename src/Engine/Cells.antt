-- ===== src/Engine/Cells.antt =====
-- `Cell` and `Frame` of src/engine/src/ffi.rs, the structs of src/terminal/engine.h. The numbers of a
-- frame are not negative.
use worminal.Prelude.{ℕ, ◌^◌}

pub record Cell : Type 0 where
  pub rune : ℕ
  pub attributes : ℕ
  pub foreground : ℕ
  pub background : ℕ

pub record Frame : Type 0 where
  pub columns : ℕ
  pub rows : ℕ
  pub cursor_x : ℕ
  pub cursor_y : ℕ
  pub scroll : ℕ
  pub alternate : ℕ
  pub redraw_deadline : ℕ

-- The bits of `attributes` that the program itself reads.
abbrev pub attr_wrap : ℕ
attr_wrap = 2 ^ 8

abbrev pub attr_wide : ℕ
attr_wide = 2 ^ 9

abbrev pub default_foreground : ℕ
default_foreground = 258

abbrev pub default_background : ℕ
default_background = 259
