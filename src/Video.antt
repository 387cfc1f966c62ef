-- ===== src/Video.antt =====
-- The video signal of video/video.c: the interrupt routine TIMER1_OVF_vect, once for each line of
-- the picture.
pub mod Lines
mod Examples
use dan.Prelude.{
  ℕ, zero, suc, ◌+◌, ◌-◌, ◌*◌, ◌==◌, ◌&&◌, not, ltb, leb, if◌then◌else◌, u16, Option, none, some,
  List, [], ◌∷◌,
}

-- `vsync`, `scanline` and `adj_pal_lines`.
pub record Signal : Type 0 where
  pub vsync : ℕ
  pub scanline : ℕ
  pub adj_pal_lines : ℕ

abbrev pub pal_lines_per_frame : ℕ
pal_lines_per_frame = 312

-- 312 / 2 - 192 / 2 + 8
abbrev pub pal_lines_dbegin : ℕ
pal_lines_dbegin = 68

abbrev pub pal_lines_dend : ℕ
pal_lines_dend = 260

unfoldable pub video_on : Signal → Signal
video_on s = record { vsync = 0; scanline = 310; adj_pal_lines = 1 }

unfoldable pub video_off : Signal → Signal
video_off s = record s { vsync = 1 }

-- `vsync` after the sync pulse and the test that clears it six lines before the picture.
unfoldable pub sync : Signal → ℕ
sync s =
    let raised =
      if ltb 5 s.scanline && ltb s.scanline 310
      then s.vsync
      else if s.scanline == 310
      then 1
      else s.vsync in
    if s.scanline + 6 == pal_lines_dbegin then 0 else raised

-- The address that the line reads its 32 bytes from.
unfoldable pub line_address : ℕ → Option ℕ
line_address scanline =
    if leb pal_lines_dbegin scanline && ltb scanline pal_lines_dend
    then some (u16 (0x200 + (scanline - pal_lines_dbegin) * 32))
    else none

-- The de-interlace adjustment, and the next line.
unfoldable pub next_line : Signal → Signal
next_line s =
    let adj =
      if s.scanline == 6 then (if s.adj_pal_lines == 0 then 1 else 0) else s.adj_pal_lines in
    let n = (if s.scanline == 6 then s.scanline - adj else s.scanline) + 1 in
    record s { scanline = if ltb pal_lines_per_frame n then 1 else n; adj_pal_lines = adj }

-- TIMER1_OVF_vect: the next state, and the address that is read from.
unfoldable pub timer1_ovf : Signal → Signal × Option ℕ
unfolding sync line_address next_line
timer1_ovf s = (next_line (record s { vsync = sync s }), line_address s.scanline)

-- The state after a number of interrupts.
unfoldable pub run : ℕ → Signal → Signal
unfolding timer1_ovf
run zero s = s
run (suc n) s = run n (timer1_ovf s).0

abbrev pub add : Option ℕ → List ℕ → List ℕ
add none rest = rest
add (some a) rest = a ∷ rest

-- The addresses that a number of interrupts read from.
unfoldable pub addresses : ℕ → Signal → List ℕ
unfolding timer1_ovf
addresses zero s = []
addresses (suc n) s = add (timer1_ovf s).1 (addresses n (timer1_ovf s).0)
