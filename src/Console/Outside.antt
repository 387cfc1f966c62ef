-- ===== src/Console/Outside.antt =====
-- What `put_char` and `put_string` of init/main.c leave alone: the memory outside the screen.
use dan.Prelude.{ℕ, ◌+◌, ◌*◌, ◌<◌, ◌≤◌, ◌≡◌, ◌⊎◌, refl, ap, ◌∙◌, arith, List, [], ◌∷◌, ◌++◌}
use dan.Vm.Bus.{Bus}
use dan.Console.{
  Console, IsValid, line_down, place, wrap_line, put_char, put_chars, put_char-IsValid,
}
use dan.Console.Screen.{put_lines, video_put_char, lines_outside, scroll_up}
use dan.Console.Screen.Shown.{scroll_up_lem}

-- An address that is not in the video memory.
abbrev pub Outside : ℕ → Type 0
Outside p = (p < 0x200) ⊎ (0x1a00 ≤ p)

module _ {M : Type 0} (sram : Bus M) (p : ℕ) (out : Outside p) where
  scroll_up-outside : (m : M) → sram.peek (scroll_up sram m) p ≡ sram.peek m p
  scroll_up-outside m = scroll_up_lem sram m p ∙ ground (arith, out)

  module _ (font : ℕ → ℕ) where
    video_put_char-outside :
        (x y c : ℕ) (m : M)
        → x ≤ 31
        → y ≤ 23
        → sram.peek (video_put_char sram font x y c m) p ≡ sram.peek m p
    unfolding video_put_char
    video_put_char-outside x y c m hx hy =
        ap (λ (a : ℕ). sram.peek (put_lines sram (λ line. font (line + c * 8)) 8 0 a m) p)
          {y = 0x200 + x + y * 256} (omega arith)
        ∙ lines_outside sram (λ line. font (line + c * 8)) 8 0 (0x200 + x + y * 256) m p
            (omega arith) (λ k h e. ground (arith, out))

    line_down-outside :
        (con : Console M) → sram.peek (line_down sram font con).sram p ≡ sram.peek con.sram p
    unfolding line_down
    line_down-outside con = ground (arith, scroll_up-outside con.sram)

    pub put_char-outside :
        (c : ℕ) (con : Console M)
        → IsValid con
        → sram.peek (put_char sram font c con).sram p ≡ sram.peek con.sram p
    unfolding put_char place wrap_line
    put_char-outside c con v = ground (
      arith,
      line_down-outside (place sram font c con),
      line_down-outside (record con { x = 0 }),
      line_down-outside (record (place sram font c con) { x = 0 }),
      video_put_char-outside con.x con.y c con.sram v.x_le v.y_le,
    )

    -- A text that is printed changes nothing outside the screen.
    pub put_chars-outside :
        (cs : List ℕ) (con : Console M)
        → IsValid con
        → sram.peek (put_chars sram font cs con).sram p ≡ sram.peek con.sram p
    unfolding put_chars
    put_chars-outside [] con v = refl
    put_chars-outside (c ∷ cs) con v =
        put_chars-outside cs (put_char sram font c con) (put_char-IsValid sram font c con v)
        ∙ put_char-outside c con v

-- A text in two parts.
pub put_chars-append :
    {M : Type 0} (sram : Bus M) (font : ℕ → ℕ) (cs ds : List ℕ) (con : Console M)
    → put_chars sram font (cs ++ ds) con ≡ put_chars sram font ds (put_chars sram font cs con)
unfolding put_chars
put_chars-append sram font [] ds con = refl
put_chars-append sram font (c ∷ cs) ds con =
    put_chars-append sram font cs ds (put_char sram font c con)
