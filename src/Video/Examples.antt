-- ===== src/Video/Examples.antt =====
-- The signal from `video_on` on, and the theorems about it.
use dan.Prelude.{ℕ, ◌≤◌, ◌≡◌, refl, arith}
use dan.Video.{Signal, run, addresses}
use dan.Video.Lines.{IsValid, vsync-comes, picture, addresses-picture}

abbrev started : Signal
started = record { vsync = 0; scanline = 310; adj_pal_lines = 1 }

abbrev started-IsValid : IsValid started
started-IsValid = record { first_le = omega arith; last_le = omega arith; flag = omega arith }

vsync-comes_example : (n : ℕ) × (n ≤ 313) × ((run n started).vsync ≡ 1)
vsync-comes_example = vsync-comes started started-IsValid

abbrev line_7 : Signal
line_7 = record { vsync = 1; scanline = 7; adj_pal_lines = 0 }

addresses-picture_example : addresses 306 line_7 ≡ picture 192 0
addresses-picture_example = addresses-picture line_7 refl
