-- ===== src/Video/Lines.antt =====
-- The lines of the picture come from the video memory in order, and every frame is announced.
use dan.Prelude.{
  ap₂, if◌then◌else◌, leb, ◌/◌, ◌%◌, ◌++◌, ℕ, zero, suc, ◌+◌, ◌-◌, ◌<◌, ◌≤◌, ◌≡◌, ◌⊎◌, inl, inr,
  refl, ap, ◌∙◌, arith, Option, none, some, List, [], ◌∷◌,
}
use mathlib.Core.List.{append-nil}
use dan.Vm.State.{prog_start}
use dan.Console.Screen.Shown.{dots_address}
use dan.Video.{Signal, timer1_ovf, run, add, addresses}

-- The line is one of the frame, and the adjustment a flag.
pub record IsValid (s : Signal) : Type 0 where
  pub first_le : 1 ≤ s.scanline
  pub last_le : s.scanline ≤ 312
  pub flag : s.adj_pal_lines ≤ 1

pub timer1_ovf-IsValid : (s : Signal) → IsValid s → IsValid (timer1_ovf s).0
unfolding timer1_ovf
timer1_ovf-IsValid s v = ground arith

-- The 32 bytes of every line that is read are in the video memory, between the bytes that the
-- machine keeps for itself and the programs at PROG_START.
pub line_address_bounds :
    (s : Signal) (a : ℕ) → (timer1_ovf s).1 ≡ some a → (0x200 ≤ a) × (a + 32 ≤ prog_start)
unfolding timer1_ovf
line_address_bounds s a h = ground arith

-- How many interrupts there are up to the one of line 310; line 6 may come twice.
abbrev left : Signal → ℕ
left s =
    if leb s.scanline 6
    then 312 - s.scanline - s.adj_pal_lines
    else if leb s.scanline 310
    then 311 - s.scanline
    else 624 - s.scanline - s.adj_pal_lines

left_step : (s : Signal) (n : ℕ) → IsValid s → left s ≡ suc (suc n) → left (timer1_ovf s).0 ≡ suc n
unfolding timer1_ovf
left_step s n v h = ground arith

left_last : (s : Signal) → IsValid s → left s ≡ 1 → (timer1_ovf s).0.vsync ≡ 1
unfolding timer1_ovf
left_last s v h = ground arith

reaches : (n : ℕ) (s : Signal) → IsValid s → left s ≡ suc n → (run (suc n) s).vsync ≡ 1
unfolding run
reaches zero s v h = left_last s v h
reaches (suc n) s v h = reaches n (timer1_ovf s).0 (timer1_ovf-IsValid s v) (left_step s n v h)

some_left : (s : Signal) → IsValid s → (n : ℕ) × (left s ≡ suc n) × (n < 313)
some_left s v = (left s - 1, ground arith, ground arith)

-- From every line of the frame `vsync` is raised within 313 interrupts, so `video_wait` ends.
pub vsync-comes : (s : Signal) → IsValid s → (n : ℕ) × (n ≤ 313) × ((run n s).vsync ≡ 1)
vsync-comes s v = let (n, e, b) = some_left s v in (suc n, omega arith, reaches n s v e)

next : (s : Signal) → 7 ≤ s.scanline → s.scanline < 312 → (timer1_ovf s).0.scanline ≡ s.scanline + 1
unfolding timer1_ovf
next s h k = ground arith

no_line : (s : Signal) → (s.scanline < 68) ⊎ (260 ≤ s.scanline) → (timer1_ovf s).1 ≡ none
unfolding timer1_ovf
no_line s (inl h) = ground arith
no_line s (inr h) = ground arith

line :
    (s : Signal) (k : ℕ)
    → s.scanline ≡ 68 + k
    → k < 192
    → (timer1_ovf s).1 ≡ some (dots_address 0 (k / 8) (k % 8))
unfolding timer1_ovf
line s k h l = ground arith

scanline-run :
    (n : ℕ) (s : Signal)
    → 7 ≤ s.scanline
    → s.scanline + n ≤ 312
    → (run n s).scanline ≡ s.scanline + n
unfolding run
scanline-run zero s h k = omega arith
scanline-run (suc n) s h k =
    let e = next s h (omega arith) in
    scanline-run n (timer1_ovf s).0 (omega arith) (omega arith) ∙ omega arith

add-append : (a : Option ℕ) (xs ys : List ℕ) → add a (xs ++ ys) ≡ add a xs ++ ys
add-append none xs ys = refl
add-append (some a) xs ys = refl

addresses-append :
    (n m : ℕ) (s : Signal) → addresses (n + m) s ≡ addresses n s ++ addresses m (run n s)
unfolding addresses run
addresses-append zero m s = ap (λ (k : ℕ). addresses k s) {y = m} (omega arith)
addresses-append (suc n) m s =
    ap (λ (k : ℕ). addresses k s) {y = suc (n + m)} (omega arith)
    ∙ ap (add (timer1_ovf s).1) (addresses-append n m (timer1_ovf s).0)
    ∙ add-append (timer1_ovf s).1 (addresses n (timer1_ovf s).0) _

-- Lines above and below the picture read nothing.
blank_above : (n : ℕ) (s : Signal) → 7 ≤ s.scanline → s.scanline + n ≤ 68 → addresses n s ≡ []
unfolding addresses
blank_above zero s h k = refl
blank_above (suc n) s h k =
    let e = next s h (omega arith) in
    rw (no_line s (inl (omega arith))) (blank_above n (timer1_ovf s).0 (omega arith) (omega arith))

blank_below : (n : ℕ) (s : Signal) → 260 ≤ s.scanline → s.scanline + n ≤ 313 → addresses n s ≡ []
unfolding addresses
blank_below zero s h k = refl
blank_below (suc zero) s h k = rw (no_line s (inr h)) refl
blank_below (suc (suc n)) s h k =
    let e = next s (omega arith) (omega arith) in
    rw (no_line s (inr h)) (blank_below (suc n) (timer1_ovf s).0 (omega arith) (omega arith))

-- The addresses of the first places of the lines of dots, from a line on.
unfoldable pub picture : ℕ → ℕ → List ℕ
picture zero k = []
picture (suc n) k = dots_address 0 (k / 8) (k % 8) ∷ picture n (k + 1)

inside : (n k : ℕ) (s : Signal) → s.scanline ≡ 68 + k → k + n ≤ 192 → addresses n s ≡ picture n k
unfolding addresses picture
inside zero k s h l = refl
inside (suc n) k s h l =
    let e = next s (omega arith) (omega arith) in
    rw (line s k h (omega arith)) (
      ap (λ (xs : List ℕ). dots_address 0 (k / 8) (k % 8) ∷ xs)
        (inside n (k + 1) (timer1_ovf s).0 (omega arith) (omega arith)))

-- From line 7 to the end of the frame the interrupt routine reads the 192 lines of dots of the
-- screen, each once and from the top to the bottom, where `video_put_char` writes them.
pub addresses-picture : (s : Signal) → s.scanline ≡ 7 → addresses 306 s ≡ picture 192 0
addresses-picture s h =
    let top = run 61 s in
    let bottom = run 192 top in
    let e1 = scanline-run 61 s (omega arith) (omega arith) in
    let e2 = scanline-run 192 top (omega arith) (omega arith) in
    addresses-append 61 245 s
    ∙ rw (blank_above 61 s (omega arith) (omega arith)) (
        addresses-append 192 53 top
        ∙ ap₂ (λ (xs ys : List ℕ). xs ++ ys) (inside 192 0 top (omega arith) (omega arith))
            (blank_below 53 bottom (omega arith) (omega arith))
        ∙ append-nil (picture 192 0))
