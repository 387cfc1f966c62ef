-- ===== src/Editor/Line.antt =====
-- What the keys do to a line of text: a list of characters and a place in it.
use dan.Prelude.{
  ℕ, zero, suc, ◌+◌, ◌-◌, ◌==◌, ltb, if◌then◌else◌, Option, none, some, List, [], ◌∷◌, length,
}

pub record Line : Type 0 where
  pub text : List ℕ
  pub pos : ℕ

unfoldable pub insert_at : List ℕ → ℕ → ℕ → List ℕ
insert_at xs zero y = y ∷ xs
insert_at [] (suc i) y = y ∷ []
insert_at (x ∷ xs) (suc i) y = x ∷ insert_at xs i y

unfoldable pub erase_at : List ℕ → ℕ → List ℕ
erase_at [] i = []
erase_at (x ∷ xs) zero = xs
erase_at (x ∷ xs) (suc i) = x ∷ erase_at xs i

-- A key other than the new line, in a line that has room for `size - 1` characters. At the end of
-- the line a character moves the place behind it, elsewhere it does not.
unfoldable pub key : ℕ → ℕ → Line → Line
unfolding insert_at erase_at
key size d l =
    if d == 0
    then l
    else if d == 0x11
    then record l { pos = l.pos - 1 }
    else if d == 0x10
    then record l { pos = if ltb l.pos (length l.text) then l.pos + 1 else l.pos }
    else if d == 0x08
    then (if ltb 0 l.pos then record { text = erase_at l.text (l.pos - 1); pos = l.pos - 1 } else l)
    else if length l.text + 1 == size
    then l
    else record {
      text = insert_at l.text l.pos d;
      pos = if l.pos == length l.text then l.pos + 1 else l.pos;
    }

-- The line at the new line, and the keys behind it.
unfoldable pub line : ℕ → List ℕ → Line → Option (Line × List ℕ)
unfolding key
line size [] l = none
line size (d ∷ keys) l =
    let rest = line size keys (key size d l) in if d == 0x0a then some (l, keys) else rest
