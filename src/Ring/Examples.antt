-- ===== src/Ring/Examples.antt =====
-- A buffer of four bytes, and the theorems about it.
use dan.Prelude.{◌+◌, ◌≡◌, refl, if◌then◌else◌, arith, [], ◌∷◌, ◌++◌}
use dan.Ring.{Ring, insert, is_full, next}
use dan.Ring.Queue.{contents, tail, IsValid, insert_lem}

-- Two bytes, around the end of the array.
abbrev two : Ring
two = record { buffer = λ p. p + 10; start = 3; stop = 1 }

abbrev three : Ring
three = record { buffer = λ p. p + 10; start = 3; stop = 2 }

abbrev three-IsValid : IsValid 4 three
three-IsValid = record { start_in = omega arith; stop_in = omega arith }

keeps_three : contents 4 (insert 4 7 (insert 4 6 two)) ≡ 10 ∷ 6 ∷ 7 ∷ []
unfolding insert next
keeps_three = refl

insert_lem_example :
    (contents 4 (insert 4 7 three)
      ≡ (if is_full 4 three then tail (contents 4 three) else contents 4 three) ++ 7 ∷ [])
    × IsValid 4 (insert 4 7 three)
insert_lem_example = insert_lem 4 7 three three-IsValid (omega arith)
