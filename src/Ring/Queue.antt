-- ===== src/Ring/Queue.antt =====
-- The buffer is a queue of fewer bytes than its size, which drops the oldest one when it is full.
use dan.Prelude.{
  refl, length, Bool-cases, inl, inr, ℕ, zero, suc, ◌+◌, ◌-◌, ◌%◌, ◌≤◌, ◌<◌, ◌≡◌, ◌==◌, true, false,
  ap, ap₂, ◌∙◌, sym, leb, ltb, if◌then◌else◌, arith, List, [], ◌∷◌, ◌++◌,
}
use native.Mathlib.Nat.{mod-eq_of_lt, mod_self}
use native.Mathlib.Decide.{dec_lt}
use dan.Ring.{Ring, next, insert, is_ready, is_full, take_out}

-- The bytes behind the oldest one.
abbrev pub tail : List ℕ → List ℕ
tail [] = []
tail (x ∷ xs) = xs

module _ (size : ℕ) where
  -- An index that may have passed the end of the array once.
  abbrev pub wrap : ℕ → ℕ
  wrap i = if ltb i size then i else i - size

  next-end : (i : ℕ) → i + 1 ≡ size → (i + 1) % size ≡ 0
  next-end i e = ap (λ (n : ℕ). n % size) e ∙ mod_self size

  pub next_lem : (i : ℕ) → i < size → next size i ≡ wrap (i + 1)
  unfolding next
  next_lem i h = elim (dec_lt (i + 1) size) [
    | yes below ↦ mod-eq_of_lt below ∙ ground arith
    | no past ↦ next-end i (omega arith) ∙ ground arith
  ]

  -- The bytes from an index on, around the end of the array.
  abbrev pub window : (ℕ → ℕ) → ℕ → ℕ → List ℕ
  window buf h zero = []
  window buf h (suc n) = buf h ∷ window buf (wrap (h + 1)) n

  abbrev pub count : Ring → ℕ
  count r = if leb r.start r.stop then r.stop - r.start else r.stop + size - r.start

  abbrev pub contents : Ring → List ℕ
  contents r = window r.buffer r.start (count r)

  -- Both indices are in the array.
  pub record IsValid (r : Ring) : Type 0 where
    pub start_in : r.start < size
    pub stop_in : r.stop < size

  pub insert-IsValid : (byte : ℕ) (r : Ring) → IsValid r → IsValid (insert size byte r)
  unfolding insert
  insert-IsValid byte r v = ground (arith, next_lem r.stop, next_lem r.start)

  pub take_out-IsValid : (r : Ring) → IsValid r → IsValid (take_out size r).1
  unfolding take_out
  take_out-IsValid r v = ground (arith, next_lem r.start)

  -- A byte written behind a window makes it longer.
  window-write :
      (buf : ℕ → ℕ) (b n h e : ℕ)
      → h < size
      → n < size
      → e ≡ wrap (h + n)
      → window (λ p. if p == e then b else buf p) h (suc n) ≡ window buf h n ++ b ∷ []
  window-write buf b zero h e hh hn he = ap (λ (x : ℕ). x ∷ []) (ground arith)
  window-write buf b (suc n) h e hh hn he =
      ap₂ (λ (x : ℕ) (xs : List ℕ). x ∷ xs) {x = if h == e then b else buf h} {y = buf h}
        (ground arith)
        (window-write buf b n (wrap (h + 1)) e (ground arith) (omega arith) (ground arith))

  length-window : (buf : ℕ → ℕ) (h n : ℕ) → length (window buf h n) ≡ n
  length-window buf h zero = refl
  length-window buf h (suc n) = omega (arith, length-window buf (wrap (h + 1)) n)

  pub length-contents : (r : Ring) → length (contents r) ≡ count r
  length-contents r = length-window r.buffer r.start (count r)

  pub contents-full : (r : Ring) → IsValid r → is_full size r ≡ true → count r + 1 ≡ size
  unfolding is_full
  contents-full r v h = ground (arith, next_lem r.stop)

  module _ (byte : ℕ) (r : Ring) (v : IsValid r) (two : 2 ≤ size) where
    -- A byte is added behind the others if the buffer is not full.
    pub insert-room :
        is_full size r ≡ false → contents (insert size byte r) ≡ contents r ++ byte ∷ []
    unfolding insert is_full next
    insert-room h = rw h (
        ap (window (λ p. if p == r.stop then byte else r.buffer p) r.start) {y = suc (count r)}
          (ground (arith, next_lem r.stop))
        ∙ window-write r.buffer byte (count r) r.start r.stop (ground arith)
            (ground (arith, next_lem r.stop)) (ground (arith)))

    -- A full buffer loses its oldest byte.
    pub insert-full :
        is_full size r ≡ true → contents (insert size byte r) ≡ tail (contents r) ++ byte ∷ []
    unfolding insert is_full next
    insert-full h = rw h (
        ap₂ (window (λ p. if p == r.stop then byte else r.buffer p)) {y = wrap (r.start + 1)}
          {v = suc (size - 2)} (next_lem r.start v.start_in)
          (ground (arith, next_lem r.stop, next_lem r.start, contents-full r v h))
        ∙ window-write r.buffer byte (size - 2) (wrap (r.start + 1)) r.stop (ground arith)
            (omega arith) (ground (arith, next_lem r.stop))
        ∙ ap (λ (xs : List ℕ). xs ++ byte ∷ [])
            (sym (
              ap (λ (n : ℕ). tail (window r.buffer r.start n)) {y = suc (size - 2)}
                (omega (arith, contents-full r v h)))))

    -- A byte is added behind the others, for a size of at least 2 and indices in the array; a full
    -- buffer loses its oldest byte, and both indices stay in the array.
    pub insert_lem :
        (contents (insert size byte r)
          ≡ (if is_full size r then tail (contents r) else contents r) ++ byte ∷ [])
        × IsValid (insert size byte r)
    insert_lem = (
      elim (Bool-cases (is_full size r)) [
        | inl full ↦ rw full (insert-full full)
        | inr room ↦ rw room (insert-room room)
      ],
      insert-IsValid byte r v,
    )

  -- Taking a byte of a buffer that is not empty gives the oldest one and leaves the others, if the
  -- indices are in the array.
  pub take_out_lem :
      (r : Ring)
      → IsValid r
      → is_ready r ≡ true
      → contents r ≡ (take_out size r).0 ∷ contents (take_out size r).1
  unfolding take_out is_ready
  take_out_lem r v h = rw h (
      ap (window r.buffer r.start) {y = suc (count r - 1)} (ground arith)
      ∙ ap (λ (xs : List ℕ). r.buffer r.start ∷ xs)
          (ap₂ (window r.buffer) (sym (next_lem r.start v.start_in))
            (ground (arith, next_lem r.start))))
