-- ===== src/Keyboard/Keys.antt =====
-- `keyboard_asc` as a function of the scan codes that wait, wherever they wait.
use dan.Prelude.{
  length-append, ℕ, zero, suc, ◌<◌, ◌≤◌, ◌≡◌, refl, ap, ◌∙◌, sym, Bool, true, false, not, ◌||◌,
  ◌==◌, if◌then◌else◌, Option, none, some, List, [], ◌∷◌, ◌++◌, length, arith, Bool-cases, inl, inr,
}
use dan.Ring.{Ring, insert, take_out, is_ready, is_full}
use dan.Ring.Queue.{
  contents, contents-full, length-contents, count, IsValid, insert-room, insert-IsValid,
  take_out-IsValid, take_out_lem,
}
use dan.Keyboard.{
  treat, Keyboard, keyb_buffer_size, keyboard_poll, keyboard_scancode, keyboard_asc, character,
}

-- What is left: the codes that wait and the state of shift and release.
pub record Left : Type 0 where
  pub codes : List ℕ
  pub shift : Bool
  pub released : Bool

-- The next character and what is left.
unfoldable pub keys : List ℕ → Bool → Bool → ℕ × Left
unfolding character
keys [] shift released = (0, record { codes = []; shift = shift; released = released })
keys (sc ∷ codes) shift released =
    let after_released = keys codes shift true in
    let after_shift = keys codes (not released) false in
    if sc == 0
    then (0, record { codes = codes; shift = shift; released = released })
    else if sc == 0xf0
    then after_released
    else if (sc == 0x12) || (sc == 0x59)
    then after_shift
    else (character sc shift released, record { codes = codes; shift = shift; released = false })

abbrev pub pending : Keyboard → List ℕ
pending k = contents keyb_buffer_size k.keyb ++ k.usart

abbrev pub view : Option (ℕ × Keyboard) → Option (ℕ × Left)
view none = none
view (some (c, k)) = some (c, record { codes = pending k; shift = k.shift; released = k.released })

append_assoc : (xs : List ℕ) (b : ℕ) (bs : List ℕ) → (xs ++ b ∷ []) ++ bs ≡ xs ++ b ∷ bs
append_assoc [] b bs = refl
append_assoc (x ∷ xs) b bs = ap (λ (ys : List ℕ). x ∷ ys) (append_assoc xs b bs)

-- A buffer that has room for all that waits is not full.
has_room :
    (r : Ring) (b : ℕ) (bs : List ℕ)
    → IsValid keyb_buffer_size r
    → length (contents keyb_buffer_size r ++ b ∷ bs) ≤ 15
    → is_full keyb_buffer_size r ≡ false
has_room r b bs v h = elim (Bool-cases (is_full keyb_buffer_size r)) [
  | inl full ↦ absurd (
      omega (
        arith,
        contents-full keyb_buffer_size r v full,
        length-contents keyb_buffer_size r,
        length-append (contents keyb_buffer_size r) (b ∷ bs),
      ))
  | inr room ↦ room
]

abbrev state : List ℕ → Ring → Bool → Bool → Keyboard
state waiting r s rel = record { usart = waiting; keyb = r; shift = s; released = rel }

poll_pending :
    (waiting : List ℕ) (r : Ring) (s rel : Bool)
    → IsValid keyb_buffer_size r
    → length (pending (state waiting r s rel)) ≤ 15
    → (pending (keyboard_poll (state waiting r s rel)) ≡ pending (state waiting r s rel))
      × IsValid keyb_buffer_size (keyboard_poll (state waiting r s rel)).keyb
      × ((keyboard_poll (state waiting r s rel)).shift ≡ s)
      × ((keyboard_poll (state waiting r s rel)).released ≡ rel)
unfolding keyboard_poll
poll_pending [] r s rel v h = (refl, v, refl, refl)
poll_pending (b ∷ bs) r s rel v h = (
  ap (λ (xs : List ℕ). xs ++ bs)
        (insert-room keyb_buffer_size b r v (omega arith) (has_room r b bs v h))
      ∙ append_assoc (contents keyb_buffer_size r) b bs,
  insert-IsValid keyb_buffer_size b r v,
  refl,
  refl,
)

not_ready :
    (r : Ring) → IsValid keyb_buffer_size r → is_ready r ≡ false → count keyb_buffer_size r ≡ 0
unfolding is_ready
not_ready r v h = ground arith

-- After the poll, the buffer is empty only if nothing waits.
poll-is_ready :
    (waiting : List ℕ) (r : Ring) (s rel : Bool)
    → IsValid keyb_buffer_size r
    → length (pending (state waiting r s rel)) ≤ 15
    → is_ready (keyboard_poll (state waiting r s rel)).keyb ≡ false
    → length (pending (state waiting r s rel)) ≡ 0
unfolding keyboard_poll
poll-is_ready [] r s rel v h e = omega (
  arith,
  not_ready r v e,
  length-contents keyb_buffer_size r,
  length-append (contents keyb_buffer_size r) [],
)
poll-is_ready (b ∷ bs) r s rel v h e = absurd (
    omega (
      arith,
      not_ready (insert keyb_buffer_size b r) (insert-IsValid keyb_buffer_size b r v) e,
      length-contents keyb_buffer_size (insert keyb_buffer_size b r),
      ap (λ (xs : List ℕ). length xs)
          (insert-room keyb_buffer_size b r v (omega arith) (has_room r b bs v h)),
      length-append (contents keyb_buffer_size r) (b ∷ []),
    ))

scancode_ready :
    (k : Keyboard)
    → IsValid keyb_buffer_size k.keyb
    → is_ready k.keyb ≡ true
    → pending k ≡ (keyboard_scancode k).0 ∷ pending (keyboard_scancode k).1
unfolding keyboard_scancode
scancode_ready k v h =
    ap (λ (xs : List ℕ). xs ++ k.usart) (take_out_lem keyb_buffer_size k.keyb v h)

scancode_none : (k : Keyboard) → is_ready k.keyb ≡ false → keyboard_scancode k ≡ (0, k)
unfolding keyboard_scancode take_out is_ready
scancode_none k h = rw h refl

scancode_keeps :
    (k : Keyboard)
    → IsValid keyb_buffer_size k.keyb
    → ((keyboard_scancode k).1.shift ≡ k.shift)
      × ((keyboard_scancode k).1.released ≡ k.released)
      × IsValid keyb_buffer_size (keyboard_scancode k).1.keyb
unfolding keyboard_scancode
scancode_keeps k v = (refl, refl, take_out-IsValid keyb_buffer_size k.keyb v)

treat-keys :
    (sc : ℕ) (k : Keyboard) (after_released after_shift : Option (ℕ × Keyboard))
    → view after_released ≡ some (keys (pending k) k.shift true)
    → view after_shift ≡ some (keys (pending k) (not k.released) false)
    → view (treat sc k after_released after_shift) ≡ some (keys (sc ∷ pending k) k.shift k.released)
unfolding treat keys
treat-keys sc k a b ha hb = elim (Bool-cases (sc == 0)) [
  | inl zero_code ↦ rw zero_code refl
  | inr code ↦ rw code (elim (Bool-cases (sc == 0xf0)) [
    | inl release ↦ rw release ha
    | inr other ↦ rw other (elim (Bool-cases ((sc == 0x12) || (sc == 0x59))) [
      | inl shift ↦ rw shift hb
      | inr key ↦ rw key refl
    ])
  ])
]

nothing_left :
    (k : Keyboard) (s rel : Bool) (after_released after_shift : Option (ℕ × Keyboard))
    → pending k ≡ []
    → k.shift ≡ s
    → k.released ≡ rel
    → view (treat 0 k after_released after_shift) ≡ some (keys [] s rel)
unfolding treat keys
nothing_left k s rel a b e hs hr = rw (e, hs, hr) refl

nothing : (xs : List ℕ) → length xs ≡ 0 → xs ≡ []
nothing [] h = refl
nothing (x ∷ xs) h = absurd (omega arith)

module _ (k : Keyboard) (v : IsValid keyb_buffer_size k.keyb) (h : length (pending k) ≤ 15) where
  fetched : ℕ × Keyboard
  fetched = keyboard_scancode (keyboard_poll k)

  fetched_some :
      is_ready (keyboard_poll k).keyb ≡ true
      → (pending k ≡ fetched.0 ∷ pending fetched.1)
        × (fetched.1.shift ≡ k.shift)
        × (fetched.1.released ≡ k.released)
        × IsValid keyb_buffer_size fetched.1.keyb
  unfolding fetched
  fetched_some ready =
      let (same, v1, s1, r1) = poll_pending k.usart k.keyb k.shift k.released v h in
      let (s2, r2, v2) = scancode_keeps (keyboard_poll k) v1 in
      (sym same ∙ scancode_ready (keyboard_poll k) v1 ready, s2 ∙ s1, r2 ∙ r1, v2)

  fetched_none :
      is_ready (keyboard_poll k).keyb ≡ false
      → (fetched ≡ (0, keyboard_poll k))
        × (pending k ≡ [])
        × (pending (keyboard_poll k) ≡ [])
        × ((keyboard_poll k).shift ≡ k.shift)
        × ((keyboard_poll k).released ≡ k.released)
  unfolding fetched
  fetched_none off =
      let (same, v1, s1, r1) = poll_pending k.usart k.keyb k.shift k.released v h in
      let empty = nothing (pending k) (poll-is_ready k.usart k.keyb k.shift k.released v h off) in
      (scancode_none (keyboard_poll k) off, empty, same ∙ empty, s1, r1)

-- With valid indices and at most 15 codes that wait, in the buffer or at the USART, as many rounds
-- as codes and one are enough: `keyboard_asc` ends, and its character, the codes that wait
-- afterwards and the state of shift and release are those that the codes give in their order.
pub keyboard_asc-keys :
    (n : ℕ) (k : Keyboard)
    → IsValid keyb_buffer_size k.keyb
    → length (pending k) ≤ 15
    → length (pending k) < n
    → view (keyboard_asc n k) ≡ some (keys (pending k) k.shift k.released)
unfolding keyboard_asc fetched
keyboard_asc-keys zero k v h lt = absurd (omega arith)
keyboard_asc-keys (suc n) k v h lt = elim (Bool-cases (is_ready (keyboard_poll k).keyb)) [
  | inl ready ↦
      let (codes, shift, released, v') = fetched_some k v h ready in
      let k' = (fetched k v h).1 in
      let size : length (pending k) ≡ suc (length (pending k')) =
        ap (λ (xs : List ℕ). length xs) codes in
      treat-keys (fetched k v h).0 k' _ _
        (keyboard_asc-keys n (record k' { released = true }) v' (omega arith) (omega arith))
        (keyboard_asc-keys n (record k' { shift = not k'.released; released = false }) v'
          (omega arith) (omega arith))
      ∙ rw (codes, shift, released) refl
  | inr off ↦
      let (empty, codes, polled, shift, released) = fetched_none k v h off in
      ap
        (λ (f : ℕ × Keyboard). view (
          treat f.0 f.1 (keyboard_asc n (record f.1 { released = true }))
            (keyboard_asc n (record f.1 { shift = not f.1.released; released = false }))))
        empty
      ∙ nothing_left (keyboard_poll k) k.shift k.released none none polled shift released
      ∙ sym (ap (λ (xs : List ℕ). some (keys xs k.shift k.released)) codes)
]
