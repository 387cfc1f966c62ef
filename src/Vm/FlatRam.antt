-- ===== src/Vm/FlatRam.antt =====
-- The memory of vm/test/test.c: one array of 65536 bytes, and a `uint16_t` address that wraps.
use dan.Prelude.{
  ℕ, zero, suc, ◌+◌, ◌-◌, ◌≤◌, ◌<◌, ◌≡◌, ◌==◌, refl, u8, u16, ltb, if◌then◌else◌, arith, List, [],
  ◌∷◌, byte, length, ◌∙◌, ap,
}
use dan.Vm.Bus.{Bus}

-- The array `ram`; a cell holds what was stored cut to `uint8_t`.
abbrev pub Ram : Type 0
Ram = ℕ → ℕ

abbrev pub cell : Ram → ℕ → ℕ
cell m p = u8 (m p)

-- `while (size--) *dst++ = ram[addr++];`
unfoldable pub vm_ram_read : Ram → ℕ → ℕ → List ℕ
vm_ram_read m a zero = []
vm_ram_read m a (suc n) = cell m a ∷ vm_ram_read m (u16 (a + 1)) n

-- `while (size--) ram[addr++] = *src++;`
unfoldable pub vm_ram_write : Ram → ℕ → List ℕ → Ram
vm_ram_write m a [] = m
vm_ram_write m a (v ∷ bs) = vm_ram_write (λ p. if p == a then v else m p) (u16 (a + 1)) bs

pub vm_ram_read_lem :
    (m : Ram) (a n i : ℕ) → a + n ≤ 65536 → i < n → byte (vm_ram_read m a n) i ≡ cell m (a + i)
unfolding vm_ram_read
vm_ram_read_lem m a zero i h k = absurd (omega arith)
vm_ram_read_lem m a (suc n) zero h k = ap (cell m) (omega arith)
vm_ram_read_lem m a (suc n) (suc i) h k =
    vm_ram_read_lem m (u16 (a + 1)) n i (omega arith) (omega arith) ∙ ap (cell m) (omega arith)

pub vm_ram_read-IsByte : (m : Ram) (a n i : ℕ) → byte (vm_ram_read m a n) i < 256
unfolding vm_ram_read
vm_ram_read-IsByte m a zero i = omega arith
vm_ram_read-IsByte m a (suc n) zero = omega arith
vm_ram_read-IsByte m a (suc n) (suc i) = vm_ram_read-IsByte m (u16 (a + 1)) n i

-- What a write leaves at an address.
abbrev pub written : Ram → ℕ → List ℕ → ℕ → ℕ
written m a bs p =
    if ltb p a then cell m p else if ltb p (a + length bs) then u8 (byte bs (p - a)) else cell m p

pub byte_head : (v : ℕ) (bs : List ℕ) (d : ℕ) → d ≡ 0 → byte (v ∷ bs) d ≡ v
byte_head v bs zero e = refl
byte_head v bs (suc d) e = absurd (omega arith)

pub byte_tail : (v : ℕ) (bs : List ℕ) (d : ℕ) → 0 < d → byte (v ∷ bs) d ≡ byte bs (d - 1)
byte_tail v bs zero e = absurd (omega arith)
byte_tail v bs (suc d) e = ap (byte bs) (omega arith)

written_step :
    (m : Ram) (a v : ℕ) (bs : List ℕ) (p : ℕ)
    → written (λ q. if q == a then v else m q) (a + 1) bs p ≡ written m a (v ∷ bs) p
written_step m a v bs p = ground (
  arith,
  byte_head v bs (p - a),
  byte_tail v bs (p - a),
  ap {A = ℕ} (byte bs) {x = p - a - 1} {y = p - (a + 1)} (omega arith),
)

pub vm_ram_write_lem :
    (m : Ram) (a : ℕ) (bs : List ℕ) (p : ℕ)
    → a + length bs ≤ 65536
    → cell (vm_ram_write m a bs) p ≡ written m a bs p
unfolding vm_ram_write
vm_ram_write_lem m a [] p h = ground arith
vm_ram_write_lem m a (v ∷ []) p h = ground (arith, byte_head v [] (p - a))
vm_ram_write_lem m a (v ∷ w ∷ bs) p h =
    let e : u16 (a + 1) ≡ a + 1 = omega arith in
    rw e (
      vm_ram_write_lem (λ q. if q == a then v else m q) (a + 1) (w ∷ bs) p (omega arith)
      ∙ written_step m a v (w ∷ bs) p)

abbrev pub flat_ram : Bus Ram
flat_ram = record {
  peek = cell;
  ram_read = vm_ram_read;
  ram_write = vm_ram_write;
  ram_read_lem = vm_ram_read_lem;
  ram_write_lem = vm_ram_write_lem;
  ram_read-IsByte = vm_ram_read-IsByte;
}
