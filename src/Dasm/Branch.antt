-- ===== src/Dasm/Branch.antt =====
-- Branches: the offset that dasm/dasm.c stores and prints against the jump of vm/vm.c.
use dan.Prelude.{
  ℕ, ◌+◌, ◌-◌, ◌%◌, ◌≤◌, ◌<◌, ◌≡◌, true, false, refl, u8, u16, ltb, if◌then◌else◌, arith, List, [],
  ◌∷◌,
}
use dan.Vm.State.{Vm}
use dan.Vm.Decode.{Mode}
use dan.Vm.Operand.{branch}
use dan.Dasm.Table.{Entry}
use dan.Dasm.Text.{hex4}
use dan.Dasm.As.{operand, has_mode, after_number}
use dan.Dasm.Das.{operand_text}

-- For a mnemonic with the relative form and no zero page form, the operand is that offset, whatever
-- the distance: no target is refused.
pub after_number-relative :
    (beyond : Entry) (addr target : ℕ) (mne : List ℕ)
    → has_mode beyond mne Mode.zero_page ≡ false
    → has_mode beyond mne Mode.relative ≡ true
    → after_number beyond addr mne target []
      ≡ operand Mode.relative 2 (u8 (target + 65536 + 65536 - addr - 1))
unfolding after_number
after_number-relative beyond addr target mne z r = ground arith

module _ {M : Type 0} (vm : Vm M) where
  -- A taken branch goes to the byte behind the target.
  pub branch-stored :
      (target : ℕ)
      → vm.r_pc < 65536
      → target < 65536
      → vm.r_pc ≤ target + 127
      → target ≤ vm.r_pc + 128
      → (branch true (u8 (target + 65536 + 65536 - vm.r_pc - 1)) vm).r_pc ≡ (target + 1) % 65536
  unfolding branch
  branch-stored target hp ht low high = ground arith

  -- The address that `dasm_das` prints for a branch is the one before the address that the taken
  -- branch goes to.
  pub branch-printed :
      (b1 b2 : ℕ)
      → b1 < 256
      → (t : ℕ) × (t < 65536)
        × ((operand_text Mode.relative vm.r_pc b1 b2).0 ≡ b'$' ∷ hex4 t)
        × ((branch true b1 vm).r_pc ≡ (t + 1) % 65536)
  unfolding operand_text branch
  branch-printed b1 b2 h =
      (u16 (vm.r_pc + 1 + (if ltb b1 128 then b1 else b1 + 65280)), omega arith, refl, ground arith)
