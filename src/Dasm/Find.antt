-- ===== src/Dasm/Find.antt =====
-- `find_mne` of dasm/dasm.c and the search for an opcode. Both loops run to OPCODES, which is 153,
-- over a table of 152 rows: the last round reads the five bytes behind the table. What stands there
-- is up to the linker, and the parameter `beyond` here.
use dan.Prelude.{ℕ, Bool, false, ◌&&◌, ◌==◌, if◌then◌else◌, List, [], ◌∷◌, ◌++◌, Option, none, some}
use dan.Vm.Decode.{Mode}
use dan.Dasm.Table.{Entry, vm_op_tbl}

abbrev pub opcodes : ℕ
opcodes = 153

-- The number of an addressing type in `enum addr_enum`.
unfoldable pub mode_code : Mode → ℕ
mode_code Mode.implied = 0
mode_code Mode.absolute = 1
mode_code Mode.immediate = 2
mode_code Mode.zero_page = 3
mode_code Mode.ind_abs = 4
mode_code Mode.absolute_x = 5
mode_code Mode.absolute_y = 6
mode_code Mode.zero_page_x = 7
mode_code Mode.zero_page_y = 8
mode_code Mode.index_ind = 9
mode_code Mode.ind_index = 10
mode_code Mode.relative = 11
mode_code Mode.accumulator = 12

-- `memcmp(a, b, 3) == 0`; `a` has three bytes at least where it is called.
unfoldable pub same_letters : List ℕ → List ℕ → Bool
same_letters (a ∷ b ∷ c ∷ _) (x ∷ y ∷ z ∷ _) = a == x && (b == y && c == z)
same_letters _ _ = false

-- The condition of the loop of `find_mne`; `none` is a negative `addr_mode`.
unfoldable pub matches : List ℕ → Option Mode → Entry → Bool
unfolding mode_code same_letters
matches mne none e = same_letters mne e.mnemonic
matches mne (some m) e = same_letters mne e.mnemonic && mode_code e.mode == mode_code m

-- The index of the first row that passes, and the row; `none` when no round passes.
unfoldable pub find_row : (Entry → Bool) → List Entry → Option Entry
find_row p [] = none
find_row p (e ∷ es) = if p e then some e else find_row p es

module _ (beyond : Entry) where
  -- The rows that a loop up to OPCODES visits.
  unfoldable pub rows : List Entry
  unfolding vm_op_tbl
  rows = vm_op_tbl ++ beyond ∷ []

  -- `find_mne`: the row in place of its index, `none` in place of OPCODES.
  unfoldable pub find_mne : List ℕ → Option Mode → Option Entry
  unfolding matches find_row rows
  find_mne mne m = find_row (matches mne m) rows

  -- The search of `dasm_das`.
  unfoldable pub find_opcode : ℕ → Option Entry
  unfolding find_row rows
  find_opcode op = find_row (λ e. e.opcode == op) rows
