-- ===== src/System/Main/Names.antt =====
-- The names of the commands.
use dan.Prelude.{
  ℕ, ◌≡◌, ◌==◌, ◌&&◌, ◌||◌, not, Bool, true, false, refl, arith, some, List, [], ◌∷◌, ◌++◌,
  Bool-cases, inl, inr, and_split, sym,
}
use mathlib.Core.Path.{subst}
use dan.System.Main.{Cmd, cmds, to_lower, same_start, same_text, picks, find_cmd}

-- There is a place in both where the letters differ.
differ : List ℕ → List ℕ → Bool
unfolding to_lower
differ (t ∷ ts) (u ∷ us) = not (to_lower t == to_lower u) || differ ts us
differ _ _ = false

same_text-same_start :
    (line text : List ℕ) → same_text line text ≡ true → same_start line text ≡ true
unfolding same_text same_start
same_text-same_start [] [] h = refl
same_text-same_start (c ∷ cs) [] h = refl
same_text-same_start [] (t ∷ ts) h = cc
same_text-same_start (c ∷ cs) (t ∷ ts) h =
    let (a, b) = and_split (to_lower c == to_lower t) _ h in rw a (same_text-same_start cs ts b)

picks-same_start : (line : List ℕ) (c : Cmd) → picks line c ≡ true → same_start line c.text ≡ true
unfolding picks
picks-same_start line c h = elim (Bool-cases c.has_params) [
  | inl params ↦ rw params at h
  | inr bare ↦ same_text-same_start line c.text (rw bare at h)
]

one_start :
    (line t u : List ℕ) → same_start line t ≡ true → same_start line u ≡ true → differ t u ≡ false
unfolding same_start differ
one_start line [] u h k = refl
one_start line (t ∷ ts) [] h k = refl
one_start [] (t ∷ ts) (u ∷ us) h k = cc
one_start (c ∷ cs) (t ∷ ts) (u ∷ us) h k =
    let (a, b) = and_split (to_lower c == to_lower t) _ h in
    let (a', b') = and_split (to_lower c == to_lower u) _ k in
    let tail = one_start cs ts us b b' in
    let same : (to_lower t == to_lower u) ≡ true = ground (arith, a, a') in rw same tail

-- The name differs from those of all rows behind it.
alone : List ℕ → List Cmd → Bool
unfolding differ
alone t [] = true
alone t (c ∷ cs) = differ t c.text && alone t cs

apart : List Cmd → Bool
unfolding alone
apart [] = true
apart (c ∷ cs) = alone c.text cs && apart cs

apart-cmds : apart cmds ≡ true
unfolding apart cmds
apart-cmds = refl

alone-differ :
    (t : List ℕ) (before behind : List Cmd) (c : Cmd)
    → alone t (before ++ c ∷ behind) ≡ true
    → differ t c.text ≡ true
unfolding alone
alone-differ t [] behind c h = (and_split (differ t c.text) _ h).0
alone-differ t (b ∷ before) behind c h =
    alone-differ t before behind c (and_split (differ t b.text) _ h).1

not_both :
    (line : List ℕ) (b c : Cmd)
    → differ b.text c.text ≡ true
    → picks line c ≡ true
    → picks line b ≡ false
not_both line b c h k = elim (Bool-cases (picks line b)) [
  | inr other ↦ other
  | inl both ↦
      let same =
        one_start line b.text c.text (picks-same_start line b both) (picks-same_start line c k) in
      ground (arith, h, same)
]

find_cmd-apart :
    (line : List ℕ) (before behind : List Cmd) (c : Cmd)
    → apart (before ++ c ∷ behind) ≡ true
    → picks line c ≡ true
    → find_cmd line (before ++ c ∷ behind) ≡ some c
unfolding find_cmd apart
find_cmd-apart line [] behind c h k = rw k refl
find_cmd-apart line (b ∷ before) behind c h k =
    let (first, rest) = and_split (alone b.text (before ++ c ∷ behind)) _ h in
    rw (not_both line b c (alone-differ b.text before behind c first) k)
      (find_cmd-apart line before behind c rest k)

-- No name of a command hides another one: a line that compares equal to the name of a row, at its
-- start for a command with parameters and as a whole for the others, is that row's command, wherever
-- the row stands in the table.
pub find_cmd-row :
    (line : List ℕ) (before behind : List Cmd) (c : Cmd)
    → cmds ≡ before ++ c ∷ behind
    → picks line c ≡ true
    → find_cmd line cmds ≡ some c
find_cmd-row line before behind c row k =
    subst (λ cs. find_cmd line cs ≡ some c) (sym row)
      (find_cmd-apart line before behind c (subst (λ cs. apart cs ≡ true) row apart-cmds) k)
