-- ===== src/Keyboard/Map.antt =====
-- The table of include/keyb_map.h: for each scan code the character without and with shift, by its
-- code.
use dan.Prelude.{ℕ, ◌∷◌, [], List}

abbrev pub keyb_max_scancode : ℕ
keyb_max_scancode = 0x76

abbrev pub keyb_map : List (ℕ × ℕ)
keyb_map =
    (0, 0)
    ∷ (0, 0)
    ∷ (0, 0)
    ∷ (0, 0)
    ∷ (0, 0)
    ∷ (0, 0)
    ∷ (0, 0)
    ∷ (0, 0)
    ∷ (0, 0)
    ∷ (0, 0)
    ∷ (0, 0)
    ∷ (0, 0)
    ∷ (0, 0)
    ∷ (9, 0)
    ∷ (96, 124)
    ∷ (0, 0)
    ∷ (0, 0)
    ∷ (0, 0)
    ∷ (0, 0)
    ∷ (0, 0)
    ∷ (0, 0)
    ∷ (113, 81)
    ∷ (49, 33)
    ∷ (0, 0)
    ∷ (0, 0)
    ∷ (0, 0)
    ∷ (122, 90)
    ∷ (115, 83)
    ∷ (97, 65)
    ∷ (119, 87)
    ∷ (50, 34)
    ∷ (0, 0)
    ∷ (0, 0)
    ∷ (99, 67)
    ∷ (120, 88)
    ∷ (100, 68)
    ∷ (101, 69)
    ∷ (52, 36)
    ∷ (51, 156)
    ∷ (0, 0)
    ∷ (0, 0)
    ∷ (32, 0)
    ∷ (118, 86)
    ∷ (102, 70)
    ∷ (116, 84)
    ∷ (114, 82)
    ∷ (53, 37)
    ∷ (0, 0)
    ∷ (0, 0)
    ∷ (110, 78)
    ∷ (98, 66)
    ∷ (104, 72)
    ∷ (103, 71)
    ∷ (121, 89)
    ∷ (54, 94)
    ∷ (0, 0)
    ∷ (0, 0)
    ∷ (0, 0)
    ∷ (109, 77)
    ∷ (106, 74)
    ∷ (117, 85)
    ∷ (55, 38)
    ∷ (56, 42)
    ∷ (0, 0)
    ∷ (0, 0)
    ∷ (44, 60)
    ∷ (107, 75)
    ∷ (105, 73)
    ∷ (111, 79)
    ∷ (48, 41)
    ∷ (57, 40)
    ∷ (0, 0)
    ∷ (0, 0)
    ∷ (46, 62)
    ∷ (47, 63)
    ∷ (108, 76)
    ∷ (59, 58)
    ∷ (112, 80)
    ∷ (45, 95)
    ∷ (0, 0)
    ∷ (0, 0)
    ∷ (0, 0)
    ∷ (39, 64)
    ∷ (0, 0)
    ∷ (91, 123)
    ∷ (61, 43)
    ∷ (0, 0)
    ∷ (0, 0)
    ∷ (0, 0)
    ∷ (0, 0)
    ∷ (10, 0)
    ∷ (93, 125)
    ∷ (0, 0)
    ∷ (35, 126)
    ∷ (0, 0)
    ∷ (0, 0)
    ∷ (0, 0)
    ∷ (92, 124)
    ∷ (0, 0)
    ∷ (0, 0)
    ∷ (0, 0)
    ∷ (0, 0)
    ∷ (8, 0)
    ∷ (0, 0)
    ∷ (0, 0)
    ∷ (0, 0)
    ∷ (0, 0)
    ∷ (17, 52)
    ∷ (0, 0)
    ∷ (0, 0)
    ∷ (0, 0)
    ∷ (0, 0)
    ∷ (0, 0)
    ∷ (0, 0)
    ∷ (31, 50)
    ∷ (0, 0)
    ∷ (16, 54)
    ∷ (30, 56)
    ∷ (27, 0)
    ∷ []
