-- ===== src/Strings/Tests.antt =====
-- Runs of the string helpers.
use acorn_os.Strings.{c_string, kstrcpy}
use acorn_os.Strings.Copy.{kstrcpy_lem}
use acorn_os.Common.{ℕ, ◌+◌, ◌-◌, ◌≡◌, List, [], ◌∷◌, ◌++◌, arith, length, take, drop}

abbrev buffer : List ℕ
buffer = 1 ∷ 2 ∷ 3 ∷ 4 ∷ []

abbrev word : List ℕ
word = 65 ∷ 66 ∷ 67 ∷ 0 ∷ []

kstrcpy_lem_example :
    kstrcpy buffer word 3
    ≡ (take (3 - 1) (c_string word)) ++ 0 ∷ drop (length (take (3 - 1) (c_string word)) + 1) buffer
kstrcpy_lem_example = kstrcpy_lem buffer word 3 (omega arith) (omega arith)
