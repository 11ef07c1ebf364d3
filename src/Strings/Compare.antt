-- ===== src/Strings/Compare.antt =====
-- `kstrcmp` and `kstreq` of include/kernel/core/string.h.
use acorn_os.Common.{ℕ, ◌<◌, ◌≡◌, ◌↔◌, true, List, [], ◌∷◌, arith}
use acorn_os.Strings.{c_string, kstreq}

-- Every element of a buffer is a byte.
abbrev pub IsBytes : List ℕ → Type 0
IsBytes [] = Unit {0}
IsBytes (c ∷ cs) = (c < 256) × IsBytes cs

-- Two strings are equal for `kstreq` exactly when their texts are.
pub kstreq_iff :
    (a b : List ℕ) → IsBytes a → IsBytes b → (kstreq a b ≡ true) ↔ (c_string a ≡ c_string b)
unfolding kstreq
kstreq_iff [] [] p q = ground arith
kstreq_iff [] (b ∷ bs) p q = ground arith
kstreq_iff (a ∷ cs) [] p q = ground arith
kstreq_iff (a ∷ cs) (b ∷ bs) p q = ground (arith, kstreq_iff cs bs p.1 q.1)
