-- ===== src/ShadowFs/Dir/Names.antt =====
-- The names that directories of file_system/shadowfs/shadowfs.c store.
use acorn_os.Strings.{c_string, is_zero, kstrcmp, kstreq}
use acorn_os.Strings.Copy.{kstrcpy_lem}
use acorn_os.ShadowFs.Dir.{max_name, new_entry}
use acorn_os.Common.{
  ℕ, zero, suc, ◌+◌, ◌-◌, ◌≤◌, ◌<◌, ◌≡◌, refl, sym, ap, ◌∙◌, List, [], ◌∷◌, ◌++◌, arith, length,
  take, drop, replicate,
}

take-text :
    (n : ℕ) (s rest : List ℕ) → c_string (take n (c_string s) ++ 0 ∷ rest) ≡ take n (c_string s)
take-text zero s rest = refl
take-text (suc n) [] rest = refl
take-text (suc n) (c ∷ s) rest = ground (arith, take-text n s rest)

take-all : {A : Type 0} (n : ℕ) (s : List A) → length s ≤ n → take n s ≡ s
take-all zero [] h = refl
take-all zero (x ∷ s) h = absurd (omega arith)
take-all (suc n) [] h = refl
take-all (suc n) (x ∷ s) h = ap (◌∷◌ x) (take-all n s (omega arith))

kstrcmp-text : (a m : List ℕ) → kstrcmp a m ≡ kstrcmp (c_string a) m
unfolding kstrcmp
kstrcmp-text [] m = refl
kstrcmp-text (c ∷ a) [] = ground arith
kstrcmp-text (c ∷ a) (b ∷ m) = ground (arith, kstrcmp-text a m)

-- A name that fits is found under exactly the names it was stored for.
pub kstreq-new_entry :
    (name m : List ℕ) (p : ℕ)
    → length (c_string name) < max_name
    → kstreq (new_entry name p).name m ≡ kstreq name m
unfolding kstreq
kstreq-new_entry name m p h =
    let buf = (new_entry name p).name in
    let stored = kstrcpy_lem (replicate max_name 0) name max_name (omega arith) (omega arith) in
    let text : c_string buf ≡ c_string name =
      ap c_string stored
      ∙ take-text (max_name - 1) name
          (drop (length (take (max_name - 1) (c_string name)) + 1) (replicate max_name 0))
      ∙ take-all (max_name - 1) (c_string name) (omega arith) in
    ap is_zero (kstrcmp-text buf m ∙ ap (λ s. kstrcmp s m) text ∙ sym (kstrcmp-text name m))
