-- ===== src/Devfs/Names.antt =====
-- Names in the buffers of the table of devices of file_system/devfs/devfs.c.
use acorn_os.Common.{
  ℕ, zero, suc, ◌+◌, ◌≤◌, ◌<◌, ◌≡◌, refl, ap, ◌∙◌, List, [], ◌∷◌, ◌++◌, arith, length, take, drop,
  length-append, length-take, length-drop,
}
use acorn_os.Strings.{is_zero, c_string, kstrcmp, kstreq, kstrcpy}
use acorn_os.Strings.Copy.{kstrcpy_lem}
use acorn_os.Devfs.{vfs_max_name}
use acorn_os.Devfs.{vfs_max_name}

-- A text and its terminator compare like the string that the text is from.
kstrcmp-c_string : (a r b : List ℕ) → kstrcmp (c_string a ++ 0 ∷ r) b ≡ kstrcmp a b
unfolding kstrcmp
kstrcmp-c_string [] r [] = refl
kstrcmp-c_string [] r (c ∷ b) = refl
kstrcmp-c_string (x ∷ a) r [] = ground arith
kstrcmp-c_string (x ∷ a) r (y ∷ b) = ground (arith, kstrcmp-c_string a r b)

take_all : (n : ℕ) (xs : List ℕ) → length xs ≤ n → take n xs ≡ xs
take_all zero [] h = refl
take_all zero (x ∷ xs) h = elim h [ ]
take_all (suc n) [] h = refl
take_all (suc n) (x ∷ xs) h = ap (x ∷◌) (take_all n xs (omega arith))

-- A name that fits into its buffer is found by whoever finds the original.
pub kstreq-kstrcpy :
    (old name q : List ℕ)
    → length old ≡ vfs_max_name
    → length (c_string name) < vfs_max_name
    → kstreq (kstrcpy old name vfs_max_name) q ≡ kstreq name q
unfolding kstreq
kstreq-kstrcpy old name q size fits =
    let t = c_string name in
    ap (λ s. is_zero (kstrcmp s q))
      (kstrcpy_lem old name vfs_max_name (omega arith) (omega (arith, size))
        ∙ ap (λ t. t ++ 0 ∷ drop (length t + 1) old) (take_all 63 t (omega arith)))
    ∙ ap is_zero (kstrcmp-c_string name (drop (length t + 1) old) q)

pub length-kstrcpy :
    (old name : List ℕ)
    → length old ≡ vfs_max_name
    → length (kstrcpy old name vfs_max_name) ≡ vfs_max_name
length-kstrcpy old name size =
    let t = take 63 (c_string name) in
    ap length (kstrcpy_lem old name vfs_max_name (omega arith) (omega (arith, size)))
    ∙ length-append t (0 ∷ drop (length t + 1) old)
    ∙ omega (arith, size, length-drop (length t + 1) old, length-take 63 (c_string name))
