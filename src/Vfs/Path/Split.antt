-- ===== src/Vfs/Path/Split.antt =====
-- The split of a path in file_system/vfs/vfs.c.
use native.Mathlib.Decide.{ℕ_discrete}
use acorn_os.Strings.{c_string, kstrcpy, kstrlen}
use acorn_os.Strings.Copy.{kstrcpy_lem, kstrlen-eq-length}
use acorn_os.Vfs.Path.{
  slash, vfs_max_name, vfs_max_path, name_buffer, last_slash, split_at, split_path,
}
use acorn_os.Common.{
  take-all, take-append_le, drop-append_ge, ℕ, zero, suc, ◌+◌, ◌-◌, ◌<◌, ◌≡◌, refl, ap, ◌∙◌, ◌≢◌,
  some, List, [], ◌∷◌, ◌++◌, arith, length, get_or, take, drop, length-append,
}

-- No character of the text is 0 or a slash: a file name.
abbrev pub IsName : List ℕ → Type 0
IsName [] = Unit {0}
IsName (c ∷ cs) = (c ≢ 0) × (c ≢ slash) × IsName cs

-- No character of the text is 0.
abbrev pub IsText : List ℕ → Type 0
IsText [] = Unit {0}
IsText (c ∷ cs) = (c ≢ 0) × IsText cs

pub IsName-IsText : (t : List ℕ) → IsName t → IsText t
IsName-IsText [] h = tt
IsName-IsText (c ∷ cs) h = (h.0, IsName-IsText cs h.2)

pub c_string_text : (t : List ℕ) → IsText t → c_string t ≡ t
c_string_text [] h = refl
c_string_text (c ∷ cs) h = ground (arith, c_string_text cs h.1)

get_or-append : (xs ys : List ℕ) (k : ℕ) → get_or (xs ++ ys) (length xs + k) 0 ≡ get_or ys k 0
get_or-append [] ys k = ap (λ j. get_or ys j 0) {x = 0 + k} {y = k} (omega arith)
get_or-append (x ∷ xs) ys k =
    ap (λ j. get_or (x ∷ (xs ++ ys)) j 0) {x = suc (length xs) + k} {y = suc (length xs + k)}
      (omega arith)
    ∙ get_or-append xs ys k

name_char : (f : List ℕ) (k : ℕ) → IsName f → get_or f k 0 ≢ slash
name_char [] k h e = omega arith
name_char (c ∷ cs) zero h e = h.1 e
name_char (c ∷ cs) (suc k) h e = name_char cs k h.2 e

-- The scan stops at the slash before a name without one.
last_slash-finds :
    (p f : List ℕ) (m : ℕ)
    → IsName f
    → length p < m
    → last_slash m (p ++ slash ∷ f) ≡ some (length p)
unfolding last_slash
last_slash-finds p f zero h l = absurd (omega arith)
last_slash-finds p f (suc i) h l = elim (ℕ_discrete i (length p)) [
  | yes here ↦
      let hit : get_or (p ++ slash ∷ f) i 0 ≡ slash =
        ap (λ j. get_or (p ++ slash ∷ f) j 0) {x = i} {y = length p + 0} (omega arith)
        ∙ get_or-append p (slash ∷ f) 0 in
      rw hit (ap some here)
  | no behind ↦
      let k : ℕ = i - length p - 1 in
      let char : get_or (p ++ slash ∷ f) i 0 ≡ get_or f k 0 =
        ap (λ j. get_or (p ++ slash ∷ f) j 0) {x = i} {y = length p + suc k} (omega arith)
        ∙ get_or-append p (slash ∷ f) (suc k) in
      let miss = name_char f k h in
      rw char (ground (arith, miss, last_slash-finds p f i h (omega arith)))
]

c_string-terminated : (t rest : List ℕ) → IsText t → c_string (t ++ 0 ∷ rest) ≡ t
c_string-terminated [] rest h = refl
c_string-terminated (c ∷ t) rest h = ground (arith, c_string-terminated t rest h.1)

take-IsText : (n : ℕ) (t : List ℕ) → IsText t → IsText (take n t)
take-IsText zero t h = tt
take-IsText (suc n) [] h = tt
take-IsText (suc n) (c ∷ t) h = (h.0, take-IsText n t h.1)

-- The name that the split copies out of the rest of the path.
copied_name : (f : List ℕ) → IsName f → c_string (kstrcpy name_buffer f vfs_max_name) ≡ take 63 f
copied_name f h =
    let t = IsName-IsText f h in
    ap c_string (kstrcpy_lem name_buffer f vfs_max_name (omega arith) (omega arith))
    ∙ ap (λ s. c_string (take 63 s ++ 0 ∷ drop (length (take 63 s) + 1) name_buffer))
        (c_string_text f t)
    ∙ c_string-terminated (take 63 f) (drop (length (take 63 f) + 1) name_buffer)
        (take-IsText 63 f t)

IsText-append : (p f : List ℕ) → IsText p → IsText f → IsText (p ++ slash ∷ f)
IsText-append [] f hp hf = (λ e. omega arith, hf)
IsText-append (c ∷ p) f hp hf = (hp.0, IsText-append p f hp.1 hf)

kstrlen-text : (t : List ℕ) → IsText t → kstrlen t ≡ length t
kstrlen-text t h = kstrlen-eq-length t ∙ ap length (c_string_text t h)

drop-prefix : (p f : List ℕ) (n : ℕ) → n ≡ length p + 1 → drop n (p ++ slash ∷ f) ≡ f
drop-prefix p f n e =
    drop-append_ge n p (slash ∷ f) (omega arith)
    ∙ ap (λ j. drop j (slash ∷ f)) {x = n - length p} {y = 1} (omega arith)

-- The directory that a path in front of the last slash names.
abbrev pub parent_of : List ℕ → List ℕ
parent_of [] = slash ∷ []
parent_of (c ∷ cs) = c ∷ cs

-- A path `p/f`, where the name `f` has no slash and `p` fits the buffer, is split into the directory
-- `p`, or `/` where `p` is empty, and the first 63 characters of `f`.
pub split_path_lem :
    (p f : List ℕ)
    → IsText p
    → IsName f
    → length p < vfs_max_path
    → (buffer : List ℕ) × (split_path (p ++ slash ∷ f) ≡ some (parent_of p, buffer))
      × (c_string buffer ≡ take 63 f)
unfolding split_path
split_path_lem p f hp hf l =
    (kstrcpy name_buffer f vfs_max_name, rw found (go p l refl), copied_name f hf)
  where
    path : List ℕ
    path = p ++ slash ∷ f

    found : last_slash (kstrlen path) path ≡ some (length p)
    found = last_slash-finds p f (kstrlen path) hf (
        omega (
          arith,
          kstrlen-text path (IsText-append p f hp (IsName-IsText f hf)),
          length-append p (slash ∷ f),
        ))

    go :
        (q : List ℕ)
        → length q < vfs_max_path
        → p ≡ q
        → split_at (some (length q)) (q ++ slash ∷ f)
          ≡ some (parent_of q, kstrcpy name_buffer f vfs_max_name)
    go [] m e = refl
    go (c ∷ q) m e =
        let e1 =
          take-append_le (length (c ∷ q)) (c ∷ q) (slash ∷ f) (omega arith)
          ∙ take-all (length (c ∷ q)) (c ∷ q) (omega arith) in
        let e2 = drop-prefix (c ∷ q) f (length (c ∷ q) + 1) (omega arith) in
        rw e2 (ground (arith, e1))
