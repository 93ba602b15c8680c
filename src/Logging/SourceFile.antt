-- ===== src/Logging/SourceFile.antt =====
-- `Logger::SourceFile` of twnl/Log/Logging.h: the last part of a path.
use twnl.Base.{
  ℕ, suc, ◌+◌, ◌-◌, ◌==◌, ◌≡◌, refl, sym, ap, ◌∙◌, if◌then◌else◌, true, false, Option, none, some,
  List, [], ◌∷◌, ◌++◌, length, take, drop, arith, length-append, take_all, drop-append_add,
}

abbrev pub slash : ℕ
slash = b'/'

-- `data_`, as an offset in the path, and `size_`.
pub record Name : Type 0 where
  pub offset : ℕ
  pub size : ℕ

-- The offset of the last `c`.
unfoldable pub strrchr : ℕ → List ℕ → Option ℕ
strrchr c [] = none
strrchr c (x ∷ xs) = elim (strrchr c xs) [
  | some i ↦ some (suc i)
  | none ↦ if x == c then some 0 else none
]

-- The size that is left behind the last slash.
abbrev array_name : List ℕ → Option ℕ → Name
array_name path none = record { offset = 0; size = length path }
array_name path (some i) = record { offset = i + 1; size = length path - (i + 1) }

-- The constructor for an array of `length path + 1` characters.
unfoldable pub from_array : List ℕ → Name
unfolding strrchr
from_array path = array_name path (strrchr slash path)

abbrev data_offset : Option ℕ → ℕ
data_offset none = 0
data_offset (some i) = i + 1

abbrev pointer_name : List ℕ → ℕ → Name
pointer_name path offset = record { offset = offset; size = length (drop offset path) }

-- The constructor for a pointer.
unfoldable pub from_pointer : List ℕ → Name
unfolding strrchr
from_pointer path = pointer_name path (data_offset (strrchr slash path))

-- The text that a name stands for.
unfoldable pub text_of : List ℕ → Name → List ℕ
text_of path n = take n.size (drop n.offset path)

abbrev pub Avoids : ℕ → List ℕ → Type 0
Avoids c [] = Unit {0}
Avoids c (x ∷ xs) = (x == c ≡ false) × Avoids c xs

strrchr-Avoids : (c : ℕ) (xs : List ℕ) → Avoids c xs → strrchr c xs ≡ none
unfolding strrchr
strrchr-Avoids c [] a = refl
strrchr-Avoids c (x ∷ xs) (ne, a) = rw (strrchr-Avoids c xs a, ne)

strrchr-last :
    (c : ℕ) (dir name : List ℕ)
    → Avoids c name
    → c == c ≡ true
    → strrchr c (dir ++ c ∷ name) ≡ some (length dir)
unfolding strrchr
strrchr-last c [] name a e = rw (strrchr-Avoids c name a, e)
strrchr-last c (x ∷ dir) name a e = rw (strrchr-last c dir name a e)

-- For a path `dir/name` and for a path `name`, where `name` has no slash: the two constructors make the
-- same name, and it stands for the text `name`.
pub source_file_lem :
    (dir name : List ℕ)
    → Avoids slash name
    → (from_pointer (dir ++ slash ∷ name) ≡ from_array (dir ++ slash ∷ name))
      × (from_pointer name ≡ from_array name)
      × (text_of (dir ++ slash ∷ name) (from_array (dir ++ slash ∷ name)) ≡ name)
      × (text_of name (from_array name) ≡ name)
unfolding from_array from_pointer text_of
source_file_lem dir name a =
    let last : strrchr slash (dir ++ slash ∷ name) ≡ some (length dir) =
      strrchr-last slash dir name a refl in
    let whole : strrchr slash name ≡ none = strrchr-Avoids slash name a in
    let behind : drop (length dir + 1) (dir ++ slash ∷ name) ≡ name =
      drop-append_add (length dir + 1) 1 dir (slash ∷ name) (omega arith) in
    let size : length (dir ++ slash ∷ name) - (length dir + 1) ≡ length name =
      omega (arith, length-append dir (slash ∷ name)) in
    let path : List ℕ = dir ++ slash ∷ name in
    let named : from_array path
        ≡ record { offset = length dir + 1; size = length path - (length dir + 1) } =
      ap (array_name path) last in
    (
      ap (λ r. pointer_name path (data_offset r)) last
          ∙ ap (λ s. record { offset = length dir + 1; size = s }) (ap length behind ∙ sym size)
          ∙ sym named,
      ap (λ r. pointer_name name (data_offset r)) whole ∙ sym (ap (array_name name) whole),
      ap (text_of path) named
          ∙ ap (take (length path - (length dir + 1))) behind
          ∙ take_all _ name (omega (arith, size)),
      ap (λ r. text_of name (array_name name r)) whole ∙ take_all (length name) name (omega arith),
    )
