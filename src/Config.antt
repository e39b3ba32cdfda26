-- ===== src/Config.antt =====
-- app/flyd_config.cc and app/flyd_string.cc: the configuration file. A string is its bytes.
pub mod Trimming
pub mod Lines
pub mod File
use flydragon.Base.{
  ℕ, zero, suc, ◌+◌, ◌-◌, ◌*◌, List, [], ◌∷◌, ◌++◌, Option, none, some, Bool, true, false, ◌&&◌,
  ◌||◌, not, ltb, leb, ◌==◌, if◌then◌else◌, length,
}

-- `isspace` of the C locale
abbrev pub isspace : ℕ → Bool
isspace c = c == 32 || (leb 9 c && leb c 13)

-- `Ltrim`
unfoldable pub ltrim : List ℕ → List ℕ
ltrim [] = []
ltrim (c ∷ cs) = if isspace c then ltrim cs else c ∷ cs

-- A byte before the end that is left.
abbrev pub put_before : ℕ → List ℕ → List ℕ
put_before c [] = if isspace c then [] else c ∷ []
put_before c (d ∷ ds) = c ∷ d ∷ ds

-- `Rtrim`
unfoldable pub rtrim : List ℕ → List ℕ
rtrim [] = []
rtrim (c ∷ cs) = put_before c (rtrim cs)

-- `Trim`
unfoldable pub trim : List ℕ → List ℕ
unfolding ltrim rtrim
trim s = ltrim (rtrim s)

-- `config_map_`, an std::unordered_map
abbrev pub ConfigMap : Type 0
ConfigMap = List (List ℕ × List ℕ)

-- `==` of two strings
unfoldable pub same_string : List ℕ → List ℕ → Bool
same_string [] [] = true
same_string [] (b ∷ bs) = false
same_string (a ∷ cs) [] = false
same_string (a ∷ cs) (b ∷ bs) = a == b && same_string cs bs

-- `find`, and `GetString`; `none` is NULL.
unfoldable pub get_string : ConfigMap → List ℕ → Option (List ℕ)
unfolding same_string
get_string [] name = none
get_string ((k, v) ∷ m) name = if same_string k name then some v else get_string m name

-- `insert`: a key that is there keeps its value.
unfoldable pub insert_item : List ℕ → List ℕ → ConfigMap → ConfigMap
unfolding get_string
insert_item k v m = elim (get_string m k) [ none ↦ m ++ (k, v) ∷ [] | some w ↦ m ]

-- The digits of `atoi`.
unfoldable pub read_digits : List ℕ → ℕ → ℕ
read_digits [] n = n
read_digits (c ∷ cs) n = if leb 48 c && leb c 57 then read_digits cs (n * 10 + (c - 48)) else n

-- `atoi`: whether there is a minus sign, and the digits; its result is not defined out of range.
unfoldable pub after_spaces : List ℕ → Bool × ℕ
unfolding read_digits
after_spaces [] = (false, 0)
after_spaces (c ∷ cs) =
    if c == 45
    then (true, read_digits cs 0)
    else if c == 43
    then (false, read_digits cs 0)
    else (false, read_digits (c ∷ cs) 0)

unfoldable pub atoi : List ℕ → Bool × ℕ
unfolding ltrim after_spaces
atoi s = after_spaces (ltrim s)

-- `GetIntDefault`
unfoldable pub get_int_default : ConfigMap → List ℕ → Bool × ℕ → Bool × ℕ
unfolding get_string atoi
get_int_default m name def = elim (get_string m name) [ none ↦ def | some s ↦ atoi s ]

-- `fgets`, with a buffer for `n` bytes and the end of the string: the line, and the rest of the file.
unfoldable pub fgets : ℕ → List ℕ → List ℕ × List ℕ
fgets zero bs = ([], bs)
fgets (suc n) [] = ([], [])
fgets (suc n) (b ∷ bs) = if b == 10 then (b ∷ [], bs) else let (l, r) = fgets n bs in (b ∷ l, r)

-- The C string at the start of a buffer.
unfoldable pub c_string : List ℕ → List ℕ
c_string [] = []
c_string (b ∷ bs) = if b == 0 then [] else b ∷ c_string bs

-- `strchr(linebuf, '=')`: what stands before and behind it.
unfoldable pub split_at_equals : List ℕ → Option (List ℕ × List ℕ)
split_at_equals [] = none
split_at_equals (b ∷ bs) =
    if b == 61
    then some ([], bs)
    else elim (split_at_equals bs) [ none ↦ none | some (l, r) ↦ some (b ∷ l, r) ]

-- The first bytes of lines that are left out: `;`, a blank, `#`, a tab, the end of the line, `[`.
abbrev pub is_skipped : ℕ → Bool
is_skipped c = c == 59 || c == 32 || c == 35 || c == 9 || c == 10 || c == 91

-- The body of the loop of `Load`.
unfoldable pub load_line : List ℕ → ConfigMap → ConfigMap
unfolding split_at_equals insert_item trim
load_line [] m = m
load_line (c ∷ cs) m = if is_skipped c then m else elim (split_at_equals (c ∷ cs)) [
  | none ↦ m
  | some (l, r) ↦ insert_item (trim l) (trim r) m
]

-- The loop of `Load`, on what is left of the file, with fuel for the lines.
unfoldable pub load_lines : ℕ → List ℕ → ConfigMap → ConfigMap
unfolding load_line fgets c_string
load_lines zero bs m = m
load_lines (suc fuel) [] m = m
load_lines (suc fuel) (b ∷ bs) m =
    let (line, rest) = fgets 499 (b ∷ bs) in load_lines fuel rest (load_line (c_string line) m)

-- `Load`: `none` is a file that cannot be opened.
unfoldable pub load : Option (List ℕ) → ConfigMap → ConfigMap × Bool
unfolding load_lines
load none m = (m, false)
load (some bytes) m = (load_lines (length bytes) bytes m, true)
