-- ===== src/Config.antt =====
-- include/config.hpp: the lines of a configuration file. A string is the list of the codes of its
-- characters, and the file the list of its lines. `none` is undefined behaviour or an exception of the
-- conversion that get is given.
pub mod Entries
pub mod Files
mod Tests
use distributedsim.Base.{
  ℕ, zero, suc, Bool, true, false, ◌&&◌, ◌||◌, Option, none, some, List, [], ◌∷◌, ◌==◌,
  if◌then◌else◌, ◌>>=◌,
}

abbrev pub tab : ℕ
tab = 9

abbrev pub space : ℕ
space = 32

abbrev pub hash : ℕ
hash = 35

abbrev pub equal_sign : ℕ
equal_sign = 61

-- `str.substr(0, str.find(c))`: all of the string where the character is missing.
unfoldable pub before : ℕ → List ℕ → List ℕ
before c [] = []
before c (x ∷ xs) = if x == c then [] else x ∷ before c xs

-- `str.substr(str.find(c) + 1)`, with `none` where the character is missing.
unfoldable pub after : ℕ → List ℕ → Option (List ℕ)
after c [] = none
after c (x ∷ xs) = if x == c then some xs else after c xs

unfoldable pub remove : ℕ → List ℕ → List ℕ
remove c [] = []
remove c (x ∷ xs) = if x == c then remove c xs else x ∷ remove c xs

-- `str.erase(str.begin(), str.begin()+str.find_first_not_of(" \t"))`: without such a character the
-- range is none of the string, which is undefined.
unfoldable pub skip_blanks : List ℕ → Option (List ℕ)
skip_blanks [] = none
skip_blanks (x ∷ xs) = if (x == space) || (x == tab) then skip_blanks xs else some (x ∷ xs)

-- The last step is the conversion from a C string.
unfoldable pub trim : List ℕ → Option (List ℕ)
unfolding before remove skip_blanks
trim str = do rest ← skip_blanks (remove space str); some (before 0 rest)

pub data Line : Type 0 where
  blank : Line
  no_equal : Line
  entry : List ℕ → List ℕ → Line

abbrev pub split_line : List ℕ → Option (List ℕ) → Option Line
split_line line none = some no_equal
split_line line (some rest) = do
  key ← trim (before equal_sign line)
  value ← trim rest
  some (entry key value)

abbrev pub read_trimmed : List ℕ → Option Line
read_trimmed [] = some blank
read_trimmed (c ∷ cs) = split_line (c ∷ cs) (after equal_sign (c ∷ cs))

unfoldable pub read_line : List ℕ → Option Line
unfolding trim before after
read_line str = do line ← trim (before hash str); read_trimmed line

abbrev pub same : List ℕ → List ℕ → Bool
same [] [] = true
same [] (y ∷ ys) = false
same (x ∷ xs) [] = false
same (x ∷ xs) (y ∷ ys) = (x == y) && same xs ys

unfoldable pub find_key : List ℕ → List (List ℕ × List ℕ) → Option (List ℕ)
find_key key [] = none
find_key key ((k, v) ∷ kv) = if same k key then some v else find_key key kv

-- unordered_map::emplace: an entry that is there is kept.
abbrev pub emplace_new :
    List ℕ → List ℕ → List (List ℕ × List ℕ) → Option (List ℕ) → List (List ℕ × List ℕ)
emplace_new key value kv none = (key, value) ∷ kv
emplace_new key value kv (some v) = kv

-- The loop over the lines, which ends at one without an equal sign.
unfoldable pub read_lines : List (List ℕ) → List (List ℕ × List ℕ) → Option (List (List ℕ × List ℕ))
unfolding read_line find_key
read_lines [] kv = some kv
read_lines (str ∷ strs) kv =
    let rest = read_lines strs in
    do
      line ← read_line str
      elim line [
        | blank ↦ rest kv
        | no_equal ↦ some kv
        | entry key value ↦ rest (emplace_new key value kv (find_key key kv))
      ]

abbrev pub convert {ℓ} : {T : Type ℓ} → T → (List ℕ → Option T) → Option (List ℕ) → Option T
convert dv conv none = some dv
convert dv conv (some v) = conv v

unfoldable pub get {ℓ} :
    {T : Type ℓ} → List (List ℕ × List ℕ) → List ℕ → T → (List ℕ → Option T) → Option T
unfolding find_key
get kv key dv conv = convert dv conv (find_key key kv)
