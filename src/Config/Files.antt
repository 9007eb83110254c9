-- ===== src/Config/Files.antt =====
-- include/config.hpp: what get finds of a whole file of entries.
use distributedsim.Base.{ℕ, Option, none, some, List, [], ◌∷◌, ◌++◌, if◌then◌else◌, All}
use distributedsim.Config.{equal_sign, same}
use distributedsim.Config.Entries.{IsLetter, with_comment}

-- An entry as it is written: the first characters of its key and its value, the others, and its comment
-- where it has one.
pub record Written : Type 0 where
  pub k : ℕ
  pub key : List ℕ
  pub v : ℕ
  pub value : List ℕ
  pub comment : Option (List ℕ)

abbrev pub key_of : Written → List ℕ
key_of w = w.k ∷ w.key

abbrev pub value_of : Written → List ℕ
value_of w = w.v ∷ w.value

abbrev pub line_of : Written → List ℕ
line_of w = with_comment w.comment (key_of w ++ equal_sign ∷ value_of w)

abbrev pub IsEntry : Written → Type 0
IsEntry w = All IsLetter (key_of w) × All IsLetter (value_of w)

-- The value of the first entry with the key.
abbrev pub first_value : List ℕ → List Written → Option (List ℕ)
first_value key [] = none
first_value key (w ∷ ws) = if same (key_of w) key then some (value_of w) else first_value key ws

abbrev or_else : Option (List ℕ) → Option (List ℕ) → Option (List ℕ)
or_else none other = other
or_else (some x) other = some x
