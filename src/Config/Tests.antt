-- ===== src/Config/Tests.antt =====
-- Lines of a configuration file: `ab=c#x` with and without blanks, and a line of blanks.
use distributedsim.Base.{List, ℕ, ◌≡◌, refl, none, some, [], ◌∷◌, ◌>>=◌}
use distributedsim.Config.{hash, equal_sign, space, tab, entry, read_line, read_lines, get}
use distributedsim.Config.Files.{Written}

abbrev a : ℕ
a = 97

abbrev c : ℕ
c = 99

-- The file of `ac=c#a` and `a=a`.
abbrev entries : List Written
entries =
    record { k = a; key = c ∷ []; v = c; value = []; comment = some (a ∷ []) }
    ∷ record { k = a; key = []; v = a; value = []; comment = none }
    ∷ []

with_blanks :
    read_line (space ∷ a ∷ space ∷ equal_sign ∷ tab ∷ c ∷ []) ≡ some (entry (a ∷ []) (c ∷ []))
unfolding read_line
with_blanks = refl

-- On an empty line, or one with only a comment, trim erases a range that is not in the string.
empty_line : read_line [] ≡ none
unfolding read_line
empty_line = refl

comment_line : read_line (hash ∷ a ∷ []) ≡ none
unfolding read_line
comment_line = refl

-- The first of two entries for a key is kept, and a key that is missing has the default.
first_kept :
    (do
      kv ← read_lines ((a ∷ equal_sign ∷ c ∷ []) ∷ (a ∷ equal_sign ∷ a ∷ []) ∷ []) []
      get kv (a ∷ []) [] some)
    ≡ some (c ∷ [])
unfolding read_lines get
first_kept = refl
