-- ===== src/Config/Entries.antt =====
-- include/config.hpp: what is read of a line with a key, a value and perhaps a comment.
use distributedsim.Base.{
  ℕ, ◌≡◌, refl, ap, false, Option, none, some, List, [], ◌∷◌, ◌++◌, ◌==◌, ==_refl, All, All-append,
  All-mono,
}
use distributedsim.Config.{
  tab, space, hash, equal_sign, before, after, remove, skip_blanks, trim, entry, read_line,
}

-- The character does not occur.
pub Lacks : ℕ → List ℕ → Type 0
Lacks c xs = All (λ x. (x == c) ≡ false) xs

module _ (c : ℕ) where
  before_all : (xs : List ℕ) → Lacks c xs → before c xs ≡ xs
  unfolding before Lacks
  before_all [] h = refl
  before_all (x ∷ xs) h = rw h.0 (ap (◌∷◌ x) (before_all xs h.1))

  before-append : (xs ys : List ℕ) → Lacks c xs → before c (xs ++ c ∷ ys) ≡ xs
  unfolding before Lacks
  before-append [] ys h = rw (==_refl c) refl
  before-append (x ∷ xs) ys h = rw h.0 (ap (◌∷◌ x) (before-append xs ys h.1))

  after-append : (xs ys : List ℕ) → Lacks c xs → after c (xs ++ c ∷ ys) ≡ some ys
  unfolding after Lacks
  after-append [] ys h = rw (==_refl c) refl
  after-append (x ∷ xs) ys h = rw h.0 (after-append xs ys h.1)

  remove_all : (xs : List ℕ) → Lacks c xs → remove c xs ≡ xs
  unfolding remove Lacks
  remove_all [] h = refl
  remove_all (x ∷ xs) h = rw h.0 (ap (◌∷◌ x) (remove_all xs h.1))

-- The character ends no part of a line and is not trimmed.
pub record IsPlain (x : ℕ) : Type 0 where
  pub not_null : (x == 0) ≡ false
  pub not_tab : (x == tab) ≡ false
  pub not_space : (x == space) ≡ false
  pub not_hash : (x == hash) ≡ false

-- A character of a key or a value.
pub record IsLetter (x : ℕ) : Type 0 where
  pub plain : IsPlain x
  pub not_equal : (x == equal_sign) ≡ false

trim_plain : (x : ℕ) (xs : List ℕ) → All IsPlain (x ∷ xs) → trim (x ∷ xs) ≡ some (x ∷ xs)
unfolding trim Lacks skip_blanks
trim_plain x xs h =
    rw
      (
        remove_all space (x ∷ xs) (All-mono IsPlain (x ∷ xs) (λ c p. p.not_space) h),
        h.0.not_space,
        h.0.not_tab,
        before_all 0 (x ∷ xs) (All-mono IsPlain (x ∷ xs) (λ c p. p.not_null) h),
      )
      refl

equal_sign-IsPlain : IsPlain equal_sign
equal_sign-IsPlain = record { not_null = refl; not_tab = refl; not_space = refl; not_hash = refl }

-- A line, with `#` and a comment after it or without.
abbrev pub with_comment : Option (List ℕ) → List ℕ → List ℕ
with_comment none line = line
with_comment (some comment) line = line ++ hash ∷ comment

before-with_comment :
    (comment : Option (List ℕ)) (line : List ℕ)
    → Lacks hash line
    → before hash (with_comment comment line) ≡ line
before-with_comment none line lacks = before_all hash line lacks
before-with_comment (some comment) line lacks = before-append hash line comment lacks

-- A line with a key, an equal sign and a value, and perhaps a comment, is read as that key with that
-- value. The key and the value are not empty and have no blank, no `#`, no `=` and no NUL.
pub read_line-entry :
    (k v : ℕ) (key value : List ℕ) (comment : Option (List ℕ))
    → All IsLetter (k ∷ key)
    → All IsLetter (v ∷ value)
    → read_line (with_comment comment ((k ∷ key) ++ equal_sign ∷ v ∷ value))
      ≡ some (entry (k ∷ key) (v ∷ value))
unfolding read_line Lacks
read_line-entry k v key value comment hk hv =
    let pk = All-mono IsLetter (k ∷ key) (λ c p. p.plain) hk in
    let pv = All-mono IsLetter (v ∷ value) (λ c p. p.plain) hv in
    let line = (k ∷ key) ++ equal_sign ∷ v ∷ value in
    let pl = All-append IsPlain (k ∷ key) (equal_sign ∷ v ∷ value) pk (equal_sign-IsPlain, pv) in
    let apart = All-mono IsLetter (k ∷ key) (λ c p. p.not_equal) hk in
    rw
      (
        before-with_comment comment line (All-mono IsPlain line (λ c p. p.not_hash) pl),
        trim_plain k (key ++ equal_sign ∷ v ∷ value) pl,
        after-append equal_sign (k ∷ key) (v ∷ value) apart,
        before-append equal_sign (k ∷ key) (v ∷ value) apart,
        trim_plain k key pk,
        trim_plain v value pv,
      )
      refl
