-- ===== src/Prelude/Texts.antt =====
-- Texts as lists of code points, with the operations of Python's `str` that the code uses.
use Prim.Native.Nat.{ℕ}
use mathlib.Core.Bool.{Bool, true, false, ◌&&◌, ◌||◌}
use mathlib.Core.List.{List, [], ◌∷◌, ◌++◌}
use mathlib.Core.Path.{◌≡◌, refl, ap, ◌∙◌}
use native.Mathlib.Omega.{arith}
use web_listening.Prelude.Tests.{ltb, ◌==◌, ==_iff, and_true, if◌then◌else◌}

abbrev pub Text : Type 0
Text = List ℕ

abbrev pub same_text : Text → Text → Bool
same_text [] [] = true
same_text [] (y ∷ ys) = false
same_text (x ∷ xs) [] = false
same_text (x ∷ xs) (y ∷ ys) = (x == y) && same_text xs ys

abbrev pub is_blank : Text → Bool
is_blank [] = true
is_blank (x ∷ xs) = false

-- `xs or ys`
abbrev pub or_else : Text → Text → Text
or_else [] ys = ys
or_else (x ∷ xs) ys = x ∷ xs

abbrev pub starts_with : Text → Text → Bool
starts_with xs [] = true
starts_with [] (p ∷ ps) = false
starts_with (x ∷ xs) (p ∷ ps) = (x == p) && starts_with xs ps

abbrev pub ends_with : Text → Text → Bool
ends_with [] suffix = same_text [] suffix
ends_with (x ∷ xs) suffix = same_text (x ∷ xs) suffix || ends_with xs suffix

-- `needle in xs`
abbrev pub contains : Text → Text → Bool
contains [] needle = starts_with [] needle
contains (x ∷ xs) needle = starts_with (x ∷ xs) needle || contains xs needle

abbrev pub lstrip : (ℕ → Bool) → Text → Text
lstrip p [] = []
lstrip p (x ∷ xs) = if p x then lstrip p xs else x ∷ xs

-- A character, put before a text that has been stripped on its right.
abbrev keep : (ℕ → Bool) → ℕ → Text → Text
keep p x [] = if p x then [] else x ∷ []
keep p x (y ∷ ys) = x ∷ y ∷ ys

abbrev pub rstrip : (ℕ → Bool) → Text → Text
rstrip p [] = []
rstrip p (x ∷ xs) = keep p x (rstrip p xs)

abbrev pub strip : (ℕ → Bool) → Text → Text
strip p xs = lstrip p (rstrip p xs)

-- `xs.replace(a, b)`, of one character by another
abbrev pub replace : ℕ → ℕ → Text → Text
replace a b [] = []
replace a b (x ∷ xs) = (if x == a then b else x) ∷ replace a b xs

pub same_text→eq : (xs ys : Text) → same_text xs ys ≡ true → xs ≡ ys
same_text→eq [] [] h = refl
same_text→eq [] (y ∷ ys) h = cc
same_text→eq (x ∷ xs) [] h = cc
same_text→eq (x ∷ xs) (y ∷ ys) h =
    let (a, b) = and_true (x == y) (same_text xs ys) h in
    let k = (==_iff x y).0 a in let l = same_text→eq xs ys b in cc

pub same_text_refl : (xs : Text) → same_text xs xs ≡ true
same_text_refl [] = refl
same_text_refl (x ∷ xs) = ground (arith, same_text_refl xs)

-- A text that starts with another goes on from it.
pub starts_with→split :
    (xs prefix : Text) → starts_with xs prefix ≡ true → (rest : Text) × (xs ≡ prefix ++ rest)
starts_with→split xs [] h = (xs, refl)
starts_with→split [] (p ∷ ps) h = cc
starts_with→split (x ∷ xs) (p ∷ ps) h =
    let (a, b) = and_true (x == p) (starts_with xs ps) h in
    let (rest, k) = starts_with→split xs ps b in
    let l = (==_iff x p).0 a in (rest, ap (λ y. y ∷ xs) l ∙ ap (λ ys. p ∷ ys) k)

pub split→starts_with : (prefix rest : Text) → starts_with (prefix ++ rest) prefix ≡ true
split→starts_with [] [] = refl
split→starts_with [] (x ∷ xs) = refl
split→starts_with (p ∷ ps) rest = ground (arith, split→starts_with ps rest)

-- Python's `<=` on texts, by code points.
abbrev pub text_le : Text → Text → Bool
text_le [] ys = true
text_le (x ∷ xs) [] = false
text_le (x ∷ xs) (y ∷ ys) = ltb x y || ((x == y) && text_le xs ys)

abbrev pub insert_text : Text → List Text → List Text
insert_text x [] = x ∷ []
insert_text x (y ∷ ys) = if text_le x y then x ∷ y ∷ ys else y ∷ insert_text x ys

-- `sorted`
abbrev pub sort_texts : List Text → List Text
sort_texts [] = []
sort_texts (x ∷ xs) = insert_text x (sort_texts xs)
