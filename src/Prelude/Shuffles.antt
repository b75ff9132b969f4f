-- ===== src/Prelude/Shuffles.antt =====
-- Rearrangements that are given step by step, so that what holds of each element of a list is carried
-- along; the library's `Perm` follows.
use Prim.Native.Nat.{ℕ}
use mathlib.Core.List.{List, [], ◌∷◌, ◌++◌, Perm}
use mathlib.Core.List.Perm
use quark_ts_cpp.Prelude.Lists.{All}

pub data Shuffle : List ℕ → List ℕ → Type 0 where
  nil : Shuffle [] []
  keep : (x : ℕ) {xs ys : List ℕ} → Shuffle xs ys → Shuffle (x ∷ xs) (x ∷ ys)
  swap : (x y : ℕ) (xs : List ℕ) → Shuffle (x ∷ y ∷ xs) (y ∷ x ∷ xs)
  trans : {xs ys zs : List ℕ} → Shuffle xs ys → Shuffle ys zs → Shuffle xs zs

pub same : (xs : List ℕ) → Shuffle xs xs
same [] = nil
same (x ∷ xs) = keep x (same xs)

pub symm : {xs ys : List ℕ} → Shuffle xs ys → Shuffle ys xs
symm nil = nil
symm (keep x p) = keep x (symm p)
symm (swap x y xs) = swap y x xs
symm (trans p q) = trans (symm q) (symm p)

-- An element comes to the front.
pub middle : (xs : List ℕ) (x : ℕ) (ys : List ℕ) → Shuffle (x ∷ (xs ++ ys)) (xs ++ x ∷ ys)
middle [] x ys = same (x ∷ ys)
middle (z ∷ xs) x ys = trans (swap x z (xs ++ ys)) (keep z (middle xs x ys))

pub append_left : (xs : List ℕ) {ys zs : List ℕ} → Shuffle ys zs → Shuffle (xs ++ ys) (xs ++ zs)
append_left [] p = p
append_left (x ∷ xs) p = keep x (append_left xs p)

pub append_right : {xs ys : List ℕ} (zs : List ℕ) → Shuffle xs ys → Shuffle (xs ++ zs) (ys ++ zs)
append_right zs nil = same zs
append_right zs (keep x p) = keep x (append_right zs p)
append_right zs (swap x y xs) = swap x y (xs ++ zs)
append_right zs (trans p q) = trans (append_right zs p) (append_right zs q)

pub Shuffle-Perm : {xs ys : List ℕ} → Shuffle xs ys → Perm xs ys
Shuffle-Perm nil = Perm.nil
Shuffle-Perm (keep x p) = Perm.cons x (Shuffle-Perm p)
Shuffle-Perm (swap x y xs) = Perm.swap y x xs
Shuffle-Perm (trans p q) = Perm.trans (Shuffle-Perm p) (Shuffle-Perm q)

pub All-Shuffle {ℓ} : (P : ℕ → Type ℓ) {xs ys : List ℕ} → Shuffle xs ys → All P xs → All P ys
All-Shuffle P nil a = tt
All-Shuffle P (keep x p) a = (a.0, All-Shuffle P p a.1)
All-Shuffle P (swap x y xs) a = (a.1.0, (a.0, a.1.1))
All-Shuffle P (trans p q) a = All-Shuffle P q (All-Shuffle P p a)
