-- ===== src/Kernel/Sorting.antt =====
-- The waiting list sorted by task entry: the bubble sort of src/list.cpp.
use quark_ts_cpp.Prelude.Shuffles
use quark_ts_cpp.Prelude.Shuffles.{Shuffle, All-Shuffle, Shuffle-Perm}
use mathlib.Core.List.{Perm, append-nil}
use quark_ts_cpp.Prelude.{
  ℕ, zero, suc, ◌-◌, ◌≤◌, ◌≡◌, refl, sym, ap, subst, Bool, List, [], ◌∷◌, ◌++◌, ltb, arith, length,
  All, All-split, Bool-cases, inl, inr,
}
use quark_ts_cpp.DList.Links.{Distinct}
use quark_ts_cpp.Kernel.Lists.{sort_pass, sort_passes, sort}

pub Distinct-Shuffle : {xs ys : List ℕ} → Shuffle xs ys → Distinct xs → Distinct ys
Distinct-Shuffle Shuffles.nil d = tt
Distinct-Shuffle (Shuffles.keep x p) d = (All-Shuffle _ p d.0, Distinct-Shuffle p d.1)
Distinct-Shuffle (Shuffles.swap x y xs) d = (((λ e. d.0.0 (sym e)), d.1.0), (d.0.1, d.1.1))
Distinct-Shuffle (Shuffles.trans p q) d = Distinct-Shuffle q (Distinct-Shuffle p d)

module _ (key : ℕ → ℕ) where
  abbrev later : ℕ → ℕ → Bool
  later a b = ltb (key b) (key a)

  -- No key stands before a smaller one.
  abbrev pub Ascends : List ℕ → Type 0
  Ascends [] = Unit
  Ascends (x ∷ xs) = All (λ y. key x ≤ key y) xs × Ascends xs

  -- A pass over `cur ∷ ys` brings a largest node to the end of it, before `zs`.
  record Bubbled (cur : ℕ) (ys zs out : List ℕ) : Type 0 where
    front : List ℕ
    top : ℕ
    shape : out ≡ front ++ top ∷ zs
    count : length front ≡ length ys
    reaches : key cur ≤ key top
    below : All (λ y. key y ≤ key top) front
    same : Shuffle (cur ∷ ys) (front ++ top ∷ [])

  sort_pass-Bubbled :
      (cur : ℕ) (ys zs : List ℕ) → Bubbled cur ys zs (sort_pass later (length ys) cur (ys ++ zs))
  unfolding sort_pass
  sort_pass-Bubbled cur [] zs = record {
    front = [];
    top = cur;
    shape = refl;
    count = refl;
    reaches = omega arith;
    below = tt;
    same = Shuffles.same (cur ∷ []);
  }
  sort_pass-Bubbled cur (y ∷ ys) zs = elim (Bool-cases (later cur y)) [
    | inl e ↦
        (let b = sort_pass-Bubbled cur ys zs in
          rw e (record {
            front = y ∷ b.front;
            top = b.top;
            shape = ap (λ t. y ∷ t) b.shape;
            count = ap suc b.count;
            reaches = b.reaches;
            below = (ground (arith, e, b.reaches), b.below);
            same = Shuffles.trans (Shuffles.swap cur y ys) (Shuffles.keep y b.same);
          }))
    | inr e ↦
        (let b = sort_pass-Bubbled y ys zs in
          rw e (record {
            front = cur ∷ b.front;
            top = b.top;
            shape = ap (λ t. cur ∷ t) b.shape;
            count = ap suc b.count;
            reaches = ground (arith, e, b.reaches);
            below = (ground (arith, e, b.reaches), b.below);
            same = Shuffles.keep cur b.same;
          }))
  ]

  sort_passes-Ascends :
      (k : ℕ) (pre suf : List ℕ)
      → length pre ≡ suc k
      → Ascends suf
      → All (λ x. All (λ z. key x ≤ key z) suf) pre
      → Ascends (sort_passes later k (pre ++ suf))
  unfolding sort_passes
  sort_passes-Ascends k [] suf e s a = absurd (omega arith)
  sort_passes-Ascends zero (x ∷ []) suf e s a = (a.0, s)
  sort_passes-Ascends zero (x ∷ (y ∷ pre)) suf e s a = absurd (omega arith)
  sort_passes-Ascends (suc k) (x ∷ pre) suf e s a =
      let b = sort_pass-Bubbled x pre suf in
      let (f, t) = All-split _ b.front (b.top ∷ []) (All-Shuffle _ b.same a) in
      subst (λ n. Ascends (sort_passes later k (sort_pass later n x (pre ++ suf)))) (count e)
        (rw b.shape (
          sort_passes-Ascends k b.front (b.top ∷ suf) (omega (arith, b.count, e)) (t.0, s)
            (under b.front b.top suf b.below f)))
    where
      count : suc (length pre) ≡ suc (suc k) → length pre ≡ suc k
      count e = omega arith

      under :
          (xs : List ℕ) (top : ℕ) (zs : List ℕ)
          → All (λ y. key y ≤ key top) xs
          → All (λ x. All (λ z. key x ≤ key z) zs) xs
          → All (λ x. All (λ z. key x ≤ key z) (top ∷ zs)) xs
      under [] top zs a b = tt
      under (x ∷ xs) top zs a b = ((a.0, b.0), under xs top zs a.1 b.1)

  sort_pass-Shuffle : (k cur : ℕ) (xs : List ℕ) → Shuffle (cur ∷ xs) (sort_pass later k cur xs)
  unfolding sort_pass
  sort_pass-Shuffle zero cur xs = Shuffles.same (cur ∷ xs)
  sort_pass-Shuffle (suc k) cur [] = Shuffles.same (cur ∷ [])
  sort_pass-Shuffle (suc k) cur (x ∷ xs) = elim (Bool-cases (later cur x)) [
    | inl e ↦
        rw e
          (Shuffles.trans (Shuffles.swap cur x xs) (Shuffles.keep x (sort_pass-Shuffle k cur xs)))
    | inr e ↦ rw e (Shuffles.keep cur (sort_pass-Shuffle k x xs))
  ]

  sort_passes-Shuffle : (k : ℕ) (xs : List ℕ) → Shuffle xs (sort_passes later k xs)
  unfolding sort_passes
  sort_passes-Shuffle zero xs = Shuffles.same xs
  sort_passes-Shuffle (suc k) [] = sort_passes-Shuffle k []
  sort_passes-Shuffle (suc k) (x ∷ xs) =
      Shuffles.trans (sort_pass-Shuffle (suc k) x xs)
        (sort_passes-Shuffle k (sort_pass later (suc k) x xs))

  pub sort-Shuffle : (xs : List ℕ) → Shuffle xs (sort later xs)
  unfolding sort
  sort-Shuffle xs = sort_passes-Shuffle (length xs - 1) xs

  -- `sort` with the order of a key, like the entry of a task, gives the same nodes by rising key.
  pub sort-Ascends : (xs : List ℕ) → Ascends (sort later xs) × Perm xs (sort later xs)
  unfolding sort
  sort-Ascends [] = (unfold sort_passes in tt, Shuffle-Perm (sort-Shuffle []))
  sort-Ascends (x ∷ xs) = (
    subst (λ k. Ascends (sort_passes later k (x ∷ xs))) (less_one (length xs))
        (subst (λ ys. Ascends (sort_passes later (length xs) ys)) (append-nil (x ∷ xs))
          (sort_passes-Ascends (length xs) (x ∷ xs) [] refl tt (nothing (x ∷ xs)))),
    Shuffle-Perm (sort-Shuffle (x ∷ xs)),
  )
    where
      less_one : (n : ℕ) → n ≡ suc n - 1
      less_one n = omega arith

      nothing : (xs : List ℕ) → All (λ x. All (λ z. key x ≤ key z) []) xs
      nothing [] = tt
      nothing (x ∷ xs) = (tt, nothing xs)
