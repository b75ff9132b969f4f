-- ===== src/Input/Sharing.antt =====
-- Analog channels with one number share the value of one of them.
use quark_ts_cpp.Prelude.{
  ℕ, ◌≡◌, refl, sym, ap, ap₂, ◌∙◌, inl, inr, Bool, true, false, ◌&&◌, Option, none, some, List, [],
  ◌∷◌, ◌==◌, if◌then◌else◌, arith, Bool-cases,
}
use quark_ts_cpp.Kernel.Lists.{member}
use quark_ts_cpp.Input.{AnalogChannel}
use quark_ts_cpp.Input.Watcher.{
  Watcher, put_analog, find_number, share_again, remove_analog, without,
}

abbrev after : Watcher → ℕ → ℕ → Watcher
after m a b = put_analog m a (record (m.analogs a) { ptr_value = b })

after_number : (m : Watcher) (a b x : ℕ) → ((after m a b).analogs x).number ≡ (m.analogs x).number
unfolding put_analog
after_number m a b x = elim (Bool-cases (x == a)) [
  | inl e ↦ (let f : x ≡ a = ground (arith, e) in rw e (ap (λ y. (m.analogs y).number) (sym f)))
  | inr e ↦ rw e refl
]

after_ptr :
    (m : Watcher) (a b x : ℕ)
    → ((after m a b).analogs x).ptr_value ≡ (if x == a then b else (m.analogs x).ptr_value)
unfolding put_analog
after_ptr m a b x = elim (Bool-cases (x == a)) [ inl e ↦ rw e refl | inr e ↦ rw e refl ]

-- A channel of the list with the number reads the value of `b`, the others what they did.
share_with :
    (n b : ℕ) (xs : List ℕ) (m : Watcher) (x : ℕ)
    → ((share_again n xs (some b) m).analogs x).ptr_value
      ≡ (if member xs x && ((m.analogs x).number == n) then b else (m.analogs x).ptr_value)
unfolding share_again
share_with n b [] m x = refl
share_with n b (a ∷ xs) m x = ground (
  arith,
  share_with n b xs m x,
  share_with n b xs (after m a b) x,
  after_number m a b x,
  after_ptr m a b x,
  ap (λ y. (m.analogs y).number) {x = a} {y = x},
)

-- Where a channel of the list with the number reads, and where it read before.
abbrev pub reads_from : Option ℕ → Bool → ℕ → ℕ
reads_from none b p = p
reads_from (some a) b p = if b then a else p

-- When the channels of a list with a number share again, they all read the value of the first of them,
-- and the others read what they did.
pub share_again_lem :
    (n : ℕ) (xs : List ℕ) (m : Watcher) (x : ℕ)
    → ((share_again n xs none m).analogs x).ptr_value
      ≡ reads_from
          (find_number m.analogs n xs)
          (member xs x && ((m.analogs x).number == n))
          (m.analogs x).ptr_value
unfolding share_again find_number
share_again_lem n [] m x = refl
share_again_lem n (a ∷ xs) m x = elim (Bool-cases ((m.analogs a).number == n)) [
  | inl e ↦
      (let f : (n == (m.analogs a).number) ≡ true = ground (arith, e) in
        rw (e, f)
          (ground (
            arith,
            share_with n a xs (after m a a) x,
            after_number m a a x,
            after_ptr m a a x,
            e,
            ap (λ y. (m.analogs y).number) {x = a} {y = x},
          )))
  | inr e ↦
      (let f : (n == (m.analogs a).number) ≡ false = ground (arith, e) in
        rw (e, f)
          (share_again_lem n xs m x
            ∙ ap (λ b. reads_from (find_number m.analogs n xs) b (m.analogs x).ptr_value)
                (skipped e)))
]
  where
    skipped :
        ((m.analogs a).number == n) ≡ false
        → (member xs x && ((m.analogs x).number == n))
          ≡ (member (a ∷ xs) x && ((m.analogs x).number == n))
    skipped e = ground (arith, e, ap (λ y. (m.analogs y).number) {x = a} {y = x})

find_number_same :
    (f g : ℕ → AnalogChannel) (n : ℕ) (xs : List ℕ)
    → ((x : ℕ) → (f x).number ≡ (g x).number)
    → find_number f n xs ≡ find_number g n xs
unfolding find_number
find_number_same f g n [] h = refl
find_number_same f g n (a ∷ xs) h =
    ap₂ (λ k o. if n == k then some a else o) (h a) (find_number_same f g n xs h)

-- After an analog channel is removed, it reads its own value, and those left with its number read the
-- value of the first of them.
pub remove_analog-shares :
    (m : Watcher) (a x : ℕ)
    → let n = (m.analogs a).number in
      let rest = without a m.analog_channels in
      ((remove_analog m a).0.analogs x).ptr_value
      ≡ reads_from
          (find_number m.analogs n rest)
          (member rest x && ((m.analogs x).number == n))
          (if x == a then a else (m.analogs x).ptr_value)
unfolding remove_analog
remove_analog-shares m a x =
    let n = (m.analogs a).number in
    let rest = without a m.analog_channels in
    let m0 = record m { analog_channels = rest } in
    let o = find_number_same (after m0 a a).analogs m.analogs n rest (after_number m0 a a) in
    share_again_lem n rest (after m0 a a) x
    ∙ ap
        (λ k.
          reads_from k (member rest x && (((after m0 a a).analogs x).number == n))
            ((after m0 a a).analogs x).ptr_value)
        o
    ∙ ap₂ (λ k p. reads_from (find_number m.analogs n rest) (member rest x && (k == n)) p)
        (after_number m0 a a x) (after_ptr m0 a a x)
