-- ===== src/Response/Match.antt =====
-- When the pattern counts as received.
use quark_ts_cpp.Prelude.{
  ℕ, zero, suc, ◌+◌, ◌-◌, ◌≡◌, ◌<◌, refl, ap, ap₂, sym, ◌∙◌, Bool, true, false, List, [], ◌∷◌, ◌==◌,
  if◌then◌else◌, arith, ◌⊎◌, Bool-cases, inl, inr,
}
use quark_ts_cpp.Prelude.Word.{modulus}
use quark_ts_cpp.Memory.{read_bytes}
use quark_ts_cpp.Response.{Response, isr_handler}

-- The characters arrive one by one.
pub receive_all : Response → List ℕ → Response
receive_all r [] = r
receive_all r (c ∷ cs) = receive_all (isr_handler r c).0 cs

-- The characters of the pattern stand among the others in their order, with others between them or not.
pub occurs_in : List ℕ → List ℕ → Bool
occurs_in [] cs = true
occurs_in (p ∷ ps) [] = false
occurs_in (p ∷ ps) (c ∷ cs) =
    let found = occurs_in ps cs in
    let later = occurs_in (p ∷ ps) cs in if p == c then found else later

Nat-cases : (n : ℕ) → (n ≡ 0) ⊎ ((j : ℕ) × (n ≡ suc j))
Nat-cases zero = inl refl
Nat-cases (suc j) = inr (j, refl)

-- What is received stays so.
stays_received :
    (r : Response) (cs : List ℕ)
    → r.response_received ≡ true
    → (receive_all r cs).response_received ≡ true
unfolding receive_all
stays_received r [] e = e
stays_received r (c ∷ cs) e = stays_received (isr_handler r c).0 cs (kept r c e)
  where
    kept :
        (r : Response) (c : ℕ)
        → r.response_received ≡ true
        → (isr_handler r c).0.response_received ≡ true
    kept r c e = unfold isr_handler in ground (arith, e)

module _ (r : Response) (c k : ℕ) (e : r.response_received ≡ false)
    (l : r.pattern_length ≡ r.matched_count + suc k) (m : r.pattern_length < modulus) where
  other_char :
      (r.memory (r.pattern_to_match + r.matched_count) == c) ≡ false → isr_handler r c ≡ (r, false)
  unfolding isr_handler
  other_char d = ground (arith, e, l, d)

  last_char :
      (r.memory (r.pattern_to_match + r.matched_count) == c) ≡ true
      → k ≡ 0
      → (isr_handler r c).0.response_received ≡ true
  unfolding isr_handler
  last_char d z = ground (arith, e, l, d, z, m)

  next_char :
      (r.memory (r.pattern_to_match + r.matched_count) == c) ≡ true
      → 0 < k
      → isr_handler r c ≡ (record r { matched_count = r.matched_count + 1 }, false)
  unfolding isr_handler
  next_char d z = ground (arith, e, l, d, z, m)

hit : (p c : ℕ) (ps cs : List ℕ) → (p == c) ≡ true → occurs_in (p ∷ ps) (c ∷ cs) ≡ occurs_in ps cs
unfolding occurs_in
hit p c ps cs d = rw d refl

miss :
    (p c : ℕ) (ps cs : List ℕ)
    → (p == c) ≡ false
    → occurs_in (p ∷ ps) (c ∷ cs) ≡ occurs_in (p ∷ ps) cs
unfolding occurs_in
miss p c ps cs d = rw d refl

nothing_left : (cs : List ℕ) → occurs_in [] cs ≡ true
unfolding occurs_in
nothing_left cs = refl

none_come : (p : ℕ) (ps : List ℕ) → occurs_in (p ∷ ps) [] ≡ false
unfolding occurs_in
none_come p ps = refl

-- The characters of the pattern that are still to come.
abbrev to_come : Response → ℕ → List ℕ
to_come r k = read_bytes r.memory (r.pattern_to_match + r.matched_count) k

after : List ℕ → Response × Bool → Bool
after cs q = (receive_all q.0 cs).response_received

receive_all_lem :
    (cs : List ℕ) (r : Response) (k : ℕ)
    → r.response_received ≡ false
    → r.pattern_length ≡ r.matched_count + suc k
    → r.pattern_length < modulus
    → (receive_all r cs).response_received ≡ occurs_in (to_come r (suc k)) cs
unfolding receive_all read_bytes after
receive_all_lem [] r k e l m =
    e ∙ sym (none_come (r.memory (r.pattern_to_match + r.matched_count)) _)
receive_all_lem (c ∷ cs) r k e l m =
    let a = r.pattern_to_match + r.matched_count in
    elim (Bool-cases (r.memory a == c)) [
      | inl d ↦ (elim (Nat-cases k) [
        | inl z ↦
            stays_received (isr_handler r c).0 cs (last_char r c k e l m d z)
            ∙ sym (
                hit (r.memory a) c (read_bytes r.memory (a + 1) k) cs d
                ∙ ap (λ n. occurs_in (read_bytes r.memory (a + 1) n) cs) z
                ∙ nothing_left cs)
        | inr (j, z) ↦
            ap (after cs) (next_char r c k e l m d (omega (arith, z)))
            ∙ receive_all_lem cs (record r { matched_count = r.matched_count + 1 }) j e
                (omega (arith, l, z)) m
            ∙ ap₂ (λ b n. occurs_in (read_bytes r.memory b n) cs) {u = suc j} {v = k} (omega arith)
                (sym z)
            ∙ sym (hit (r.memory a) c (read_bytes r.memory (a + 1) k) cs d)
      ])
      | inr d ↦
          ap (after cs) (other_char r c k e l m d)
          ∙ receive_all_lem cs r k e l m
          ∙ sym (miss (r.memory a) c (read_bytes r.memory (a + 1) k) cs d)
    ]

-- A handler that waits for a pattern has received it, after characters came in, exactly when the
-- characters of the pattern occur among them in order; other characters between them do not matter.
pub isr_handler-occurs_in :
    (r : Response) (cs : List ℕ)
    → r.response_received ≡ false
    → r.matched_count ≡ 0
    → 0 < r.pattern_length
    → r.pattern_length < modulus
    → (receive_all r cs).response_received
      ≡ occurs_in (read_bytes r.memory r.pattern_to_match r.pattern_length) cs
isr_handler-occurs_in r cs e z p m =
    receive_all_lem cs r (r.pattern_length - 1) e (omega (arith, z, p)) m
    ∙ ap₂ (λ a n. occurs_in (read_bytes r.memory a n) cs) {x = r.pattern_to_match + r.matched_count}
        {y = r.pattern_to_match} {u = suc (r.pattern_length - 1)} {v = r.pattern_length}
        (omega (arith, z)) (omega (arith, p))
