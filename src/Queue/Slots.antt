-- ===== src/Queue/Slots.antt =====
-- The storage of a queue as `cap` slots of `size` bytes from `base` on, and the items in a run of
-- slots that goes round at the end.
use quark_ts_cpp.Prelude.{
  ℕ, zero, suc, ◌+◌, ◌-◌, ◌*◌, ◌≤◌, ◌<◌, ◌≡◌, refl, sym, ap, ap₂, ◌∙◌, ◌≢◌, ◌⊎◌, [], ◌∷◌, ◌++◌,
  arith, ◌==◌, if◌then◌else◌, length,
}
use quark_ts_cpp.Memory.{
  Memory, read_bytes, write_bytes, Apart, read_bytes-write_bytes_self, read_bytes-write_bytes-Apart,
}
use quark_ts_cpp.Queue.Deque.{Item, Deque}

-- Going `k` slots on from slot `s` leads to slot `w`.
abbrev pub Off : ℕ → ℕ → ℕ → ℕ → Type 0
Off cap s k w = (w ≡ s + k) ⊎ (w + cap ≡ s + k)

pub mul_gap : (s w size : ℕ) → s < w → s * size + size ≤ w * size
mul_gap s w size h = grind arith

abbrev pub next_slot : ℕ → ℕ → ℕ
next_slot cap s = if s + 1 == cap then 0 else s + 1

abbrev pub slot_at : ℕ → ℕ → ℕ → ℕ
slot_at base size s = base + s * size

module _ (base cap size : ℕ) where
  abbrev slot : ℕ → ℕ
  slot = slot_at base size

  next_Off :
      (s k w : ℕ)
      → s < cap
      → w < cap
      → suc k < cap
      → Off cap s (suc k) w
      → Off cap (next_slot cap s) k w
  next_Off s k w hs hw hk o = ground arith

  slots-Apart : (s w : ℕ) → s ≢ w → Apart (slot s) size (slot w) size
  slots-Apart s w h = ground (arith, mul_gap s w size, mul_gap w s size)

  unfoldable pub window : Memory → ℕ → ℕ → Deque
  window m s zero = []
  window m s (suc n) = read_bytes m (slot s) size ∷ window m (next_slot cap s) n

  pub length-window : (m : Memory) (s n : ℕ) → length (window m s n) ≡ n
  unfolding window
  length-window m s zero = refl
  length-window m s (suc n) = ap suc (length-window m (next_slot cap s) n)

  -- A write to a slot behind the run leaves the run as it was.
  pub window-write_bytes :
      (m : Memory) (s n k w : ℕ) (x : Item)
      → length x ≡ size
      → s < cap
      → w < cap
      → k < cap
      → n ≤ k
      → Off cap s k w
      → window (write_bytes m (slot w) x) s n ≡ window m s n
  unfolding window
  window-write_bytes m s zero k w x e hs hw hk hn o = refl
  window-write_bytes m s (suc n) zero w x e hs hw hk hn o = absurd (omega arith)
  window-write_bytes m s (suc n) (suc k) w x e hs hw hk hn o =
      ap₂ ◌∷◌
        (read_bytes-write_bytes-Apart m (slot s) size (slot w) x
          (rw e (slots-Apart s w (omega arith))))
        (window-write_bytes m (next_slot cap s) n k w x e (ground arith) hw (omega arith)
          (omega arith) (next_Off s k w hs hw hk o))

  -- The run's last item, apart.
  pub window-snoc :
      (m : Memory) (s n w : ℕ)
      → s < cap
      → w < cap
      → n < cap
      → Off cap s n w
      → window m s (suc n) ≡ window m s n ++ read_bytes m (slot w) size ∷ []
  unfolding window
  window-snoc m s zero w hs hw hn o = ap (λ i. read_bytes m (slot i) size ∷ []) (omega arith)
  window-snoc m s (suc n) w hs hw hn o =
      ap (λ d. read_bytes m (slot s) size ∷ d)
        (window-snoc m (next_slot cap s) n w (ground arith) hw (omega arith)
          (next_Off s n w hs hw hn o))

  read_written :
      (m : Memory) (w : ℕ) (x : Item)
      → length x ≡ size
      → read_bytes (write_bytes m (slot w) x) (slot w) size ≡ x
  read_written m w x e =
      ap (read_bytes (write_bytes m (slot w) x) (slot w)) (sym e)
      ∙ read_bytes-write_bytes_self m (slot w) x

  -- A write to the slot right behind the run makes the run longer by that item.
  pub window-write_bytes_back :
      (m : Memory) (s n w : ℕ) (x : Item)
      → length x ≡ size
      → s < cap
      → w < cap
      → n < cap
      → Off cap s n w
      → window (write_bytes m (slot w) x) s (suc n) ≡ window m s n ++ x ∷ []
  window-write_bytes_back m s n w x e hs hw hn o =
      window-snoc (write_bytes m (slot w) x) s n w hs hw hn o
      ∙ ap₂ (λ d y. d ++ y ∷ []) (window-write_bytes m s n n w x e hs hw hn (omega arith) o)
          (read_written m w x e)

  -- A write to the slot right before the run, when it is not full, puts that item in front.
  pub window-write_bytes_front :
      (m : Memory) (s n : ℕ) (x : Item)
      → length x ≡ size
      → s < cap
      → n < cap
      → window (write_bytes m (slot s) x) s (suc n) ≡ x ∷ window m (next_slot cap s) n
  unfolding window
  window-write_bytes_front m s n x e hs hn = ap₂ ◌∷◌ (read_written m s x e) (
      window-write_bytes m (next_slot cap s) n (cap - 1) s x e (ground arith) hs (omega arith)
        (omega arith) (ground arith))
