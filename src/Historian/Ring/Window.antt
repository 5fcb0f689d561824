-- ===== src/Historian/Ring/Window.antt =====
-- The cells of the ring read in order from a start, going round at the capacity.
use native.Mathlib.Nat.{mod-add-mod, mod-eq_of_lt, mod-eq-sub-mod}
use opc_server.Prelude.{
  ℕ, zero, suc, ◌+◌, ◌-◌, ◌%◌, ◌≡◌, ◌≢◌, ◌≤◌, ◌<◌, refl, sym, ap, ◌∙◌, List, [], ◌∷◌, ◌++◌, length,
  set, get_or, get_or-set_ne, drop, arith, ◌⊎◌, inl, inr, dec_lt,
}
use opc_server.Historian.Ring.{RingHistorian, snapshot_from}

-- One turn round the ring at most.
pub wrap : (a c : ℕ) → a < c + c → ((a < c) × (a % c ≡ a)) ⊎ ((c ≤ a) × (a % c ≡ a - c))
wrap a c h = elim (dec_lt a c) [
  | yes p ↦ inl (p, mod-eq_of_lt p)
  | no p ↦ inr (
    omega arith,
    mod-eq-sub-mod {n = a} {m = c} (omega arith) ∙ mod-eq_of_lt {n = a - c} {m = c} (omega arith),
  )
]

module _ {S : Type 0} (blank : S) where
  -- The `n` cells that follow position `i` of the window that starts at `o`.
  pub window : List S → ℕ → ℕ → ℕ → ℕ → List S
  window buf cap o zero i = []
  window buf cap o (suc n) i = get_or buf ((o + i) % cap) blank ∷ window buf cap o n (i + 1)

  pub snapshot_from-eq-window :
      (r : RingHistorian S) (o n i : ℕ)
      → snapshot_from blank r o n i ≡ window r.buffer r.capacity o n i
  unfolding snapshot_from window
  snapshot_from-eq-window r o zero i = refl
  snapshot_from-eq-window r o (suc n) i = rw (snapshot_from-eq-window r o n (i + 1))

  pub length-window : (buf : List S) (cap o n i : ℕ) → length (window buf cap o n i) ≡ n
  unfolding window
  length-window buf cap o zero i = refl
  length-window buf cap o (suc n) i = ap suc (length-window buf cap o n (i + 1))

  pub window-snoc :
      (buf : List S) (cap o n i : ℕ)
      → window buf cap o (suc n) i
        ≡ window buf cap o n i ++ (get_or buf ((o + (i + n)) % cap) blank ∷ [])
  unfolding window
  window-snoc buf cap o zero i =
      ap (λ k. get_or buf ((o + k) % cap) blank ∷ []) {x = i} {y = i + 0} (omega arith)
  window-snoc buf cap o (suc n) i = ap (get_or buf ((o + i) % cap) blank ∷◌) (
      window-snoc buf cap o n (i + 1)
      ∙ ap (λ k. window buf cap o n (i + 1) ++ (get_or buf ((o + k) % cap) blank ∷ []))
          {x = i + 1 + n} {y = i + suc n} (omega arith))

  pub window-set :
      (buf : List S) (cap h : ℕ) (s : S) (o n i : ℕ)
      → ((j : ℕ) → i ≤ j → j < i + n → (o + j) % cap ≢ h)
      → window (set buf h s) cap o n i ≡ window buf cap o n i
  unfolding window
  window-set buf cap h s o zero i apart = refl
  window-set buf cap h s o (suc n) i apart = rw (
    get_or-set_ne buf {i = h} {j = (o + i) % cap} s blank
        (λ e. apart i (omega arith) (omega arith) (sym e)),
    window-set buf cap h s o n (i + 1) (λ j a b. apart j (omega arith) (omega arith)),
  )

  pub window-shift :
      (buf : List S) (cap o n i : ℕ)
      → window buf cap ((o + 1) % cap) n i ≡ window buf cap o n (i + 1)
  unfolding window
  window-shift buf cap o zero i = refl
  window-shift buf cap o (suc n) i = rw (step, window-shift buf cap o n (i + 1))
    where
      step : ((o + 1) % cap + i) % cap ≡ (o + (i + 1)) % cap
      step = rw mod-add-mod (ap (λ k. k % cap) (omega arith))

  pub drop-window :
      (buf : List S) (cap o n i : ℕ)
      → drop 1 (window buf cap o (suc n) i) ≡ window buf cap o n (i + 1)
  unfolding window
  drop-window buf cap o n i = refl

  -- What a ring with these cells holds, oldest first.
  abbrev pub held : List S → ℕ → ℕ → ℕ → List S
  held buf cap h c = window buf cap ((h + cap - c) % cap) c 0
