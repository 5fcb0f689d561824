-- ===== src/Historian/Ring/Recent.antt =====
-- `recent` against the contents of the ring.
use mathlib.Core.List.{reverse, reverse-append}
use opc_server.Prelude.{
  ℕ, zero, suc, ◌+◌, ◌-◌, ◌%◌, ◌≡◌, ◌≤◌, refl, sym, ap, ◌∙◌, [], ◌∷◌, length, take-min,
  length-reverse, get_or, take, arith, min,
}
use opc_server.Historian.Ring.{RingHistorian, snapshot, recent, recent_from}
use opc_server.Historian.Ring.Valid.{IsValid}
use opc_server.Historian.Ring.Window.{wrap, window, window-snoc, held}
use opc_server.Historian.Ring.Refine.{snapshot-eq-held, length-snapshot}

module _ {S : Type 0} (blank : S) where
  recent_from-eq-take :
      {r : RingHistorian S} (n i m : ℕ)
      → IsValid r
      → i + m ≡ r.count
      → n ≤ m
      → recent_from blank r n i
        ≡ take n (
            reverse
              (window blank r.buffer r.capacity ((r.head + r.capacity - r.count) % r.capacity) m 0))
  unfolding recent_from
  recent_from-eq-take zero i m v e h = refl
  recent_from-eq-take (suc n) i zero v e h = absurd (omega arith)
  recent_from-eq-take {r} (suc n) i (suc m) v e h =
      let o : ℕ = (head + capacity - count) % capacity in
      let newest : (head + capacity - 1 - i) % capacity ≡ (o + (0 + m)) % capacity = omega (
        arith,
        wrap (head + capacity - count) capacity,
        wrap (head + capacity - 1 - i) capacity,
        wrap (o + (0 + m)) capacity,
      ) in
      let cell : ℕ → S = λ k. get_or buffer k blank in
      let older = window blank buffer capacity o m 0 in
      ap (λ k. cell k ∷ recent_from blank r n (i + 1)) newest
      ∙ ap (cell ((o + (0 + m)) % capacity) ∷◌)
          (recent_from-eq-take n (i + 1) m v (omega arith) (omega arith))
      ∙ ap (take (suc n)) (sym (reverse-append older (cell ((o + (0 + m)) % capacity) ∷ [])))
      ∙ ap (λ xs. take (suc n) (reverse xs)) (sym (window-snoc blank buffer capacity o m 0))
    where
      open r use {buffer, capacity, head, count}

  -- `recent` of a valid ring is the newest samples that it holds, newest first, at most as many as
  -- asked for.
  pub recent-snapshot :
      {r : RingHistorian S} (n : ℕ)
      → IsValid r
      → recent blank r n ≡ take n (reverse (snapshot blank r))
  unfolding recent
  recent-snapshot {r} n v =
      recent_from-eq-take (min n r.count) 0 r.count v (omega arith) (omega arith)
      ∙ take-min n (reverse (held blank buffer capacity head count)) count
          (length-reverse _ ∙ ap length (sym (snapshot-eq-held blank r)) ∙ length-snapshot blank r)
      ∙ ap (λ xs. take n (reverse xs)) (sym (snapshot-eq-held blank r))
    where
      open r use {buffer, capacity, head, count}
