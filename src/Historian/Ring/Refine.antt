-- ===== src/Historian/Ring/Refine.antt =====
-- The ring against the plain history of what was recorded.
use mathlib.Core.List.{append_assoc, append-nil}
use opc_server.Prelude.{
  ℕ, zero, suc, ◌+◌, ◌-◌, ◌%◌, ◌≡◌, ◌≢◌, ◌≤◌, ◌<◌, refl, sym, ap, ◌∙◌, List, [], ◌∷◌, ◌++◌, Bool,
  length, set, get_or-set_self, drop, drop-drop, drop-append_of_le, arith, max, ℕ_discrete, min,
}
use opc_server.Historian.Ring.{
  RingHistorian, init, record_sample, record_all, snapshot, snapshot_from, size,
}
use opc_server.Historian.Ring.Valid.{IsValid, init-IsValid, record_sample-IsValid}
use opc_server.Historian.Ring.Window.{
  wrap, window-snoc, window-set, window-shift, drop-window, length-window, snapshot_from-eq-window,
  held,
}

module _ {S : Type 0} (blank : S) where
  held-room :
      (buf : List S) (cap h c : ℕ) (s : S)
      → length buf ≡ cap
      → h < cap
      → c < cap
      → held blank (set buf h s) cap ((h + 1) % cap) (suc c) ≡ held blank buf cap h c ++ (s ∷ [])
  held-room buf cap h c s storage hh hc =
      let o : ℕ = (h + cap - c) % cap in
      let start : ((h + 1) % cap + cap - suc c) % cap ≡ o =
        omega (
          arith,
          wrap (h + 1) cap,
          wrap (h + cap - c) cap,
          wrap ((h + 1) % cap + cap - suc c) cap,
        ) in
      let last : (o + (0 + c)) % cap ≡ h =
        omega (arith, wrap (h + cap - c) cap, wrap (o + (0 + c)) cap) in
      let apart : (j : ℕ) → 0 ≤ j → j < 0 + c → (o + j) % cap ≢ h =
        λ j a b. omega (arith, wrap (h + cap - c) cap, wrap (o + j) cap) in
      rw start (
        window-snoc blank (set buf h s) cap o c 0
        ∙ rw (
          last,
          window-set blank buf cap h s o c 0 apart,
          get_or-set_self buf h s blank (omega arith),
        ))

  held-full :
      (buf : List S) (cap h : ℕ) (s : S)
      → length buf ≡ cap
      → h < cap
      → held blank (set buf h s) cap ((h + 1) % cap) cap
        ≡ drop 1 (held blank buf cap h cap) ++ (s ∷ [])
  held-full buf zero h s storage hh = absurd (omega arith)
  held-full buf (suc m) h s storage hh =
      let cap : ℕ = suc m in
      let o : ℕ = (h + 1) % cap in
      let start : (o + cap - cap) % cap ≡ o =
        omega (arith, wrap (h + 1) cap, wrap (o + cap - cap) cap) in
      let last : (o + (0 + m)) % cap ≡ h =
        omega (arith, wrap (h + 1) cap, wrap (o + (0 + m)) cap) in
      let old : (h + cap - cap) % cap ≡ h = omega (arith, wrap (h + cap - cap) cap) in
      let apart : (j : ℕ) → 0 ≤ j → j < 0 + m → (o + j) % cap ≢ h =
        λ j a b. omega (arith, wrap (h + 1) cap, wrap (o + j) cap) in
      rw (start, old, drop-window blank buf cap h m 0)
        (window-snoc blank (set buf h s) cap o m 0
          ∙ rw (
            last,
            window-set blank buf cap h s o m 0 apart,
            get_or-set_self buf h s blank (omega arith),
            window-shift blank buf cap h m 0,
          ))

  pub snapshot-eq-held :
      (r : RingHistorian S) → snapshot blank r ≡ held blank r.buffer r.capacity r.head r.count
  unfolding snapshot
  snapshot-eq-held r = snapshot_from-eq-window blank r _ r.count 0

  -- Recording into a valid ring appends the sample to what it holds, and drops the oldest one
  -- exactly when the ring was full.
  pub snapshot-record_sample :
      {r : RingHistorian S} (s : S)
      → IsValid r
      → snapshot blank (record_sample blank r s)
        ≡ drop (r.count + 1 - r.capacity) (snapshot blank r) ++ (s ∷ [])
  unfolding record_sample
  snapshot-record_sample {r} s v =
      snapshot-eq-held (record_sample blank r s)
      ∙ elim (ℕ_discrete count capacity) [
        | yes e ↦
            ap after {y = capacity} (ground arith)
            ∙ held-full buffer capacity head s v.storage v.head_in
            ∙ ap (λ n. drop n (held blank buffer capacity head capacity) ++ (s ∷ [])) {x = 1}
                {y = count + 1 - capacity} (omega arith)
            ∙ ap before (sym e)
        | no ne ↦
            ap after {y = suc count} (ground arith)
            ∙ held-room buffer capacity head count s v.storage v.head_in (omega arith)
            ∙ ap (λ n. drop n (held blank buffer capacity head count) ++ (s ∷ [])) {x = 0}
                {y = count + 1 - capacity} (omega arith)
      ]
      ∙ ap (λ xs. drop (count + 1 - capacity) xs ++ (s ∷ [])) (sym (snapshot-eq-held r))
    where
      open r use {buffer, capacity, head, count}

      after : ℕ → List S
      after = held blank (set buffer head s) capacity ((head + 1) % capacity)

      before : ℕ → List S
      before c = drop (count + 1 - capacity) (held blank buffer capacity head c) ++ (s ∷ [])

  pub length-snapshot : (r : RingHistorian S) → length (snapshot blank r) ≡ r.count
  length-snapshot r = rw (snapshot-eq-held r) (length-window blank r.buffer r.capacity _ r.count 0)

  count-record_sample :
      {r : RingHistorian S} (s : S)
      → IsValid r
      → let q = record_sample blank r s in
        (q.count ≡ min (r.count + 1) r.capacity)
        × (q.dropped ≡ r.dropped + (r.count + 1 - r.capacity))
        × (q.capacity ≡ r.capacity)
  unfolding record_sample
  count-record_sample {r} s v = ground arith

  record_all-holds :
      (ss : List S) {r : RingHistorian S}
      → IsValid r
      → let q = record_all blank r ss in
        (snapshot blank q ≡ drop (r.count + length ss - r.capacity) (snapshot blank r ++ ss))
        × (q.dropped ≡ r.dropped + (r.count + length ss - r.capacity))
        × (q.count ≡ min (r.count + length ss) r.capacity)
  unfolding record_all
  record_all-holds [] {r} v = (
    ap (λ n. drop n (snapshot blank r)) {x = 0} (omega (arith, v.count_in))
        ∙ ap (drop (r.count + 0 - r.capacity)) (sym (append-nil (snapshot blank r))),
    omega (arith, v.count_in),
    omega (arith, v.count_in),
  )
  record_all-holds (s ∷ ss) {r} v =
      let q = record_sample blank r s in
      let k = r.count + 1 - r.capacity in
      let ih = record_all-holds ss (record_sample-IsValid blank s v) in
      let c = count-record_sample s v in
      (
        ih.0
            ∙ ap (λ xs. drop (q.count + length ss - q.capacity) (xs ++ ss))
                (snapshot-record_sample s v)
            ∙ ap (drop (q.count + length ss - q.capacity)) (
                append_assoc (drop k (snapshot blank r)) (s ∷ []) ss
                ∙ drop-append_of_le k (snapshot blank r) (s ∷ ss)
                    (omega (arith, length-snapshot r, v.count_in, v.positive)))
            ∙ drop-drop (q.count + length ss - q.capacity) k (snapshot blank r ++ s ∷ ss)
            ∙ ap (λ n. drop n (snapshot blank r ++ s ∷ ss))
                {x = k + (q.count + length ss - q.capacity)}
                {y = r.count + suc (length ss) - r.capacity} (omega (arith, c, v.count_in)),
        omega (arith, ih.1, c, v.count_in),
        omega (arith, ih.2, c, v.count_in),
      )

  init-fields :
      (cap : ℕ) (m : Bool)
      → let r = init blank cap m in (r.count ≡ 0) × (r.dropped ≡ 0) × (r.capacity ≡ max cap 1)
  unfolding init
  init-fields cap m = ground arith

  snapshot-init : (cap : ℕ) (m : Bool) → snapshot blank (init blank cap m) ≡ []
  unfolding snapshot snapshot_from init
  snapshot-init cap m = refl

  -- A ring built with a capacity, after any samples recorded into it in order, holds the newest of
  -- them, oldest first, as many as the capacity (taken as 1 if it is 0); the samples it no longer
  -- holds are as many as `dropped` says, and `size` is the number that it holds.
  pub record_all_lem :
      (cap : ℕ) (m : Bool) (ss : List S)
      → let q = record_all blank (init blank cap m) ss in
        (snapshot blank q ≡ drop (length ss - max cap 1) ss)
        × (q.dropped ≡ length ss - max cap 1)
        × (size blank q ≡ min (length ss) (max cap 1))
  unfolding size
  record_all_lem cap m ss =
      let h = record_all-holds ss (init-IsValid blank cap m) in
      let f = init-fields cap m in
      (
        h.0
            ∙ ap
                (λ xs.
                  drop ((init blank cap m).count + length ss - (init blank cap m).capacity)
                    (xs ++ ss))
                (snapshot-init cap m)
            ∙ ap (λ n. drop n ss) (omega (arith, f)),
        omega (arith, h.1, f),
        omega (arith, h.2, f),
      )
