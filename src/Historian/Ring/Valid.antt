-- ===== src/Historian/Ring/Valid.antt =====
-- The representation invariant of RingHistorian, for its constructor and `record`.
use opc_server.Prelude.{ℕ, ◌≡◌, refl, ◌≤◌, ◌<◌, Bool, length, length-set, length-replicate, arith}
use opc_server.Historian.Ring.{RingHistorian, init, record_sample}

pub record IsValid {S : Type 0} (r : RingHistorian S) : Type 0 where
  pub storage : length r.buffer ≡ r.capacity
  pub positive : 0 < r.capacity
  pub head_in : r.head < r.capacity
  pub count_in : r.count ≤ r.capacity

module _ {S : Type 0} (blank : S) where
  pub init-IsValid : (c : ℕ) (m : Bool) → IsValid (init blank c m)
  unfolding init
  init-IsValid c m = ground (arith, length-replicate {0} c blank)

  -- Recording any sample keeps a valid ring valid: its storage is as long as its positive capacity,
  -- the head is inside of it and the count is at most the capacity.
  pub record_sample-IsValid :
      {r : RingHistorian S} (s : S) → IsValid r → IsValid (record_sample blank r s)
  unfolding record_sample
  record_sample-IsValid {r} s v = ground (arith, length-set {0} r.buffer r.head s)

  pub capacity-record_sample :
      (r : RingHistorian S) (s : S) → (record_sample blank r s).capacity ≡ r.capacity
  unfolding record_sample
  capacity-record_sample r s = refl
