-- ===== src/Dispatcher/Writes.antt =====
-- enqueue_write and flush_writes. A queue that is not in the map is empty, as `operator[]` makes it.
use opc_server.Prelude.{
  ℕ, zero, suc, ◌+◌, List, [], ◌∷◌, ◌++◌, Option, none, some, Bool, true, false, not, ◌&&◌, leb,
  ◌==◌, if◌then◌else◌, String, length, map, get_or,
}
use opc_server.Prelude.Int.{ℤ, pos, ◌+ℤ◌, to_unsigned}
use opc_server.Prelude.Eq.{string_eq}
use opc_server.Prelude.Map.{lookup, insert}
use opc_server.Prelude.Text.{concat}
use opc_server.Domain.{good, bad, QualityReason, Result, Error, ErrorCode, value_or}
use opc_server.Project.{Area}
use opc_server.Platform.{Floats}
use opc_server.Index.{RuntimeIndex, TagBinding, find_by_id}
use opc_server.Translator.Codec.{Scalar, encode}
use opc_server.Dispatcher.State.{
  State, Env, PendingWrite, MetricEvent, emit, publish_quality, dispatcher_error, transport_of,
}
use opc_server.Dispatcher.Groups.{same_area}

abbrev pub max_write_queue_depth : ℕ
max_write_queue_depth = 1024

-- Equality of integers.
unfoldable pub eq_ℤ : ℤ → ℤ → Bool
eq_ℤ (pos m) (pos n) = m == n
eq_ℤ (ℤ.negsuc m) (ℤ.negsuc n) = m == n
eq_ℤ _ _ = false

module _ {fl : Floats} (env : Env fl) where
  open env use {W, ports}

  abbrev pub Write : Type 0
  Write = PendingWrite (Scalar fl)

  abbrev pub queue_of : State env → String → List Write
  queue_of s endpoint_id = value_or (lookup endpoint_id s.write_queues) []

  abbrev pub set_queue : State env → String → List Write → State env
  set_queue s endpoint_id q = record s { write_queues = insert endpoint_id q s.write_queues }

  abbrev pub depth_event : ℕ → MetricEvent
  depth_event n = MetricEvent.gauge_set "modbus_write_queue_depth" n

  unfoldable pub enqueue_bound :
      State env → TagBinding fl.F64 → ℕ → Scalar fl → Result (Unit {0}) × State env
  enqueue_bound s b tag_id value =
      let queue = queue_of s b.endpoint_id in
      let queue' = queue ++ record { tag_id = tag_id; value = value } ∷ [] in
      if not b.tag.writable
      then (Result.err (dispatcher_error ErrorCode.permission "tag not writable"), s)
      else if leb max_write_queue_depth (length queue)
      then (
        Result.err
            (record (dispatcher_error ErrorCode.queue_full
              (concat "write queue full for endpoint " b.endpoint_id)) { retryable = true }),
        emit (set_queue s b.endpoint_id queue)
            (MetricEvent.counter_add "modbus_write_queue_overflow_total"),
      )
      else (Result.ok tt, emit (set_queue s b.endpoint_id queue') (depth_event (length queue')))

  unfoldable pub enqueue_write : State env → ℕ → Scalar fl → Result (Unit {0}) × State env
  enqueue_write s tag_id value = elim (find_by_id s.index tag_id) [
    | none ↦ (Result.err (dispatcher_error ErrorCode.not_found "unknown tag"), s)
    | some b ↦ enqueue_bound s b tag_id value
  ]

  -- `rest` goes back to the front of the queue.
  unfoldable pub requeue : State env → String → List Write → State env
  requeue s endpoint_id rest =
      let queue = rest ++ queue_of s endpoint_id in
      emit (set_queue s endpoint_id queue) (depth_event (length queue))

  abbrev pub as_bits : List ℕ → List ℕ
  as_bits = map (λ r. if r == 0 then 0 else 1)

  -- What the inner loop over the coils that follow comes to: the bits, the writes that they are of,
  -- and the writes left; or the write that was not encoded, its error, and those after it.
  pub data Run : Type 0 where
    joined : List ℕ → List Write → List Write → Run
    failed : Write → Error → List Write → Run

  abbrev pub joins : TagBinding fl.F64 → ℕ → ℤ → Bool
  joins b unit next_addr =
      same_area b.tag.area Area.coil && b.unit_id == unit && eq_ℤ b.tag.address next_addr

  unfoldable pub join_coils : RuntimeIndex fl.F64 → ℕ → ℤ → List ℕ → List Write → List Write → Run
  join_coils index unit next_addr bits taken [] = joined bits taken []
  join_coils index unit next_addr bits taken (p ∷ ps) = elim (find_by_id index p.tag_id) [
    | none ↦ joined bits taken (p ∷ ps)
    | some b ↦ elim (joins b unit next_addr) [
      | false ↦ joined bits taken (p ∷ ps)
      | true ↦ elim (encode fl b.tag p.value) [
        | Result.err e ↦ failed p e ps
        | Result.ok regs ↦
            join_coils index unit (next_addr +ℤ pos (length regs)) (bits ++ as_bits regs)
              (taken ++ p ∷ []) ps
      ]
    ]
  ]

  unfoldable pub write_bits : ℕ → ℕ → ℕ → List ℕ → W → Result (Unit {0}) × W
  write_bits t unit addr bits w =
      if length bits == 1
      then ports.write_single_coil t unit addr (not (get_or bits 0 0 == 0)) w
      else ports.write_multiple_coils t unit addr bits w

  unfoldable pub write_registers : ℕ → ℕ → ℕ → List ℕ → W → Result (Unit {0}) × W
  write_registers t unit addr regs w =
      if length regs == 1
      then ports.write_single_register t unit addr (get_or regs 0 0) w
      else ports.write_multiple_registers t unit addr regs w

  unfoldable pub publish_written : State env → ℤ → List Write → State env
  publish_written s now [] = s
  publish_written s now (p ∷ ps) =
      publish_written (publish_quality s p.tag_id good QualityReason.no_reason now (some p.value))
        now ps

  unfoldable pub fail_write :
      State env → String → ℤ → Write → QualityReason → List Write → State env
  fail_write s endpoint_id now p why rest =
      requeue (publish_quality s p.tag_id bad why now none) endpoint_id rest

  -- One round: the result if the round ends the loop, the writes left for the next one, the state.
  abbrev pub Round : Type 0
  Round = Option Error × List Write × State env

  -- `rest` is all after the first write, `left` all after those that were taken.
  unfoldable pub finish_write :
      State env
      → String
      → ℤ
      → Write
      → List Write
      → List Write
      → List Write
      → Result (Unit {0}) × W
      → Round
  finish_write s ep now p rest taken left (Result.err e, w) =
      (some e, [], fail_write (record s { world = w }) ep now p QualityReason.write_rejected rest)
  finish_write s ep now p rest taken left (Result.ok _, w) =
      (none, left, publish_written (record s { world = w }) now taken)

  unfoldable pub round_coils :
      State env → String → ℕ → ℤ → TagBinding fl.F64 → Write → List Write → Run → Round
  round_coils s ep t now b p rest (failed q e after) =
      (some e, [], fail_write s ep now q QualityReason.decoding_error after)
  round_coils s ep t now b p rest (joined bits taken left) =
      finish_write s ep now p rest taken left
        (write_bits t b.unit_id (to_unsigned b.tag.address 0x10000) bits s.world)

  unfoldable pub round_encoded :
      State env → String → ℕ → ℤ → TagBinding fl.F64 → Write → List Write → Result (List ℕ) → Round
  round_encoded s ep t now b p rest (Result.err e) =
      (some e, [], fail_write s ep now p QualityReason.decoding_error rest)
  round_encoded s ep t now b p rest (Result.ok regs) =
      let addr = to_unsigned b.tag.address 0x10000 in
      let bits = as_bits regs in
      if same_area b.tag.area Area.coil
      then round_coils s ep t now b p rest
          (join_coils s.index b.unit_id (pos (addr + length bits)) bits (p ∷ []) rest)
      else finish_write s ep now p rest (p ∷ []) rest
          (write_registers t b.unit_id addr regs s.world)

  unfoldable pub flush_round : State env → String → ℕ → ℤ → Write → List Write → Round
  flush_round s ep t now p rest = elim (find_by_id s.index p.tag_id) [
    | none ↦ (none, rest, s)
    | some b ↦ round_encoded s ep t now b p rest (encode fl b.tag p.value)
  ]

  -- The loop over the batch. A round leaves fewer writes, so fuel of the batch's length is enough.
  unfoldable pub flush_loop :
      ℕ → State env → String → ℕ → ℤ → List Write → Result (Unit {0}) × State env
  flush_loop zero s ep t now batch = (Result.ok tt, s)
  flush_loop (suc fuel) s ep t now [] = (Result.ok tt, s)
  flush_loop (suc fuel) s ep t now (p ∷ rest) =
      let (ended, left, s') = flush_round s ep t now p rest in
      elim ended [ some e ↦ (Result.err e, s') | none ↦ flush_loop fuel s' ep t now left ]

  -- `batch` has been swapped out of the queue.
  unfoldable pub flush_batch : State env → String → List Write → Result (Unit {0}) × State env
  flush_batch s ep batch = elim (transport_of s ep) [
    | none ↦ (
      Result.err (dispatcher_error ErrorCode.not_found "transport not bound"),
      requeue s ep batch,
    )
    | some t ↦
        let (now, w) = ports.now_ms s.world in
        let now' = if s.has_clock then now else pos 0 in
        let s' = record s { world = if s.has_clock then w else s.world } in
        flush_loop (length batch) s' ep t now' batch
  ]

  unfoldable pub flush_writes : State env → String → Result (Unit {0}) × State env
  flush_writes s ep = elim (queue_of s ep) [
    | [] ↦ (Result.ok tt, s)
    | p ∷ ps ↦ flush_batch (emit (set_queue s ep []) (depth_event 0)) ep (p ∷ ps)
  ]
