-- ===== src/Dispatcher/PollTagLaws.antt =====
-- What a poll of one tag leaves in the tag store, and how poll_tag and poll_tag_async differ.
use mathlib.Core.Option
use opc_server.Prelude.{
  List, Bool, false, not, ◌||◌, sym, ℕ, ◌≡◌, refl, ap, ◌∙◌, Option, none, some, true, if◌then◌else◌,
  ◌==◌, arith,
}
use opc_server.Prelude.Int.{ℤ, to_unsigned}
use opc_server.Prelude.Eq.{nat_eq}
use opc_server.Prelude.Map.{lookup-insert}
use opc_server.Domain.{
  good, bad, QualityReason, TagValue, Result, Error, ErrorCode, ScalarValue, with_quality,
}
use opc_server.Project.{Area}
use opc_server.Platform.{Floats}
use opc_server.Index.{TagBinding}
use opc_server.TagStore
use opc_server.Translator.Codec.{Scalar}
use opc_server.Dispatcher.State.{State, Env, publish_quality, transport_error, dispatcher_error}
use opc_server.Dispatcher.PollTag.{
  regs_for, reason_for, Reading, registers, bits_failed, of_bits, regs_of, read_area, observe_rtt,
  decode_regs, good_value, finish_decoded, finish_reading, store_decoded, store_regs, finish_regs,
  async_read, poll_tag, poll_tag_async,
}

-- The areas that are read as registers.
abbrev pub IsRegisterArea : Area → Type 0
IsRegisterArea Area.holding = Unit
IsRegisterArea Area.input = Unit
IsRegisterArea Area.coil = ⊥
IsRegisterArea Area.discrete = ⊥

abbrev pub Stored : Floats → Type 0
Stored fl = Option (TagValue (Scalar fl))

module _ {fl : Floats} (env : Env fl) where
  open env use {W, ports}

  -- The value that a tag had, or none yet.
  abbrev pub value_before : Stored fl → Scalar fl
  value_before none = ScalarValue.monostate
  value_before (some v) = v.value

  -- A tag that was read at a time.
  abbrev pub IsGoodAt : ℤ → TagValue (Scalar fl) → Type 0
  IsGoodAt now v =
      (v.quality ≡ good)
      × (v.reason ≡ QualityReason.no_reason)
      × (v.source_ts ≡ now)
      × (v.server_ts ≡ now)

  -- A tag that could not be read at a time, with the value of before.
  abbrev pub IsBadAt : ℤ → Stored fl → TagValue (Scalar fl) → Type 0
  IsBadAt now old v = (v.quality ≡ bad) × (v.server_ts ≡ now) × (v.value ≡ value_before old)

  -- The value of a tag after a poll, from the poll's result and the value before.
  abbrev pub Shown : ℤ → Result (Unit {0}) → Stored fl → Stored fl → Type 0
  Shown now (Result.ok _) old new = (v : TagValue (Scalar fl)) × (new ≡ some v) × IsGoodAt now v
  Shown now (Result.err e) old new = (v : TagValue (Scalar fl)) × (new ≡ some v) × IsBadAt now old v

  IsBadAt-with_quality :
      (old : Stored fl) (why : QualityReason) (now : ℤ)
      → IsBadAt now old (with_quality ScalarValue.monostate old bad why now)
  unfolding with_quality
  IsBadAt-with_quality none why now = (refl, refl, refl)
  IsBadAt-with_quality (some v) why now = (refl, refl, refl)

  -- What holds of a result and the state after it: the tag shows the result, no other tag changed.
  abbrev pub PollsOnly : ℤ → ℕ → State env → Result (Unit {0}) → State env → Type 0
  PollsOnly now id s r s' =
      Shown now r (TagStore.get s.store id) (TagStore.get s'.store id)
      × ((j : ℕ)
          → TagStore.get s'.store j
            ≡ (if id == j then TagStore.get s'.store id else TagStore.get s.store j))
      × (s'.write_queues ≡ s.write_queues)

  get-publish_self :
      (s : State env) (id : ℕ) (v : TagValue (Scalar fl))
      → TagStore.get (TagStore.publish s.store id v) id ≡ some v
  unfolding TagStore.publish TagStore.get
  get-publish_self s id v = ground (arith, lookup-insert id id v s.store.values)

  get-publish_other :
      (s : State env) (id j : ℕ) (v : TagValue (Scalar fl))
      → TagStore.get (TagStore.publish s.store id v) j ≡ (
          if id == j
          then TagStore.get (TagStore.publish s.store id v) id
          else TagStore.get s.store j)
  unfolding TagStore.publish TagStore.get
  get-publish_other s id j v =
      ground (arith, lookup-insert id j v s.store.values, lookup-insert id id v s.store.values)

  faulty :
      (s : State env) (id : ℕ) (now : ℤ) (why : QualityReason) (e : Error)
      → s.has_tag_store ≡ true
      → PollsOnly now id s (Result.err e) (publish_quality s id bad why now none)
  unfolding publish_quality
  faulty s id now why e h =
      let v = with_quality ScalarValue.monostate (TagStore.get s.store id) bad why now in
      (
        (v, rw h (get-publish_self s id v), IsBadAt-with_quality (TagStore.get s.store id) why now),
        (λ j. rw h (get-publish_other s id j v)),
        refl,
      )

  finish_decoded_lem :
      (s : State env) (id : ℕ) (now : ℤ) (r : Result (Scalar fl))
      → s.has_tag_store ≡ true
      → PollsOnly now id s (finish_decoded env s id now r).0 (finish_decoded env s id now r).1
  unfolding finish_decoded
  finish_decoded_lem s id now (Result.err e) h = faulty s id now QualityReason.decoding_error e h
  finish_decoded_lem s id now (Result.ok v) h = (
    (good_value env now v, get-publish_self s id (good_value env now v), (refl, refl, refl, refl)),
    (λ j. get-publish_other s id j (good_value env now v)),
    refl,
  )

  finish_reading_lem :
      (s : State env) (b : TagBinding fl.F64) (now : ℤ) (r : Reading)
      → s.has_tag_store ≡ true
      → PollsOnly now b.id s (finish_reading env s b now r).0 (finish_reading env s b now r).1
  unfolding finish_reading
  finish_reading_lem s b now (bits_failed e) h =
      faulty s b.id now QualityReason.no_communication (transport_error e) h
  finish_reading_lem s b now (registers (Result.err e)) h =
      faulty s b.id now (reason_for e.code) (transport_error e) h
  finish_reading_lem s b now (registers (Result.ok regs)) h =
      finish_decoded_lem s b.id now (decode_regs env b.tag regs) h

  -- The state after the read and its metric, and what was read.
  unfoldable pub after_read : State env → TagBinding fl.F64 → ℕ → State env × Reading
  after_read s b t =
      let qty = to_unsigned (regs_for b.tag) 0x10000 in
      let addr = to_unsigned b.tag.address 0x10000 in
      let (t0, w0) = ports.now_ms s.world in
      let (reading, w1) = read_area env b.tag.area t b.unit_id addr qty w0 in
      (observe_rtt env (record s { world = w1 }) t0, reading)

  poll_tag-finish_reading :
      (s : State env) (b : TagBinding fl.F64) (t : ℕ) (now : ℤ)
      → s.has_tag_store ≡ true
      → s.has_clock ≡ true
      → poll_tag env s b t now ≡ finish_reading env (after_read s b t).0 b now (after_read s b t).1
  unfolding poll_tag after_read
  poll_tag-finish_reading s b t now h c = simp (h, c)

  -- What was read, with an error of reading bits as one of reading registers.
  abbrev pub regs_read : Reading → Result (List ℕ)
  regs_read (registers r) = r
  regs_read (bits_failed e) = Result.err e

  finish_regs-of_bits :
      (s : State env) (b : TagBinding fl.F64) (now t0 : ℤ) (out : Result (List Bool) × W)
      → finish_regs env s b now t0 (regs_of env out)
        ≡ store_regs env
            (observe_rtt env (record s { world = out.1 }) t0)
            b
            now
            (regs_read (of_bits out.0))
  unfolding finish_regs observe_rtt
  finish_regs-of_bits s b now t0 (Result.err e, w) = refl
  finish_regs-of_bits s b now t0 (Result.ok bs, w) = refl

  async_read-read_area :
      (a : Area) (s : State env) (b : TagBinding fl.F64) (t addr qty : ℕ) (now t0 : ℤ) (w : W)
      → let (reading, w1) = read_area env a t b.unit_id addr qty w in
        async_read env a t b.unit_id addr qty w (finish_regs env s b now t0)
        ≡ store_regs env (observe_rtt env (record s { world = w1 }) t0) b now (regs_read reading)
  unfolding async_read read_area finish_regs observe_rtt
  async_read-read_area Area.holding s b t addr qty now t0 w = refl
  async_read-read_area Area.input s b t addr qty now t0 w = refl
  async_read-read_area Area.coil s b t addr qty now t0 w =
      finish_regs-of_bits s b now t0 (ports.read_coils t b.unit_id addr qty w)
  async_read-read_area Area.discrete s b t addr qty now t0 w =
      finish_regs-of_bits s b now t0 (ports.read_discrete_inputs t b.unit_id addr qty w)

  poll_tag_async-store_regs :
      (s : State env) (b : TagBinding fl.F64) (t : ℕ) (now : ℤ)
      → s.has_tag_store ≡ true
      → s.has_clock ≡ true
      → poll_tag_async env s b t now
        ≡ store_regs env (after_read s b t).0 b now (regs_read (after_read s b t).1)
  unfolding poll_tag_async after_read
  poll_tag_async-store_regs s b t now h c =
      let now0 = ports.now_ms s.world in
      let unset : (not s.has_tag_store || not s.has_clock) ≡ false = simp (h, c) in
      let polled =
        async_read env b.tag.area t b.unit_id (to_unsigned b.tag.address 0x10000)
          (to_unsigned (regs_for b.tag) 0x10000) now0.1 (finish_regs env s b now now0.0) in
      ap
        (λ x.
          if x
          then (Result.err (dispatcher_error ErrorCode.internal "missing tag_store/clock"), s)
          else polled)
        unset
      ∙ async_read-read_area b.tag.area s b t _ _ now _ _

  store_decoded_lem :
      (s : State env) (b : TagBinding fl.F64) (now : ℤ) (r : Result (Scalar fl))
      → s.has_tag_store ≡ true
      → PollsOnly now b.id s (store_decoded env s b now r).0 (store_decoded env s b now r).1
  unfolding store_decoded
  store_decoded_lem s b now (Result.err e) h = faulty s b.id now QualityReason.decoding_error e h
  store_decoded_lem s b now (Result.ok v) h = (
    (
      good_value env now v,
      get-publish_self s b.id (good_value env now v),
      (refl, refl, refl, refl),
    ),
    (λ j. get-publish_other s b.id j (good_value env now v)),
    refl,
  )

  store_regs_lem :
      (s : State env) (b : TagBinding fl.F64) (now : ℤ) (r : Result (List ℕ))
      → s.has_tag_store ≡ true
      → PollsOnly now b.id s (store_regs env s b now r).0 (store_regs env s b now r).1
  unfolding store_regs
  store_regs_lem s b now (Result.err e) h =
      faulty s b.id now (reason_for e.code) (transport_error e) h
  store_regs_lem s b now (Result.ok regs) h =
      store_decoded_lem s b now (decode_regs env b.tag regs) h

  -- With a tag store and a clock, both variants leave the polled tag Good, read at the poll's time
  -- and without a reason, if they return no error, and Bad at that time with the value it had before,
  -- or none, if they return one. No other tag of the store changes, and no queue of writes.
  pub poll_tag_lem :
      (s : State env) (b : TagBinding fl.F64) (t : ℕ) (now : ℤ)
      → s.has_tag_store ≡ true
      → s.has_clock ≡ true
      → PollsOnly now b.id s (poll_tag env s b t now).0 (poll_tag env s b t now).1
        × PollsOnly now b.id s (poll_tag_async env s b t now).0 (poll_tag_async env s b t now).1
  unfolding observe_rtt after_read
  poll_tag_lem s b t now h c = (
    rw (poll_tag-finish_reading s b t now h c)
        (finish_reading_lem (after_read s b t).0 b now (after_read s b t).1 h),
    rw (poll_tag_async-store_regs s b t now h c)
        (store_regs_lem (after_read s b t).0 b now (regs_read (after_read s b t).1) h),
  )

  store_decoded-finish_decoded :
      (s : State env) (b : TagBinding fl.F64) (now : ℤ) (r : Result (Scalar fl))
      → store_decoded env s b now r ≡ finish_decoded env s b.id now r
  unfolding store_decoded finish_decoded
  store_decoded-finish_decoded s b now (Result.err e) = refl
  store_decoded-finish_decoded s b now (Result.ok v) = refl

  store_regs-finish_reading :
      (s : State env) (b : TagBinding fl.F64) (now : ℤ) (r : Result (List ℕ))
      → store_regs env s b now r ≡ finish_reading env s b now (registers r)
  unfolding store_regs finish_reading
  store_regs-finish_reading s b now (Result.err e) = refl
  store_regs-finish_reading s b now (Result.ok regs) =
      store_decoded-finish_decoded s b now (decode_regs env b.tag regs)

  regs_read-read_area :
      (a : Area) (t unit addr qty : ℕ) (w : W)
      → IsRegisterArea a
      → registers (regs_read (read_area env a t unit addr qty w).0)
        ≡ (read_area env a t unit addr qty w).0
  unfolding read_area
  regs_read-read_area Area.holding t unit addr qty w h = refl
  regs_read-read_area Area.input t unit addr qty w h = refl
  regs_read-read_area Area.coil t unit addr qty w h = elim h [ ]
  regs_read-read_area Area.discrete t unit addr qty w h = elim h [ ]

  -- With a tag store and a clock, both variants come to the same result and the same state for a
  -- tag on holding or input registers.
  pub poll_tag_async-poll_tag :
      (s : State env) (b : TagBinding fl.F64) (t : ℕ) (now : ℤ)
      → s.has_tag_store ≡ true
      → s.has_clock ≡ true
      → IsRegisterArea b.tag.area
      → poll_tag_async env s b t now ≡ poll_tag env s b t now
  unfolding after_read
  poll_tag_async-poll_tag s b t now h c a =
      poll_tag_async-store_regs s b t now h c
      ∙ store_regs-finish_reading (after_read s b t).0 b now (regs_read (after_read s b t).1)
      ∙ ap (finish_reading env (after_read s b t).0 b now)
          (regs_read-read_area b.tag.area t b.unit_id _ _ _ a)
      ∙ sym (poll_tag-finish_reading s b t now h c)

  reason_of_bad :
      (s : State env) (b : TagBinding fl.F64) (t : ℕ) (now : ℤ)
      → s.has_tag_store ≡ true
      → (why : QualityReason)
      → Option.map
          (λ v. v.reason)
          (TagStore.get (publish_quality (after_read s b t).0 b.id bad why now none).store b.id)
        ≡ some why
  unfolding publish_quality with_quality observe_rtt after_read
  reason_of_bad s b t now h why = rw h (ap (Option.map (λ v. v.reason)) (get-publish_self s b.id _))

  -- Where reading coils or discrete inputs ends in a timeout, both variants return the same error,
  -- but the tag's reason after poll_tag is NoCommunication and after poll_tag_async it is Timeout.
  pub poll_tag_timeouts :
      (s : State env) (b : TagBinding fl.F64) (t : ℕ) (now : ℤ) (e : Error)
      → s.has_tag_store ≡ true
      → s.has_clock ≡ true
      → (after_read s b t).1 ≡ bits_failed e
      → e.code ≡ ErrorCode.timeout
      → ((poll_tag_async env s b t now).0 ≡ (poll_tag env s b t now).0)
        × (Option.map (λ v. v.reason) (TagStore.get (poll_tag env s b t now).1.store b.id)
            ≡ some QualityReason.no_communication)
        × (Option.map (λ v. v.reason) (TagStore.get (poll_tag_async env s b t now).1.store b.id)
            ≡ some QualityReason.timeout)
  unfolding finish_reading store_regs
  poll_tag_timeouts s b t now e h c r code = (
    rw (poll_tag_async-store_regs s b t now h c, poll_tag-finish_reading s b t now h c, r) refl,
    rw (poll_tag-finish_reading s b t now h c, r)
        (reason_of_bad s b t now h QualityReason.no_communication),
    rw (poll_tag_async-store_regs s b t now h c, r, code)
        (reason_of_bad s b t now h QualityReason.timeout),
  )
