-- ===== src/Dispatcher/Tests.antt =====
-- The dispatcher's theorems at the sample project, whose transport answers with zeros or times out.
use mathlib.Core.Option
use opc_server.Prelude.{false, List, ℕ, ◌+◌, ◌≡◌, ◌++◌, refl, [], ◌∷◌, some, true, length, arith}
use opc_server.Prelude.Int.{ℤ, pos, ◌-ℤ◌, to_unsigned}
use opc_server.Prelude.Eq.{string_eq, nat_eq}
use opc_server.Prelude.Map.{lookup, insert}
use opc_server.Domain.{Result, Error, ErrorCode, ScalarValue, QualityReason}
use opc_server.Project.{PollGroup, Priority}
use opc_server.Index.{find_by_name, find_by_id, endpoint, endpoint_from}
use opc_server.TagStore
use opc_server.Samples.{
  ints, bench, started, plant_index, pump, level_binding, pump_binding, no_answer, line,
}
use opc_server.Translator.Codec.{Scalar, encode, encode_as, to_raw}
use opc_server.Translator.Scale.{scalar_to_double}
use opc_server.Translator.Bytes.{translator_error}
use opc_server.Dispatcher.State.{State, transport_of, dispatcher_error}
use opc_server.Dispatcher.PollTag.{poll_tag, poll_tag_async, read_area, bits_failed}
use opc_server.Dispatcher.Writes.{
  Write, queue_of, set_queue, enqueue_write, flush_writes, flush_loop, join_coils, failed, as_bits,
  eq_ℤ,
}
use opc_server.Dispatcher.Groups.{group_tags, named_or_error, collect_group_tags}
use opc_server.Dispatcher.GroupLaws.{collect_group_tags-group_tags}
use opc_server.Dispatcher.Poll.{poll_due, poll_due_async, poll_due_groups, due_tags, is_waiting}
use opc_server.Dispatcher.PollLaws.{poll_due_groups-is_waiting}
use opc_server.Dispatcher.PollTagLaws.{
  PollsOnly, poll_tag_lem, poll_tag_async-poll_tag, poll_tag_timeouts, after_read,
}
use opc_server.Dispatcher.WriteLaws.{
  IsBounded, Enqueues, enqueue_write_lem, enqueue_write-IsBounded,
}
use opc_server.Dispatcher.FlushLaws.{
  Kept, flush_loop-length, flush_writes_lem, flush_writes-transport_of_none,
}
use opc_server.Dispatcher.FlushLosses.{flush_loop-join_coils_failed}
use opc_server.Dispatcher.EndpointLaws.{Marks, is_marked, poll_due-mark_endpoint_bad}

abbrev noon : ℤ
noon = pos 43200000

poll_tag_lem_example :
    PollsOnly bench noon 1 started
      (poll_tag bench started level_binding 7 noon).0
      (poll_tag bench started level_binding 7 noon).1
    × PollsOnly bench noon 1 started
        (poll_tag_async bench started level_binding 7 noon).0
        (poll_tag_async bench started level_binding 7 noon).1
poll_tag_lem_example = poll_tag_lem bench started level_binding 7 noon refl refl

poll_tag_async-poll_tag_example :
    poll_tag_async bench started level_binding 7 noon ≡ poll_tag bench started level_binding 7 noon
poll_tag_async-poll_tag_example =
    poll_tag_async-poll_tag bench started level_binding 7 noon refl refl tt

pump_timeout : (after_read bench started pump_binding 7).1 ≡ bits_failed no_answer
unfolding after_read read_area
pump_timeout = refl

poll_tag_timeouts_example :
    ((poll_tag_async bench started pump_binding 7 noon).0
      ≡ (poll_tag bench started pump_binding 7 noon).0)
    × (Option.map
          (λ v. v.reason)
          (TagStore.get (poll_tag bench started pump_binding 7 noon).1.store 2)
        ≡ some QualityReason.no_communication)
    × (Option.map
          (λ v. v.reason)
          (TagStore.get (poll_tag_async bench started pump_binding 7 noon).1.store 2)
        ≡ some QualityReason.timeout)
poll_tag_timeouts_example =
    poll_tag_timeouts bench started pump_binding 7 noon no_answer refl refl pump_timeout refl

abbrev level_42 : Scalar ints
level_42 = ScalarValue.uint16 42

enqueue_write_lem_example :
    Enqueues bench started 1 level_42
      (enqueue_write bench started 1 level_42).0
      (enqueue_write bench started 1 level_42).1
enqueue_write_lem_example = enqueue_write_lem bench started 1 level_42

started-IsBounded : IsBounded bench started
unfolding lookup
started-IsBounded ep = omega arith

enqueue_write-IsBounded_example : IsBounded bench (enqueue_write bench started 1 level_42).1
enqueue_write-IsBounded_example = enqueue_write-IsBounded bench started 1 level_42 started-IsBounded

abbrev pump_on : Write bench
pump_on = record { tag_id = 2; value = ScalarValue.bool true }

-- A value that has no encoding.
abbrev valve_unset : Write bench
valve_unset = record { tag_id = 3; value = ScalarValue.monostate }

abbrev queued : State bench
queued = set_queue bench started "line" (pump_on ∷ valve_unset ∷ [])

flush_writes_lem_example :
    Kept bench
      (queue_of bench queued "line")
      (flush_writes bench queued "line").0
      (queue_of bench (flush_writes bench queued "line").1 "line")
flush_writes_lem_example = flush_writes_lem bench queued "line"

-- The transport of the line is not bound.
abbrev unbound : State bench
unbound = record queued { transports = [] }

abbrev unbound_flushed : Result (Unit {0}) × State bench
unbound_flushed = flush_writes bench unbound "line"

flush_writes-transport_of_none_example :
    (unbound_flushed.0 ≡ Result.err (dispatcher_error ErrorCode.not_found "transport not bound"))
    × (unbound_flushed.1.world ≡ 0)
    × (queue_of bench unbound_flushed.1 "line" ≡ pump_on ∷ valve_unset ∷ [])
unfolding lookup insert
flush_writes-transport_of_none_example = flush_writes-transport_of_none bench unbound "line" refl

flush_loop-length_example :
    flush_loop bench 9 started "line" 7 noon (pump_on ∷ valve_unset ∷ [])
    ≡ flush_loop bench 2 started "line" 7 noon (pump_on ∷ valve_unset ∷ [])
flush_loop-length_example =
    flush_loop-length bench 9 started "line" 7 noon (pump_on ∷ valve_unset ∷ []) (omega arith)

abbrev no_value : Error
no_value = translator_error ErrorCode.invalid_argument "empty value"

pump_found : find_by_id plant_index 2 ≡ some pump_binding
unfolding find_by_id lookup
pump_found = refl

pump_encodes : encode ints pump pump_on.value ≡ Result.ok (1 ∷ [])
unfolding encode encode_as
pump_encodes = refl

valve_fails :
    join_coils bench plant_index pump_binding.unit_id
      (pos (to_unsigned (pos 5) 0x10000 + length (as_bits bench (1 ∷ []))))
      (as_bits bench (1 ∷ []))
      (pump_on ∷ [])
      (valve_unset ∷ [])
    ≡ failed valve_unset no_value []
unfolding join_coils find_by_id lookup encode encode_as to_raw scalar_to_double to_unsigned eq_ℤ
valve_fails = refl

abbrev flushed : Result (Unit {0}) × State bench
flushed = flush_loop bench 2 started "line" 7 noon (pump_on ∷ valve_unset ∷ [])

flush_loop-join_coils_failed_example :
    (flushed.0 ≡ Result.err no_value)
    × (flushed.1.world ≡ 0)
    × ((taken : List (Write bench)) × ((valve_unset ∷ []) ≡ taken ++ valve_unset ∷ [])
        × (queue_of bench flushed.1 "line" ≡ [] ++ queue_of bench started "line"))
flush_loop-join_coils_failed_example =
    flush_loop-join_coils_failed bench 1 started "line" 7 noon pump_on valve_unset
      (valve_unset ∷ []) [] pump_binding (1 ∷ []) no_value pump_found refl pump_encodes valve_fails

line_found : endpoint plant_index "line" ≡ some line
unfolding endpoint endpoint_from
line_found = refl

line_bound : transport_of started "line" ≡ some 7
unfolding lookup
line_bound = refl

poll_due-mark_endpoint_bad_example :
    (poll_due_async bench started "line" noon ≡ poll_due bench started "line" noon)
    × ((poll_due bench started "line" noon).0 ≡ Result.err no_answer)
    × ((j : ℕ)
        → Marks QualityReason.no_communication
            (is_marked plant_index.tags "line" j)
            (TagStore.get started.store j)
            (TagStore.get (poll_due bench started "line" noon).1.store j))
    × ((poll_due bench started "line" noon).1.write_queues ≡ started.write_queues)
    × ((poll_due bench started "line" noon).1.last_poll_ms ≡ started.last_poll_ms)
poll_due-mark_endpoint_bad_example =
    poll_due-mark_endpoint_bad bench started "line" noon 7 line no_answer 0 refl line_bound refl
      line_found refl

abbrev fast_group : PollGroup
fast_group = record {
  id = "fast";
  period_ms = pos 100;
  priority = Priority.fast;
  device_id = "plc";
  blocks = [];
  tag_names = "level" ∷ [];
}

fast_group_tags : group_tags plant_index fast_group ≡ Result.ok (level_binding ∷ [])
unfolding group_tags named_or_error find_by_name lookup
fast_group_tags = refl

collect_group_tags-group_tags_example :
    collect_group_tags plant_index fast_group ≡ level_binding ∷ []
collect_group_tags-group_tags_example =
    collect_group_tags-group_tags plant_index fast_group (level_binding ∷ []) fast_group_tags

abbrev polled : State bench
polled = (poll_due_groups bench (fast_group ∷ []) started "line" 7 noon).1

abbrev listed : State bench
listed = (due_tags bench (fast_group ∷ []) started "line" noon).1

fast_due : is_waiting bench started "line" fast_group noon ≡ false
unfolding is_waiting lookup
fast_due = refl

poll_due_groups-is_waiting_example :
    (poll_due_groups bench (fast_group ∷ []) polled "line" 7 (pos 43200099)
      ≡ poll_due_groups bench [] polled "line" 7 (pos 43200099))
    × (due_tags bench (fast_group ∷ []) listed "line" (pos 43200099)
        ≡ due_tags bench [] listed "line" (pos 43200099))
unfolding ◌-ℤ◌
poll_due_groups-is_waiting_example =
    poll_due_groups-is_waiting bench [] [] [] started "line" fast_group 7 noon (pos 43200099)
      fast_due refl refl
