-- ===== src/Dispatcher/Poll.antt =====
-- poll_group and poll_due, and poll_due_async where the transport completes inline: the result is
-- what `done` is called with. The mutex orders calls of several threads; here calls are in order.
use opc_server.Prelude.{
  ℕ, List, [], ◌∷◌, ◌++◌, Option, none, some, Bool, true, false, not, ◌&&◌, String,
}
use opc_server.Prelude.Int.{ℤ, pos, ◌-ℤ◌, ltb_ℤ}
use opc_server.Prelude.Eq.{string_eq}
use opc_server.Prelude.Map.{lookup, insert}
use opc_server.Prelude.Text.{concat}
use opc_server.Domain.{QualityReason, Result, ErrorCode, value_or, is_zero}
use opc_server.Project.{PollGroup, Endpoint}
use opc_server.Platform.{Floats}
use opc_server.Index.{TagBinding, device, endpoint, groups_for_endpoint}
use opc_server.Dispatcher.State.{State, Env, MetricEvent, emit, dispatcher_error, transport_of}
use opc_server.Dispatcher.PollTag.{poll_tag, poll_tag_async}
use opc_server.Dispatcher.Groups.{group_tags, collect_group_tags, mark_endpoint_bad}
use opc_server.Dispatcher.Writes.{flush_writes}

-- The first of two results that is an error.
abbrev pub first_error : Result (Unit {0}) → Result (Unit {0}) → Result (Unit {0})
first_error (Result.err e) r = Result.err e
first_error (Result.ok _) r = r

abbrev pub poll_key : String → String → String
poll_key endpoint_id group_id = concat endpoint_id (concat "|" group_id)

module _ {fl : Floats} (env : Env fl) where
  open env use {ports}

  unfoldable pub poll_all :
      List (TagBinding fl.F64) → State env → ℕ → ℤ → Result (Unit {0}) × State env
  poll_all [] s t now = (Result.ok tt, s)
  poll_all (b ∷ bs) s t now =
      let (r, s1) = poll_tag env s b t now in
      let (r', s2) = poll_all bs s1 t now in (first_error r r', s2)

  unfoldable pub poll_tags :
      State env → ℕ → ℤ → Result (List (TagBinding fl.F64)) → Result (Unit {0}) × State env
  poll_tags s t now (Result.err e) = (Result.err e, s)
  poll_tags s t now (Result.ok bs) = poll_all bs s t now

  unfoldable pub poll_group : State env → PollGroup → ℕ → ℤ → Result (Unit {0}) × State env
  poll_group s group t now = elim (device s.index group.device_id) [
    | none ↦ (Result.err (dispatcher_error ErrorCode.not_found "device missing"), s)
    | some _ ↦ poll_tags s t now (group_tags s.index group)
  ]

  -- Whether the group's period has not passed since its last poll.
  unfoldable pub is_waiting : State env → String → PollGroup → ℤ → Bool
  is_waiting s endpoint_id group now =
      let last = value_or (lookup (poll_key endpoint_id group.id) s.last_poll_ms) (pos 0) in
      not (is_zero last) && ltb_ℤ (now -ℤ last) group.period_ms

  abbrev pub set_polled : State env → String → PollGroup → ℤ → State env
  set_polled s endpoint_id group now = record s {
    last_poll_ms = insert (poll_key endpoint_id group.id) now s.last_poll_ms;
  }

  unfoldable pub count_overrun : Result (Unit {0}) → State env → State env
  count_overrun (Result.err e) s = emit s (MetricEvent.counter_add "modbus_poll_overruns")
  count_overrun (Result.ok _) s = s

  unfoldable pub poll_due_groups :
      List PollGroup → State env → String → ℕ → ℤ → Result (Unit {0}) × State env
  poll_due_groups [] s endpoint_id t now = (Result.ok tt, s)
  poll_due_groups (group ∷ groups) s endpoint_id t now =
      let (r, s1) = poll_group s group t now in
      let s2 = count_overrun r (set_polled s1 endpoint_id group now) in
      let (r', s3) = poll_due_groups groups s2 endpoint_id t now in
      elim (is_waiting s endpoint_id group now) [
        | true ↦ poll_due_groups groups s endpoint_id t now
        | false ↦ (first_error r r', s3)
      ]

  -- What both variants do before they poll: `poll` goes on from a connected transport.
  unfoldable pub connect_with :
      State env
      → String
      → ℕ
      → ℤ
      → (State env → Result (Unit {0}) × State env)
      → Option Endpoint
      → Result (Unit {0}) × State env
  connect_with s endpoint_id t now poll none =
      (Result.err (dispatcher_error ErrorCode.not_found "endpoint missing"), s)
  connect_with s endpoint_id t now poll (some ep) =
      let (conn, w) = ports.connect t (record { host = ep.host; port = ep.port }) s.world in
      let s' = record s { world = w } in
      elim conn [
        | Result.err e ↦
            (Result.err e, mark_endpoint_bad s' endpoint_id QualityReason.no_communication now)
        | Result.ok _ ↦ poll s'
      ]

  unfoldable pub flush_with :
      (State env → Result (Unit {0}) × State env)
      → State env
      → String
      → Result (Unit {0}) × State env
  flush_with poll s endpoint_id =
      let (wr, s') = flush_writes env s endpoint_id in
      elim wr [ Result.err e ↦ (Result.err e, s') | Result.ok _ ↦ poll s' ]

  unfoldable pub poll_due_with :
      (State env → ℕ → Result (Unit {0}) × State env)
      → State env
      → String
      → ℤ
      → Result (Unit {0}) × State env
  poll_due_with poll s endpoint_id now = elim (transport_of s endpoint_id) [
    | none ↦ (Result.err (dispatcher_error ErrorCode.not_found "transport not bound"), s)
    | some t ↦
        let go : State env → Result (Unit {0}) × State env =
          λ s'. flush_with (λ s''. poll s'' t) s' endpoint_id in
        elim (ports.is_connected t s.world) [
          | true ↦ go s
          | false ↦ connect_with s endpoint_id t now go (endpoint s.index endpoint_id)
        ]
  ]

  unfoldable pub poll_due : State env → String → ℤ → Result (Unit {0}) × State env
  poll_due s endpoint_id now =
      poll_due_with
        (λ s' t. poll_due_groups (groups_for_endpoint s'.index endpoint_id) s' endpoint_id t now) s
        endpoint_id now

  -- The tags of all groups that are due, which are marked as polled before the first is read.
  unfoldable pub due_tags :
      List PollGroup → State env → String → ℤ → List (TagBinding fl.F64) × State env
  due_tags [] s endpoint_id now = ([], s)
  due_tags (group ∷ groups) s endpoint_id now =
      let (bs, s1) = due_tags groups (set_polled s endpoint_id group now) endpoint_id now in
      elim (is_waiting s endpoint_id group now) [
        | true ↦ due_tags groups s endpoint_id now
        | false ↦ (collect_group_tags s.index group ++ bs, s1)
      ]

  -- PollChain.
  unfoldable pub poll_chain :
      List (TagBinding fl.F64) → State env → ℕ → ℤ → Result (Unit {0}) × State env
  poll_chain [] s t now = (Result.ok tt, s)
  poll_chain (b ∷ bs) s t now =
      let (r, s1) = poll_tag_async env s b t now in
      let (r', s2) = poll_chain bs s1 t now in (first_error r r', s2)

  unfoldable pub poll_due_async : State env → String → ℤ → Result (Unit {0}) × State env
  poll_due_async s endpoint_id now =
      poll_due_with
        (λ s' t.
          let (bs, s'') = due_tags (groups_for_endpoint s'.index endpoint_id) s' endpoint_id now in
          poll_chain bs s'' t now)
        s endpoint_id now
