-- ===== src/Dispatcher/Groups.antt =====
-- Which bindings a poll group covers (the lists of poll_group and collect_group_tags), and
-- mark_endpoint_bad.
use opc_server.Prelude.{
  List, [], ◌∷◌, none, some, Bool, true, false, not, ◌&&◌, ◌||◌, if◌then◌else◌, String,
}
use opc_server.Prelude.Int.{ℤ, ltb_ℤ, ◌+ℤ◌}
use opc_server.Prelude.Eq.{◌=?◌, string_eq}
use opc_server.Prelude.Text.{concat}
use opc_server.Domain.{bad, QualityReason, Result, ErrorCode, ◌>>=◌}
use opc_server.Project.{Area, PollGroup, RegisterBlock}
use opc_server.Platform.{Floats}
use opc_server.Index.{RuntimeIndex, TagBinding, find_by_name}
use opc_server.Dispatcher.State.{Dispatcher, publish_quality, dispatcher_error}
use opc_server.Dispatcher.PollTag.{regs_for}

abbrev pub same_area : Area → Area → Bool
same_area Area.holding Area.holding = true
same_area Area.input Area.input = true
same_area Area.coil Area.coil = true
same_area Area.discrete Area.discrete = true
same_area _ _ = false

abbrev pub is_empty : {A : Type 0} → List A → Bool
is_empty [] = true
is_empty _ = false

module _ {F64 : Type 0} where
  -- poll_group: the first name that is not found ends it.
  unfoldable pub named_or_error : RuntimeIndex F64 → List String → Result (List (TagBinding F64))
  named_or_error index [] = Result.ok []
  named_or_error index (name ∷ names) = elim (find_by_name index name) [
    | none ↦ Result.err (dispatcher_error ErrorCode.not_found (concat "tag not found: " name))
    | some b ↦ named_or_error index names >>= λ bs. Result.ok (b ∷ bs)
  ]

  -- collect_group_tags: a name that is not found is passed over.
  unfoldable pub named : RuntimeIndex F64 → List String → List (TagBinding F64)
  named index [] = []
  named index (name ∷ names) =
      let rest = named index names in
      elim (find_by_name index name) [ none ↦ rest | some b ↦ b ∷ rest ]

  unfoldable pub of_group : PollGroup → List (TagBinding F64) → List (TagBinding F64)
  of_group group [] = []
  of_group group (b ∷ bs) =
      let rest = of_group group bs in
      if b.device_id =? group.device_id && (b.tag.group =? "" || b.tag.group =? group.id)
      then b ∷ rest
      else rest

  -- Whether some block covers the registers of the binding.
  unfoldable pub in_blocks : TagBinding F64 → List RegisterBlock → Bool
  in_blocks b [] = false
  in_blocks b (block ∷ blocks) =
      (same_area b.tag.area block.area
        && not (ltb_ℤ b.tag.address block.start)
        && not (ltb_ℤ (block.start +ℤ block.count) (b.tag.address +ℤ regs_for b.tag)))
      || in_blocks b blocks

  unfoldable pub of_blocks : PollGroup → List (TagBinding F64) → List (TagBinding F64)
  of_blocks group [] = []
  of_blocks group (b ∷ bs) =
      let rest = of_blocks group bs in
      if b.device_id =? group.device_id && in_blocks b group.blocks then b ∷ rest else rest

  -- The part that both functions share, where no names are listed.
  unfoldable pub unnamed : RuntimeIndex F64 → PollGroup → List (TagBinding F64)
  unnamed index group =
      let found = of_group group index.tags in
      if is_empty found && not (is_empty group.blocks) then of_blocks group index.tags else found

  unfoldable pub group_tags : RuntimeIndex F64 → PollGroup → Result (List (TagBinding F64))
  group_tags index group =
      if is_empty group.tag_names
      then Result.ok (unnamed index group)
      else named_or_error index group.tag_names

  unfoldable pub collect_group_tags : RuntimeIndex F64 → PollGroup → List (TagBinding F64)
  collect_group_tags index group =
      if is_empty group.tag_names then unnamed index group else named index group.tag_names

module _ {fl : Floats} {H W : Type 0} where
  unfoldable pub mark_bindings_bad :
      List (TagBinding fl.F64) → Dispatcher fl H W → String → QualityReason → ℤ → Dispatcher fl H W
  mark_bindings_bad [] s endpoint_id why now = s
  mark_bindings_bad (b ∷ bs) s endpoint_id why now =
      mark_bindings_bad bs
        (if b.endpoint_id =? endpoint_id then publish_quality s b.id bad why now none else s)
        endpoint_id why now

  unfoldable pub mark_endpoint_bad :
      Dispatcher fl H W → String → QualityReason → ℤ → Dispatcher fl H W
  mark_endpoint_bad s endpoint_id why now = mark_bindings_bad s.index.tags s endpoint_id why now
