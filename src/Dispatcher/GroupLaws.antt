-- ===== src/Dispatcher/GroupLaws.antt =====
-- The tags of a poll group, as poll_group and poll_due_async list them.
use opc_server.Prelude.{
  ◌≡◌, refl, ap, ◌∙◌, List, [], ◌∷◌, Option, none, some, Bool, true, false, String, arith,
  if◌then◌else◌,
}
use opc_server.Prelude.Text.{concat}
use opc_server.Domain.{Result, ◌>>=◌, ErrorCode}
use opc_server.Project.{PollGroup}
use opc_server.Index.{RuntimeIndex, TagBinding, find_by_name}
use opc_server.Dispatcher.State.{dispatcher_error}
use opc_server.Dispatcher.Groups.{
  is_empty, named_or_error, named, unnamed, group_tags, collect_group_tags,
}

module _ {F64 : Type 0} where
  -- What a list of bindings is, if the result is no error.
  abbrev Lists : List (TagBinding F64) → Result (List (TagBinding F64)) → Type 0
  Lists found (Result.ok bs) = found ≡ bs
  Lists found (Result.err e) = Unit

  Lists-cons :
      (b : TagBinding F64) (found : List (TagBinding F64)) (r : Result (List (TagBinding F64)))
      → Lists found r
      → Lists (b ∷ found) (r >>= λ bs. Result.ok (b ∷ bs))
  Lists-cons b found (Result.ok bs) h = ap (λ xs. b ∷ xs) h
  Lists-cons b found (Result.err e) h = tt

  named-Lists :
      (index : RuntimeIndex F64) (names : List String)
      → Lists (named index names) (named_or_error index names)
  unfolding named named_or_error
  named-Lists index [] = refl
  named-Lists index (name ∷ names) =
      let ih = named-Lists index names in
      elim (find_by_name index name)
        as (λ o.
          Lists (elim o [ none ↦ named index names | some b ↦ b ∷ named index names ])
            (at_found o)) [
              | none ↦ tt
              | some b ↦ Lists-cons b (named index names) (named_or_error index names) ih
            ]
    where
      at_found : Option (TagBinding F64) → Result (List (TagBinding F64))
      at_found o = elim o [
        | none ↦ Result.err (dispatcher_error ErrorCode.not_found (concat "tag not found: " name))
        | some b ↦ named_or_error index names >>= λ bs. Result.ok (b ∷ bs)
      ]

  -- Where listing a group's tags as poll_group does returns no error, poll_due_async polls the same
  -- tags in the same order.
  pub collect_group_tags-group_tags :
      (index : RuntimeIndex F64) (group : PollGroup) (bs : List (TagBinding F64))
      → group_tags index group ≡ Result.ok bs
      → collect_group_tags index group ≡ bs
  unfolding group_tags collect_group_tags
  collect_group_tags-group_tags index group bs h = go (is_empty group.tag_names) h
    where
      list :
          (r : Result (List (TagBinding F64)))
          → Lists (named index group.tag_names) r
          → r ≡ Result.ok bs
          → named index group.tag_names ≡ bs
      list (Result.ok bs') h e = h ∙ ground arith
      list (Result.err e') h e = ground arith

      go :
          (c : Bool)
          → (if c then Result.ok (unnamed index group) else named_or_error index group.tag_names)
            ≡ Result.ok bs
          → (if c then unnamed index group else named index group.tag_names) ≡ bs
      go true e = ground arith
      go false e = list (named_or_error index group.tag_names) (named-Lists index group.tag_names) e
