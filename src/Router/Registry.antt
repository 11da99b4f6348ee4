-- ===== src/Router/Registry.antt =====
-- What one registration in knet/msgHandler.go and knet/routerSlices.go changes.
use kinz.Base.{
  ℕ, ◌≤◌, ◌<◌, ◌≡◌, ◌≢◌, ◌↔◌, ◌⊎◌, inl, inr, refl, ap, ◌∙◌, List, [], ◌∷◌, ◌++◌, Option, none, some,
  ◌==◌, if◌then◌else◌, arith, Option-cases, append_assoc,
}
use kinz.Base.Maps.{lookup, lookup-insert}
use kinz.Router.{
  GroupRange, Routes, outside_range, add_slices, get_handlers, group_use, extend_first,
  group_add_handler, group_handlers, assemble, chain,
}

module _ {H : Type 0} where
  abbrev pub or_else : Option (List H) → List H → List H
  or_else (some old) new = old
  or_else none new = new

  -- The first registration of a message id wins: `addSlices` fails exactly if the id is registered,
  -- afterwards the id has its old handlers if there were any and the new ones otherwise, and
  -- neither other ids nor the middleware change.
  pub add_slices_lem :
      (mh : Routes H) (id : ℕ) (handlers : List H)
      → let (mh', error) = add_slices mh id handlers in
        ((error ≡ none) ↔ (get_handlers mh id ≡ none))
        × ((j : ℕ)
            → get_handlers mh' j ≡ (
                if id == j
                then some (or_else (get_handlers mh id) handlers)
                else get_handlers mh j))
        × (mh'.group_ranges ≡ mh.group_ranges)
        × (mh'.global_handlers ≡ mh.global_handlers)
  unfolding add_slices get_handlers
  add_slices_lem mh id handlers = elim (Option-cases (lookup id mh.apis)) [
    | inl e ↦
        rw (e, add_slices)
          ((λ _. refl, λ _. refl), λ j. lookup-insert id j handlers mh.apis, refl, refl)
    | inr (old, e) ↦ rw (e, add_slices) ((λ p. cc, λ p. cc), λ j. ground (arith, e), refl, refl)
  ]

  -- A group's `AddHandler` refuses exactly the ids outside its range, with the routes unchanged; an
  -- id inside is registered as without the group.
  pub group_add_handler_lem :
      (mh : Routes H) (start end id : ℕ) (handlers : List H)
      → ((start ≤ id)
          × (id ≤ end)
          × (group_add_handler mh start end id handlers ≡ add_slices mh id handlers))
        ⊎ (((id < start) ⊎ (end < id))
            × (group_add_handler mh start end id handlers
                ≡ (mh, some (outside_range id start end))))
  unfolding group_add_handler
  group_add_handler_lem mh start end id handlers = ground arith

  extend_first_outside :
      (start end id : ℕ) (handlers : List H) (gs : List (GroupRange H))
      → (id < start) ⊎ (end < id)
      → group_handlers id (extend_first start end handlers gs) ≡ group_handlers id gs
  unfolding extend_first group_handlers
  extend_first_outside start end id handlers [] out = refl
  extend_first_outside start end id handlers (g ∷ gs) out =
      ground (arith, extend_first_outside start end id handlers gs out)

  -- The middleware of the ranges before a group's own stands in front of what its `Use` adds.
  abbrev pub Foreign : ℕ → ℕ → List (GroupRange H) → Type 0
  Foreign start end [] = Unit {0}
  Foreign start end (g ∷ gs) = ((g.start ≢ start) ⊎ (g.end ≢ end)) × Foreign start end gs

  extend_first_inside :
      (start end id : ℕ) (handlers : List H) (gs ks : List (GroupRange H)) (g : GroupRange H)
      → Foreign start end gs
      → g.start ≡ start
      → g.end ≡ end
      → start ≤ id
      → id ≤ end
      → group_handlers id (extend_first start end handlers (gs ++ (g ∷ ks)))
        ≡ group_handlers id gs ++ (g.handlers ++ (handlers ++ group_handlers id ks))
  unfolding extend_first group_handlers
  extend_first_inside start end id handlers [] ks g f es ee lo hi =
      ground (arith, append_assoc g.handlers handlers (group_handlers id ks))
  extend_first_inside start end id handlers (k ∷ gs) ks g f es ee lo hi = ground (
    arith,
    extend_first_inside start end id handlers gs ks g f.1 es ee lo hi,
    append_assoc k.handlers (group_handlers id gs)
        (g.handlers ++ (handlers ++ group_handlers id ks)),
  )

  -- `Use` of a group puts its middleware into the chain of every id in the range, behind what the
  -- group has and in front of that of later groups.
  pub group_handlers-group_use :
      (mh : Routes H) (start end id : ℕ) (new : List H) (gs ks : List (GroupRange H))
      (g : GroupRange H)
      → mh.group_ranges ≡ gs ++ (g ∷ ks)
      → Foreign start end gs
      → g.start ≡ start
      → g.end ≡ end
      → start ≤ id
      → id ≤ end
      → group_handlers id (group_use mh start end new).group_ranges
        ≡ group_handlers id gs ++ (g.handlers ++ (new ++ group_handlers id ks))
  unfolding group_use
  group_handlers-group_use mh start end id new gs ks g e f es ee lo hi =
      ap (λ (r : List (GroupRange H)). group_handlers id (extend_first start end new r)) e
      ∙ extend_first_inside start end id new gs ks g f es ee lo hi

  -- `Use` of a group leaves the chain of every id outside its range alone.
  pub chain-group_use_outside :
      (mh : Routes H) (start end id : ℕ) (new : List H)
      → (id < start) ⊎ (end < id)
      → chain (group_use mh start end new) id ≡ chain mh id
  unfolding group_use chain
  chain-group_use_outside mh start end id new out =
      ap (assemble (lookup id mh.apis) mh.global_handlers)
        (extend_first_outside start end id new mh.group_ranges out)
