-- ===== src/Router/Registrations.antt =====
-- Sequences of registrations with knet/msgHandler.go and knet/routerSlices.go, and the chain that is
-- specified for them.
use kinz.Base.{
  Bool, false, ◌||◌, ltb, ℕ, ◌&&◌, List, [], ◌∷◌, ◌++◌, Option, none, some, ◌==◌, if◌then◌else◌,
  leb, length,
}
use kinz.Router.{Routes, group_use, add_slices, group, use_global}

pub data Registration (H : Type 0) : Type 0 where
  route : ℕ → List H → Registration H
  middleware : List H → Registration H
  range : ℕ → ℕ → List H → Registration H
  -- `Use` on the handle of a group.
  range_use : ℕ → ℕ → List H → Registration H

abbrev pub is_seen : ℕ → ℕ → List (ℕ × ℕ) → Bool
is_seen start end [] = false
is_seen start end ((s, e) ∷ seen) = (s == start && e == end) || is_seen start end seen

module _ {H : Type 0} where
  -- A call that fails leaves the routes as they were.
  unfoldable pub register : Routes H → Registration H → Routes H
  register mh (route id handlers) = (add_slices mh id handlers).0
  register mh (middleware handlers) = use_global mh handlers
  register mh (range start end handlers) = (group mh start end handlers).0
  register mh (range_use start end handlers) = group_use mh start end handlers

  unfoldable pub register_all : Routes H → List (Registration H) → Routes H
  unfolding register
  register_all mh [] = mh
  register_all mh (r ∷ rs) = register_all (register mh r) rs

  -- The specification: all global middleware in the order of registration, then the middleware of
  -- every range that holds the id, range by range in the order of the Group calls, then the route that
  -- was registered first.
  abbrev pub all_middleware : List (Registration H) → List H
  all_middleware [] = []
  all_middleware (route _ _ ∷ rs) = all_middleware rs
  all_middleware (middleware hs ∷ rs) = hs ++ all_middleware rs
  all_middleware (range _ _ _ ∷ rs) = all_middleware rs
  all_middleware (range_use _ _ _ ∷ rs) = all_middleware rs

  -- What is still to be added to the first group with these ends.
  abbrev pub later_uses : ℕ → ℕ → List (Registration H) → List H
  later_uses start end [] = []
  later_uses start end (route _ _ ∷ rs) = later_uses start end rs
  later_uses start end (middleware _ ∷ rs) = later_uses start end rs
  later_uses start end (range _ _ _ ∷ rs) = later_uses start end rs
  later_uses start end (range_use s e hs ∷ rs) =
      (if s == start && e == end then hs else []) ++ later_uses start end rs

  -- The middleware of a group, if it holds the id; what `Use` adds later goes to the first group with
  -- its ends.
  abbrev pub group_part : ℕ → List (ℕ × ℕ) → ℕ → ℕ → List H → List (Registration H) → List H
  group_part id seen start end hs rs =
      if leb start id && leb id end
      then hs ++ (if is_seen start end seen then [] else later_uses start end rs)
      else []

  abbrev pub ranges_from : ℕ → List (ℕ × ℕ) → List (Registration H) → List H
  ranges_from id seen [] = []
  ranges_from id seen (route _ _ ∷ rs) = ranges_from id seen rs
  ranges_from id seen (middleware _ ∷ rs) = ranges_from id seen rs
  ranges_from id seen (range_use _ _ _ ∷ rs) = ranges_from id seen rs
  ranges_from id seen (range start end hs ∷ rs) =
      let failed = ranges_from id seen rs in
      let added = ranges_from id ((start, end) ∷ seen) rs in
      if ltb end start then failed else group_part id seen start end hs rs ++ added

  abbrev pub all_ranges : ℕ → List (Registration H) → List H
  all_ranges id rs = ranges_from id [] rs

  abbrev pub first_route : ℕ → List (Registration H) → Option (List H)
  first_route id [] = none
  first_route id (route j hs ∷ rs) = if j == id then some hs else first_route id rs
  first_route id (middleware _ ∷ rs) = first_route id rs
  first_route id (range _ _ _ ∷ rs) = first_route id rs
  first_route id (range_use _ _ _ ∷ rs) = first_route id rs

  -- What `Execute` runs for an id.
  abbrev pub specified : ℕ → List (Registration H) → Option (List H)
  specified id rs = elim (first_route id rs) [
    | some handlers ↦ some ((all_middleware rs ++ all_ranges id rs) ++ handlers)
    | none ↦
        if length (all_middleware rs) == 0 && length (all_ranges id rs) == 0
        then none
        else some ((all_middleware rs ++ all_ranges id rs) ++ [])
  ]
