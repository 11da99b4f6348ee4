-- ===== src/Router/History.antt =====
-- The chains of knet/msgHandler.go as a function of everything that was registered before.
use kinz.Base.{
  ℕ, ◌≡◌, refl, ap, ap₂, sym, ◌∙◌, List, [], ◌∷◌, ◌++◌, Option, none, some, arith, append_assoc,
  append-nil,
}
use kinz.Base.Maps.{lookup, lookup-insert}
use kinz.Router.{
  Routes, new_routes, group_use, add_slices, group, use_global, group_handlers, assemble, chain,
}
use kinz.Router.Registrations.{
  Registration, route, middleware, range, range_use, register, register_all, all_middleware,
  all_ranges, first_route, specified,
}
use kinz.Router.Ranges.{group-register_all}

module _ {H : Type 0} where
  abbrev or_first : Option (List H) → Option (List H) → Option (List H)
  or_first (some hs) o = some hs
  or_first none o = o

  register-global :
      (mh : Routes H) (r : Registration H) (rs : List (Registration H))
      → (register mh r).global_handlers ++ all_middleware rs
        ≡ mh.global_handlers ++ all_middleware (r ∷ rs)
  unfolding register add_slices use_global group group_use
  register-global mh (route id hs) rs = ground arith
  register-global mh (middleware []) rs = refl
  register-global mh (middleware (h ∷ hs)) rs =
      ground (arith, append_assoc mh.global_handlers (h ∷ hs) (all_middleware rs))
  register-global mh (range start end hs) rs = ground arith
  register-global mh (range_use start end hs) rs = refl

  global-register_all :
      (mh : Routes H) (rs : List (Registration H))
      → (register_all mh rs).global_handlers ≡ mh.global_handlers ++ all_middleware rs
  unfolding register_all
  global-register_all mh [] = sym (append-nil mh.global_handlers)
  global-register_all mh (r ∷ rs) = global-register_all (register mh r) rs ∙ register-global mh r rs

  register-route :
      (mh : Routes H) (id : ℕ) (r : Registration H) (rs : List (Registration H))
      → or_first (lookup id (register mh r).apis) (first_route id rs)
        ≡ or_first (lookup id mh.apis) (first_route id (r ∷ rs))
  unfolding register add_slices use_global group group_use
  register-route mh id (route j hs) rs = ground (arith, lookup-insert j id hs mh.apis)
  register-route mh id (middleware hs) rs = ground arith
  register-route mh id (range start end hs) rs = ground arith
  register-route mh id (range_use start end hs) rs = refl

  apis-register_all :
      (mh : Routes H) (id : ℕ) (rs : List (Registration H))
      → lookup id (register_all mh rs).apis ≡ or_first (lookup id mh.apis) (first_route id rs)
  unfolding register_all
  apis-register_all mh id [] = or_first_none (lookup id mh.apis)
    where
      or_first_none : (o : Option (List H)) → o ≡ or_first o none
      or_first_none (some hs) = refl
      or_first_none none = refl
  apis-register_all mh id (r ∷ rs) =
      apis-register_all (register mh r) id rs ∙ register-route mh id r rs

  assemble-specified :
      (id : ℕ) (rs : List (Registration H))
      → assemble (first_route id rs) (all_middleware rs) (all_ranges id rs) ≡ specified id rs
  unfolding assemble
  assemble-specified id rs = ground arith

  -- For any calls of AddRouterSlices, Use and Group, and of Use on groups, in any order and whether or
  -- not each succeeds: the chain of an id is the global middleware, in the order of registration, then
  -- for each group whose range holds the id, in the order of the Group calls, its middleware and, if it
  -- is the first group with this range, what Use on the range adds later, then the route that was
  -- registered first; and there is no chain exactly if all three are missing.
  pub chain-register_all :
      (rs : List (Registration H)) (id : ℕ)
      → chain (register_all new_routes rs) id ≡ specified id rs
  unfolding chain new_routes
  chain-register_all rs id =
      ap₂
        (λ (o : Option (List H)) (g : List H).
          assemble o g (group_handlers id (register_all new_routes rs).group_ranges))
        (apis-register_all new_routes id rs) (global-register_all new_routes rs)
      ∙ ap (assemble (first_route id rs) (all_middleware rs)) (group-register_all new_routes id rs)
      ∙ assemble-specified id rs
