-- ===== src/Router/Ranges.antt =====
-- The middleware of the ranges in knet/msgHandler.go after a sequence of registrations.
use kinz.Base.{
  subst, Bool, Bool-cases, true, false, ◌||◌, inl, inr, ==_iff, ltb, ℕ, ◌≡◌, refl, ap, ap₂, sym,
  ◌∙◌, ◌&&◌, List, [], ◌∷◌, ◌++◌, ◌==◌, if◌then◌else◌, arith, append_assoc, append-nil, leb,
}
use kinz.Router.{
  GroupRange, Routes, group_use, extend_first, add_slices, group, use_global, group_handlers,
}
use kinz.Router.Registrations.{
  Registration, route, middleware, range, range_use, is_seen, register, register_all, later_uses,
  group_part, ranges_from,
}

seen_same :
    (s e a b : ℕ) (seen : List (ℕ × ℕ))
    → (s == a && e == b) ≡ true
    → is_seen a b seen ≡ is_seen s e seen
seen_same s e a b seen same =
    let p : s ≡ a = ground (arith, same, ==_iff s a) in
    let q : e ≡ b = ground (arith, same, ==_iff e b) in
    sym (ap₂ (λ (i j : ℕ). is_seen i j seen) p q)

seen_more :
    (s e : ℕ) (here_ends : ℕ × ℕ) (seen : List (ℕ × ℕ))
    → is_seen s e seen ≡ true
    → is_seen s e (here_ends ∷ seen) ≡ true
seen_more s e (a, b) seen h = rw h (or_true (a == s && b == e))
  where
    or_true : (x : Bool) → (x || true) ≡ true
    or_true true = refl
    or_true false = refl

module _ {H : Type 0} where
  -- The groups that are there, with what is still to be added to them.
  abbrev extended : ℕ → List (ℕ × ℕ) → List (GroupRange H) → List (Registration H) → List H
  extended id seen [] rs = []
  extended id seen (g ∷ gs) rs =
      group_part id seen g.start g.end g.handlers rs ++ extended id ((g.start, g.end) ∷ seen) gs rs

  abbrev seen_after : List (ℕ × ℕ) → List (GroupRange H) → List (ℕ × ℕ)
  seen_after seen [] = seen
  seen_after seen (g ∷ gs) = seen_after ((g.start, g.end) ∷ seen) gs

  extended_done :
      (id : ℕ) (seen : List (ℕ × ℕ)) (gs : List (GroupRange H))
      → extended id seen gs [] ≡ group_handlers id gs
  unfolding group_handlers
  extended_done id seen [] = refl
  extended_done id seen (g ∷ gs) =
      ground (arith, extended_done id ((g.start, g.end) ∷ seen) gs, append-nil g.handlers)

  extended-append :
      (id : ℕ) (seen : List (ℕ × ℕ)) (gs : List (GroupRange H)) (g : GroupRange H)
      (rs : List (Registration H))
      → extended id seen (gs ++ (g ∷ [])) rs
        ≡ extended id seen gs rs ++ group_part id (seen_after seen gs) g.start g.end g.handlers rs
  extended-append id seen [] g rs = append-nil (group_part id seen g.start g.end g.handlers rs)
  extended-append id seen (k ∷ gs) g rs =
      let here_part = group_part id seen k.start k.end k.handlers rs in
      ap (◌++◌ here_part) (extended-append id ((k.start, k.end) ∷ seen) gs g rs)
      ∙ sym (append_assoc here_part _ _)

  seen_after-append :
      (seen : List (ℕ × ℕ)) (gs : List (GroupRange H)) (g : GroupRange H)
      → seen_after seen (gs ++ (g ∷ [])) ≡ (g.start, g.end) ∷ seen_after seen gs
  seen_after-append seen [] g = refl
  seen_after-append seen (k ∷ gs) g = seen_after-append ((k.start, k.end) ∷ seen) gs g

  -- Once a group with its ends was there, `Use` adds nothing behind it.
  part_seen :
      (id : ℕ) (seen : List (ℕ × ℕ)) (s e a b : ℕ) (hs ks : List H) (rs : List (Registration H))
      → is_seen s e seen ≡ true
      → group_part id seen a b ks (range_use s e hs ∷ rs) ≡ group_part id seen a b ks rs
  part_seen id seen s e a b hs ks rs h = elim (Bool-cases (s == a && e == b)) [
    | inl same ↦ ground (arith, seen_same s e a b seen same, h)
    | inr other ↦ ground (arith, other)
  ]

  extended_seen :
      (id : ℕ) (seen : List (ℕ × ℕ)) (gs : List (GroupRange H)) (s e : ℕ) (hs : List H)
      (rs : List (Registration H))
      → is_seen s e seen ≡ true
      → extended id seen gs (range_use s e hs ∷ rs) ≡ extended id seen gs rs
  extended_seen id seen [] s e hs rs h = refl
  extended_seen id seen (g ∷ gs) s e hs rs h =
      ap₂ ◌++◌ (part_seen id seen s e g.start g.end hs g.handlers rs h) (
        extended_seen id ((g.start, g.end) ∷ seen) gs s e hs rs
          (seen_more s e (g.start, g.end) seen h))

  -- The first group with its ends takes what `Use` adds.
  part_taken :
      (id : ℕ) (seen : List (ℕ × ℕ)) (s e a b : ℕ) (hs ks : List H) (rs : List (Registration H))
      → is_seen s e seen ≡ false
      → (a == s && b == e) ≡ true
      → group_part id seen a b (ks ++ hs) rs ≡ group_part id seen a b ks (range_use s e hs ∷ rs)
  part_taken id seen s e a b hs ks rs h same =
      let p : s ≡ a = ground (arith, same, ==_iff a s) in
      let q : e ≡ b = ground (arith, same, ==_iff b e) in
      subst
        (λ (i : ℕ).
          group_part id seen i b (ks ++ hs) rs ≡ group_part id seen i b ks (range_use s e hs ∷ rs))
        p
        (subst
          (λ (j : ℕ).
            group_part id seen s j (ks ++ hs) rs
            ≡ group_part id seen s j ks (range_use s e hs ∷ rs))
          q taken_self)
    where
      taken_self :
          group_part id seen s e (ks ++ hs) rs ≡ group_part id seen s e ks (range_use s e hs ∷ rs)
      taken_self = ground (arith, h, ==_iff s s, ==_iff e e, append_assoc ks hs (later_uses s e rs))

  part_other :
      (id : ℕ) (seen : List (ℕ × ℕ)) (s e a b : ℕ) (hs ks : List H) (rs : List (Registration H))
      → (a == s && b == e) ≡ false
      → group_part id seen a b ks rs ≡ group_part id seen a b ks (range_use s e hs ∷ rs)
  part_other id seen s e a b hs ks rs other =
      ground (arith, other, ==_iff s a, ==_iff e b, ==_iff a s, ==_iff b e)

  extended-extend_first :
      (id : ℕ) (seen : List (ℕ × ℕ)) (gs : List (GroupRange H)) (s e : ℕ) (hs : List H)
      (rs : List (Registration H))
      → is_seen s e seen ≡ false
      → extended id seen (extend_first s e hs gs) rs ≡ extended id seen gs (range_use s e hs ∷ rs)
  unfolding extend_first
  extended-extend_first id seen [] s e hs rs h = refl
  extended-extend_first id seen (g ∷ gs) s e hs rs h =
      elim (Bool-cases (g.start == s && g.end == e)) [
        | inl same ↦
            rw (same, extend_first)
              (ap₂ ◌++◌ (part_taken id seen s e g.start g.end hs g.handlers rs h same)
                (sym (extended_seen id ((g.start, g.end) ∷ seen) gs s e hs rs (rw same refl))))
        | inr other ↦
            rw (other, extend_first)
              (ap₂ ◌++◌ (part_other id seen s e g.start g.end hs g.handlers rs other)
                (extended-extend_first id ((g.start, g.end) ∷ seen) gs s e hs rs (rw other h)))
      ]

  seen_after-extend_first :
      (seen : List (ℕ × ℕ)) (gs : List (GroupRange H)) (s e : ℕ) (hs : List H)
      → seen_after seen (extend_first s e hs gs) ≡ seen_after seen gs
  unfolding extend_first
  seen_after-extend_first seen [] s e hs = refl
  seen_after-extend_first seen (g ∷ gs) s e hs = elim (Bool-cases (g.start == s && g.end == e)) [
    | inl same ↦ rw (same, extend_first) refl
    | inr other ↦
        rw (other, extend_first) (seen_after-extend_first ((g.start, g.end) ∷ seen) gs s e hs)
  ]

  -- A registration that adds to no group.
  extended_same :
      (id : ℕ) (seen : List (ℕ × ℕ)) (gs : List (GroupRange H)) (rs ks : List (Registration H))
      → ((a b : ℕ) → later_uses a b ks ≡ later_uses a b rs)
      → extended id seen gs rs ≡ extended id seen gs ks
  extended_same id seen [] rs ks f = refl
  extended_same id seen (g ∷ gs) rs ks f =
      ap₂ ◌++◌
        (ap
          (λ (hs : List H).
            if leb g.start id && leb id g.end
            then g.handlers ++ (if is_seen g.start g.end seen then [] else hs)
            else [])
          (sym (f g.start g.end)))
        (extended_same id ((g.start, g.end) ∷ seen) gs rs ks f)

  -- All middleware of ranges, if `mh` is there and `rs` is still to come.
  abbrev pub to_come : ℕ → List (GroupRange H) → List (Registration H) → List H
  to_come id gs rs = extended id [] gs rs ++ ranges_from id (seen_after [] gs) rs

  to_come_same :
      (id : ℕ) (gs : List (GroupRange H)) (rs ks : List (Registration H))
      → ((a b : ℕ) → later_uses a b ks ≡ later_uses a b rs)
      → ranges_from id (seen_after [] gs) ks ≡ ranges_from id (seen_after [] gs) rs
      → to_come id gs rs ≡ to_come id gs ks
  to_come_same id gs rs ks f e = ap₂ ◌++◌ (extended_same id [] gs rs ks f) (sym e)

  group_ranges-route :
      (mh : Routes H) (id : ℕ) (hs : List H)
      → (add_slices mh id hs).0.group_ranges ≡ mh.group_ranges
  unfolding add_slices
  group_ranges-route mh id hs = ground arith

  group_ranges-middleware :
      (mh : Routes H) (hs : List H) → (use_global mh hs).group_ranges ≡ mh.group_ranges
  unfolding use_global
  group_ranges-middleware mh hs = ground arith

  group_failed :
      (mh : Routes H) (start end : ℕ) (hs : List H)
      → ltb end start ≡ true
      → (group mh start end hs).0.group_ranges ≡ mh.group_ranges
  unfolding group
  group_failed mh start end hs bad = ground (arith, bad)

  group_added :
      (mh : Routes H) (start end : ℕ) (hs : List H)
      → ltb end start ≡ false
      → (group mh start end hs).0.group_ranges
        ≡ mh.group_ranges ++ (record { start = start; end = end; handlers = hs } ∷ [])
  unfolding group
  group_added mh start end hs fine = ground (arith, fine)

  to_come_group :
      (id : ℕ) (gs : List (GroupRange H)) (start end : ℕ) (hs : List H) (rs : List (Registration H))
      → ltb end start ≡ false
      → to_come id (gs ++ (record { start = start; end = end; handlers = hs } ∷ [])) rs
        ≡ to_come id gs (range start end hs ∷ rs)
  to_come_group id gs start end hs rs fine =
      let g : GroupRange H = record { start = start; end = end; handlers = hs } in
      let seen = seen_after [] gs in
      let part = group_part id seen start end hs rs in
      ap₂ ◌++◌ (extended-append id [] gs g rs)
        (ap (λ (ends : List (ℕ × ℕ)). ranges_from id ends rs) (seen_after-append [] gs g))
      ∙ append_assoc (extended id [] gs rs) part (ranges_from id ((start, end) ∷ seen) rs)
      ∙ ap₂ ◌++◌ (extended_same id [] gs rs (range start end hs ∷ rs) (λ a b. refl)) (rw fine refl)

  register-group :
      (mh : Routes H) (id : ℕ) (r : Registration H) (rs : List (Registration H))
      → to_come id (register mh r).group_ranges rs ≡ to_come id mh.group_ranges (r ∷ rs)
  unfolding register group group_use
  register-group mh id (route j hs) rs =
      ap (λ (gs : List (GroupRange H)). to_come id gs rs) (group_ranges-route mh j hs)
      ∙ to_come_same id mh.group_ranges rs (route j hs ∷ rs) (λ a b. refl) refl
  register-group mh id (middleware hs) rs =
      ap (λ (gs : List (GroupRange H)). to_come id gs rs) (group_ranges-middleware mh hs)
      ∙ to_come_same id mh.group_ranges rs (middleware hs ∷ rs) (λ a b. refl) refl
  register-group mh id (range start end hs) rs = elim (Bool-cases (ltb end start)) [
    | inl bad ↦
        ap (λ (gs : List (GroupRange H)). to_come id gs rs) (group_failed mh start end hs bad)
        ∙ to_come_same id mh.group_ranges rs (range start end hs ∷ rs) (λ a b. refl) (rw bad refl)
    | inr fine ↦
        ap (λ (gs : List (GroupRange H)). to_come id gs rs) (group_added mh start end hs fine)
        ∙ to_come_group id mh.group_ranges start end hs rs fine
  ]
  register-group mh id (range_use start end hs) rs =
      ap₂ ◌++◌ (extended-extend_first id [] mh.group_ranges start end hs rs refl) (
        ap (λ (ends : List (ℕ × ℕ)). ranges_from id ends rs)
          (seen_after-extend_first [] mh.group_ranges start end hs))

  pub group-register_all :
      (mh : Routes H) (id : ℕ) (rs : List (Registration H))
      → group_handlers id (register_all mh rs).group_ranges ≡ to_come id mh.group_ranges rs
  unfolding register_all
  group-register_all mh id [] =
      sym (extended_done id [] mh.group_ranges)
      ∙ sym (append-nil (extended id [] mh.group_ranges []))
  group-register_all mh id (r ∷ rs) =
      group-register_all (register mh r) id rs ∙ register-group mh id r rs
