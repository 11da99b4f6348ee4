-- ===== src/ConnManager/Limit.antt =====
-- The invariant of knet/connmanager.go, and its limit.
use kinz.Base.{
  ℕ, zero, suc, ◌+◌, ◌≤◌, ◌≡◌, ◌⊎◌, inl, inr, refl, ap, subst, ◌∙◌, Bool-cases, true, false, List,
  [], ◌∷◌, none, some, ℤ, pos, negsuc, length, ◌==◌, if◌then◌else◌, arith,
}
use kinz.Base.Maps.{
  lookup, insert, delete, lookup-insert, lookup-delete, Distinct, insert-Distinct, delete-Distinct,
  length-insert, length-delete, length-delete-le,
}
use kinz.ConnManager.{
  ConnManager, server_full, conn_not_found, is_full, new_conn_manager, get, len, add, remove,
  clear_conn,
}

-- At most as many as the limit says, if it says anything.
abbrev pub Within : ℤ → ℕ → Type 0
Within (pos zero) n = Unit {0}
Within (pos (suc max)) n = n ≤ suc max
Within (negsuc max) n = Unit {0}

Within-insert :
    (max : ℤ) (n k : ℕ) → is_full max n ≡ false → k ≤ n + 1 → Within max n → Within max k
Within-insert (pos zero) n k e h w = tt
Within-insert (pos (suc max)) n k e h w = ground arith
Within-insert (negsuc max) n k e h w = tt

Within-le : (max : ℤ) (n k : ℕ) → k ≤ n → Within max n → Within max k
Within-le (pos zero) n k h w = tt
Within-le (pos (suc max)) n k h w = omega arith
Within-le (negsuc max) n k h w = tt

module _ {C : Type 0} (get_conn_id : C → ℕ) where
  -- Every connection stands under its own id.
  abbrev pub Keyed : List (ℕ × C) → Type 0
  Keyed [] = Unit {0}
  Keyed ((k, c) ∷ m) = (k ≡ get_conn_id c) × Keyed m

  pub record IsValid (cm : ConnManager C) : Type 0 where
    pub distinct : Distinct cm.connections
    pub keyed : Keyed cm.connections
    pub within : Within cm.max_conn (length cm.connections)

  insert-Keyed : (c : C) (m : List (ℕ × C)) → Keyed m → Keyed (insert (get_conn_id c) c m)
  insert-Keyed c [] h = (refl, tt)
  insert-Keyed c ((k, d) ∷ m) h = ground (arith, insert-Keyed c m h.1)

  delete-Keyed : (j : ℕ) (m : List (ℕ × C)) → Keyed m → Keyed (delete j m)
  delete-Keyed j [] h = tt
  delete-Keyed j ((k, d) ∷ m) h = ground (arith, delete-Keyed j m h.1)

  pub new_conn_manager-IsValid : (max : ℤ) → IsValid (new_conn_manager max)
  unfolding new_conn_manager
  new_conn_manager-IsValid (pos zero) = record { distinct = tt; keyed = tt; within = tt }
  new_conn_manager-IsValid (pos (suc max)) = record {
    distinct = tt;
    keyed = tt;
    within = omega arith;
  }
  new_conn_manager-IsValid (negsuc max) = record { distinct = tt; keyed = tt; within = tt }

  pub add-IsValid : (cm : ConnManager C) (c : C) → IsValid cm → IsValid (add get_conn_id cm c).0
  unfolding add
  add-IsValid cm c v = elim (Bool-cases (is_full cm.max_conn (length cm.connections))) [
    | inl full ↦ rw (full, add) v
    | inr room ↦
        rw (room, add)
          (record {
            distinct = insert-Distinct (get_conn_id c) c cm.connections v.distinct;
            keyed = insert-Keyed c cm.connections v.keyed;
            within =
                Within-insert cm.max_conn (length cm.connections) _ room
                  (ground (arith, length-insert (get_conn_id c) c cm.connections)) v.within;
          })
  ]

  pub remove-IsValid : (cm : ConnManager C) (c : C) → IsValid cm → IsValid (remove get_conn_id cm c)
  unfolding remove
  remove-IsValid cm c v = record {
    distinct = delete-Distinct (get_conn_id c) cm.connections v.distinct;
    keyed = delete-Keyed (get_conn_id c) cm.connections v.keyed;
    within =
        Within-le cm.max_conn (length cm.connections) _
          (length-delete-le (get_conn_id c) cm.connections) v.within;
  }

  pub clear_conn-IsValid : (cm : ConnManager C) → IsValid cm → IsValid (clear_conn cm).0
  unfolding clear_conn
  clear_conn-IsValid cm v = record {
    distinct = tt;
    keyed = tt;
    within = Within-le cm.max_conn (length cm.connections) 0 (omega arith) v.within;
  }

  pub get-found : (cm : ConnManager C) (j : ℕ) → (get cm j).0 ≡ lookup j cm.connections
  unfolding get
  get-found cm j = ground arith

  -- The three methods that change the connections, as values: a history is a list of them.
  pub data Change : Type 0 where
    added removed : C → Change
    cleared : Change

  unfoldable pub change : ConnManager C → Change → ConnManager C
  change cm (added c) = (add get_conn_id cm c).0
  change cm (removed c) = remove get_conn_id cm c
  change cm cleared = (clear_conn cm).0

  unfoldable pub change_all : ConnManager C → List Change → ConnManager C
  change_all cm [] = cm
  change_all cm (x ∷ xs) = change_all (change cm x) xs

  change-IsValid : (cm : ConnManager C) (x : Change) → IsValid cm → IsValid (change cm x)
  unfolding change
  change-IsValid cm (added c) v = add-IsValid cm c v
  change-IsValid cm (removed c) v = remove-IsValid cm c v
  change-IsValid cm cleared v = clear_conn-IsValid cm v

  change_all-keeps :
      (cm : ConnManager C) (xs : List Change) → IsValid cm → IsValid (change_all cm xs)
  unfolding change_all
  change_all-keeps cm [] v = v
  change_all-keeps cm (x ∷ xs) v = change_all-keeps (change cm x) xs (change-IsValid cm x v)

  add_full :
      (cm : ConnManager C) (c : C)
      → is_full cm.max_conn (length cm.connections) ≡ true
      → add get_conn_id cm c ≡ (cm, some server_full)
  unfolding add
  add_full cm c full = rw full refl

  add_room :
      (cm : ConnManager C) (c : C)
      → is_full cm.max_conn (length cm.connections) ≡ false
      → add get_conn_id cm c
        ≡ (record cm { connections = insert (get_conn_id c) c cm.connections }, none)
  unfolding add
  add_room cm c room = rw room refl

  change-max : (cm : ConnManager C) (x : Change) → (change cm x).max_conn ≡ cm.max_conn
  unfolding change remove clear_conn
  change-max cm (added c) = elim (Bool-cases (is_full cm.max_conn (length cm.connections))) [
    | inl full ↦ ap (λ r. r.0.max_conn) (add_full cm c full)
    | inr room ↦ ap (λ r. r.0.max_conn) (add_room cm c room)
  ]
  change-max cm (removed c) = refl
  change-max cm cleared = refl

  change_all-max :
      (cm : ConnManager C) (xs : List Change) → (change_all cm xs).max_conn ≡ cm.max_conn
  unfolding change_all
  change_all-max cm [] = refl
  change_all-max cm (x ∷ xs) = change_all-max (change cm x) xs ∙ change-max cm x

  -- Whatever sequence of Add, Remove and ClearConn a new manager goes through, its entries have
  -- distinct ids, each stands under its connection's own id, and their number is within the limit
  -- that the manager was made with, where that limit is positive.
  pub change_all-IsValid :
      (max : ℤ) (xs : List Change)
      → let cm = change_all (new_conn_manager max) xs in IsValid cm × Within max (len cm)
  unfolding len new_conn_manager
  change_all-IsValid max xs =
      let v = change_all-keeps (new_conn_manager max) xs (new_conn_manager-IsValid max) in
      (
        v,
        subst (λ m. Within m (length (change_all (new_conn_manager max) xs).connections))
            (change_all-max (new_conn_manager max) xs) v.within,
      )

  get-insert :
      (cm : ConnManager C) (i j : ℕ) (c : C)
      → get (record cm { connections = insert i c cm.connections }) j
        ≡ (if i == j then (some c, none) else get cm j)
  unfolding get
  get-insert cm i j c = elim (Bool-cases (i == j)) [
    | inl same ↦ rw (lookup-insert i j c cm.connections, same, get) refl
    | inr other ↦ rw (lookup-insert i j c cm.connections, other, get) refl
  ]

  get-delete :
      (cm : ConnManager C) (i j : ℕ)
      → get (record cm { connections = delete i cm.connections }) j
        ≡ (if i == j then (none, some conn_not_found) else get cm j)
  unfolding get
  get-delete cm i j = elim (Bool-cases (i == j)) [
    | inl same ↦ rw (lookup-delete i j cm.connections, same, get) refl
    | inr other ↦ rw (lookup-delete i j cm.connections, other, get) refl
  ]

  pub add_lem :
      (cm : ConnManager C) (c : C)
      → (is_full cm.max_conn (len cm) ≡ true × (add get_conn_id cm c ≡ (cm, some server_full)))
        ⊎ (is_full cm.max_conn (len cm) ≡ false
            × ((add get_conn_id cm c).1 ≡ none)
            × ((j : ℕ)
                → get (add get_conn_id cm c).0 j
                  ≡ (if get_conn_id c == j then (some c, none) else get cm j))
            × (len (add get_conn_id cm c).0
                ≡ (len cm + elim (get cm (get_conn_id c)).0 [ none ↦ 1 | some _ ↦ 0 ])))
  unfolding add get len
  add_lem cm c = elim (Bool-cases (is_full cm.max_conn (length cm.connections))) [
    | inl full ↦ inl (full, add_full cm c full)
    | inr room ↦ inr (
      room,
      ap (λ r. r.1) (add_room cm c room),
      λ j. ap (λ r. get r.0 j) (add_room cm c room) ∙ get-insert cm (get_conn_id c) j c,
      ap (λ r. len r.0) (add_room cm c room)
          ∙ rw (get-found cm (get_conn_id c)) (length-insert (get_conn_id c) c cm.connections),
    )
  ]

  -- After Remove, on a valid manager, Get fails with ErrConnNotFound for the connection's id and
  -- finds what it found before for every other id, and the number of connections shrinks by one
  -- just when the id was known.
  pub remove_lem :
      (cm : ConnManager C) (c : C)
      → IsValid cm
      → ((j : ℕ)
          → get (remove get_conn_id cm c) j
            ≡ (if get_conn_id c == j then (none, some conn_not_found) else get cm j))
        × ((len (remove get_conn_id cm c)
              + elim (get cm (get_conn_id c)).0 [ none ↦ 0 | some _ ↦ 1 ])
            ≡ len cm)
  unfolding remove get len
  remove_lem cm c v = (
    get-delete cm (get_conn_id c),
    rw (get-found cm (get_conn_id c)) (length-delete (get_conn_id c) cm.connections v.distinct),
  )
