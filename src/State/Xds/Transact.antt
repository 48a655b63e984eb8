-- ===== src/State/Xds/Transact.antt =====
-- `transactXdsResource` against what the cache serves.
use cruiser.Base.{
  String, false, List, [], ◌∷◌, none, eq_iff, mem, mem-cons, mem-nil, Dict, index, index-nil,
  index-assign, index-delete, mem-keys, assign, delete, keys, has, if◌then◌else◌, ◌≡◌, refl, sym,
  ◌∙◌, arith, Option-cases, Bool-cases, inl, inr, ◌&&◌,
}
use cruiser.State.Envoy.{LinearCache, IsLinearCache}
use cruiser.State.Xds.{Tracked, take_update, take_updates, transact_xds_resource}

module _ {R : Type 0} (m : Dict R) where
  pub take_updates_left :
      (names : List String) (d u : Dict R) (n : String)
      → index (take_updates m names (d, u)).0 n
        ≡ (if mem n names && has m n then none else index d n)
  unfolding take_updates take_update
  take_updates_left [] d u n = rw (mem-nil n)
  take_updates_left (k ∷ ks) d u n = elim (Option-cases (index m k)) [
    | inl e ↦ ground (arith, take_updates_left ks d u n, mem-cons n k ks, eq_iff k n)
    | inr (r, e) ↦ ground (
      arith,
      take_updates_left ks (delete d k) (assign u k r) n,
      mem-cons n k ks,
      eq_iff k n,
      index-delete d k n,
    )
  ]

  pub take_updates_sent :
      (names : List String) (d u : Dict R) (n : String)
      → index (take_updates m names (d, u)).1 n
        ≡ (if mem n names && has m n then index m n else index u n)
  unfolding take_updates take_update
  take_updates_sent [] d u n = rw (mem-nil n)
  take_updates_sent (k ∷ ks) d u n = elim (Option-cases (index m k)) [
    | inl e ↦ ground (arith, take_updates_sent ks d u n, mem-cons n k ks, eq_iff k n)
    | inr (r, e) ↦ ground (
      arith,
      take_updates_sent ks (delete d k) (assign u k r) n,
      mem-cons n k ks,
      eq_iff k n,
      index-assign u k r n,
    )
  ]

-- An order in which a range meets the keys leaves none out and adds none.
abbrev pub Covers : (List String → List String) → Type 0
Covers order = (keys : List String) (k : String) → mem k (order keys) ≡ mem k keys

-- The cache serves what `m` holds.
abbrev pub Serves : (C : LinearCache) {R : Type 0} → C.Cache R → Dict R → Type 0
Serves C {R} c m = (n : String) → C.resource_of R c n ≡ index m n

module _ {R : Type 0} (read to_delete : Dict R)
    (order_update order_delete : List String → List String) (cu : Covers order_update)
    (cd : Covers order_delete) where
  abbrev split : Dict R × Dict R
  split = take_updates read (order_update (keys read)) (to_delete, [])

  pub index-sent : (n : String) → index split.1 n ≡ index read n
  index-sent n = ground (
    arith,
    take_updates_sent read (order_update (keys read)) to_delete [] n,
    cu (keys read) n,
    mem-keys read n,
    index-nil {V = R} n,
  )

  pub mem-deletes :
      (n : String)
      → mem n (order_delete (keys split.0)) ≡ (if has read n then false else has to_delete n)
  mem-deletes n = ground (
    arith,
    take_updates_left read (order_update (keys read)) to_delete [] n,
    cu (keys read) n,
    mem-keys read n,
    cd (keys split.0) n,
    mem-keys split.0 n,
  )

module _ {C : LinearCache} (L : IsLinearCache C) {R : Type 0} (t : Tracked C R)
    (order_update order_delete : List String → List String) (cu : Covers order_update)
    (cd : Covers order_delete) where
  -- If the cache served what the last build published, and the update has no error, then it serves
  -- what was read for this build.
  pub transact-Serves :
      Serves C t.cache t.to_delete
      → (transact_xds_resource order_update order_delete t).1 ≡ none
      → Serves C (transact_xds_resource order_update order_delete t).0.cache t.read
  unfolding transact_xds_resource
  transact-Serves h e n =
      let sent = index-sent t.read t.to_delete order_update order_delete cu cd n in
      let gone = mem-deletes t.read t.to_delete order_update order_delete cu cd n in
      elim (Option-cases (index t.read n)) [
        | inl absent ↦ elim (Bool-cases (has t.to_delete n)) [
          | inl old ↦ L.drops R t.cache _ _ n e (sent ∙ absent) (ground arith) ∙ sym absent
          | inr new ↦ L.keeps R t.cache _ _ n e (sent ∙ absent) (ground arith) ∙ h n ∙ ground arith
        ]
        | inr (r, found) ↦ L.stores R t.cache _ _ n r e (sent ∙ found) (ground arith) ∙ sym found
      ]

pub transact_read :
    {C : LinearCache} {R : Type 0} (t : Tracked C R) (o p : List String → List String)
    → (transact_xds_resource o p t).0.read ≡ t.read
unfolding transact_xds_resource
transact_read t o p = refl
