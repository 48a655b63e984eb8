-- ===== src/Commands/Syncing.antt =====
-- cmd/xds.go: the state manager of the command, which reads a bucket into the xDS state.
mod Tests
use mathlib.Core.Path.{subst}
use cruiser.Base.{
  ℕ, String, List, [], ◌∷◌, Option, none, some, Dict, Outcome, ok, err, panic, ◌≡◌, refl, sym, ap,
  ◌∙◌, arith, All,
}
use cruiser.Base.Run.{Run, for_each, for_each_keeps, and_then, and_then-ok}
use cruiser.State.Terraform.{Tfstate}
use cruiser.State.Envoy.{Envoy, LinearCache, IsLinearCache}
use cruiser.State.Xds.{XdsState, Orders, build, new_xds_state, read_from_tfstate}
use cruiser.State.Xds.Transact.{Covers}
use cruiser.State.Xds.Mirror.{Mirrors, build-Mirrors, new_xds_state-Mirrors}
use cruiser.State.Xds.Rebuild.{ServesNothing, rebuild_empties}
use cruiser.State.Xds.Reading.{read_from_tfstate-Untouched}
use cruiser.State.Xds.Runs.{Untouched-Mirrors}
use cruiser.State.Manager.{Manager, read_pointer, manage}
use cruiser.State.Manager.Rounds.{
  StateManager, new_state_manager, with_tfstate_source, with_managers, listed, after_poll,
  with_source, sync_round,
}
use cruiser.Aws.Tfstates.{Bucket, TfstateObject, get_tfstate}
use cruiser.Aws.Tfstates.Polling.{get_tfstate-get_tfstate}

module _ {B S : Type 0} (m : Manager S) where
  with_source-ok :
      (b : B) (r : S × Outcome (Unit {0})) {y : B × S}
      → with_source b (and_then r (λ _ s. (s, ok tt))) ≡ (y, ok tt)
      → (y.0 ≡ b) × (r ≡ (y.1, ok tt))
  with_source-ok b (s, ok _) e = (ap (λ z. z.0.0) (sym e), ap (λ z. (z.0.1, ok tt)) e)
  with_source-ok b (s, err x) e = ground arith
  with_source-ok b (s, panic) e = ground arith

  -- A round with one manager that succeeds is a poll and a run of the manager that do.
  after_poll-ok :
      (p : B × Outcome (Option (List (Option Tfstate)))) (x : B × S) {y : B × S}
      → after_poll (m ∷ []) p x ≡ (y, ok tt)
      → (r : Option (List (Option Tfstate))) × (p ≡ (y.0, ok r))
        × (manage m (listed r) x.1 ≡ (y.1, ok tt))
  unfolding for_each
  after_poll-ok (b, ok r) (_, s) e =
      let (same, run) = with_source-ok b (manage m (listed r) s) e in
      (r, ap (λ c. (c, ok r)) (sym same), run)
  after_poll-ok (b, err e) x h = ground arith
  after_poll-ok (b, panic) x h = ground arith

module _ {E : Envoy} {C : LinearCache} where
  -- `orders` are the orders of the ranges over maps in `Build`.
  abbrev pub xds_manager : Orders → Manager (XdsState E C)
  xds_manager orders = record { read_from_tfstate = read_from_tfstate; build = build orders }

  -- The manager of the command, in a round in which the bucket is `V`.
  abbrev pub xds_state_manager : Bucket → Orders → StateManager (Dict TfstateObject) (XdsState E C)
  xds_state_manager V orders =
      new_state_manager
        (with_tfstate_source (some (get_tfstate V)) ∷ with_managers (xds_manager orders ∷ []) ∷ [])

  -- The rounds of the manager, of which each must succeed for the next to begin.
  abbrev pub sync_rounds : Bucket → List Orders → Run (Dict TfstateObject × XdsState E C) (Unit {0})
  sync_rounds V = for_each (λ orders. sync_round (xds_state_manager V orders))

  module _ (L : IsLinearCache C) where
    read_pointer-Mirrors :
        (orders : Orders) (tfstate : Option Tfstate) (s : XdsState E C)
        → Mirrors s
        → Mirrors (read_pointer (xds_manager orders) tfstate s).0
    read_pointer-Mirrors orders none s m = m
    read_pointer-Mirrors orders (some tfstate) s m =
        Untouched-Mirrors s _ (read_from_tfstate-Untouched tfstate s) m

    -- A run of the manager that succeeds ends with a build, on a state whose caches serve what the
    -- build before it published.
    manage-builds :
        (orders : Orders) (tfstates : List (Option Tfstate)) (s : XdsState E C) {t : XdsState E C}
        → Mirrors s
        → manage (xds_manager orders) tfstates s ≡ (t, ok tt)
        → (u : XdsState E C) × Mirrors u × (build orders u ≡ (t, ok tt))
    unfolding manage
    manage-builds orders tfstates s mirrors e =
        let reads = for_each (read_pointer (xds_manager orders)) tfstates s in
        let (_, _, run) = and_then-ok reads (λ _. build orders) (ap (λ r. r.1) e) in
        (
          reads.0,
          for_each_keeps (read_pointer (xds_manager orders)) Mirrors (read_pointer-Mirrors orders)
              tfstates s mirrors,
          sym run ∙ e,
        )

  -- What a round that succeeded leaves of the objects and of the state.
  record IsRead (V : Bucket) (x : Dict TfstateObject × XdsState E C) : Type 0 where
    pub objects : Dict TfstateObject
    pub tfstates : Option (List (Option Tfstate))
    pub polled : get_tfstate V objects ≡ (x.0, ok tfstates)
    pub orders : Orders
    pub covers : (i : ℕ) → Covers (orders i)
    pub before : XdsState E C
    pub mirrors : Mirrors before
    pub built : build orders before ≡ (x.1, ok tt)

  module _ (L : IsLinearCache C) (V : Bucket)
      (full_name_injective : (a b : String) → V.full_name a ≡ V.full_name b → a ≡ b) where
    round-IsRead :
        (orders : Orders) (covers : (i : ℕ) → Covers (orders i))
        (x : Dict TfstateObject × XdsState E C) {y : Dict TfstateObject × XdsState E C}
        → Mirrors x.1
        → sync_round (xds_state_manager V orders) x ≡ (y, ok tt)
        → IsRead V y
    unfolding sync_round
    round-IsRead orders covers x mirrors e =
        let (r, polled, managed) = after_poll-ok (xds_manager orders) (get_tfstate V x.0) x e in
        let (u, m, built) = manage-builds L orders (listed r) x.1 mirrors managed in
        record {
          objects = x.0;
          tfstates = r;
          polled = polled;
          orders = orders;
          covers = covers;
          before = u;
          mirrors = m;
          built = built;
        }

    IsRead-Mirrors : {x : Dict TfstateObject × XdsState E C} → IsRead V x → Mirrors x.1
    IsRead-Mirrors i =
        subst Mirrors (ap (λ r. r.0) i.built)
          (build-Mirrors L i.orders i.covers i.before i.mirrors (ap (λ r. r.1) i.built)).1

    -- The round after one that succeeded polls no state, and so builds what it deletes.
    round-empties :
        (orders : Orders) (covers : (i : ℕ) → Covers (orders i))
        (x y : Dict TfstateObject × XdsState E C)
        → IsRead V x
        → sync_round (xds_state_manager V orders) x ≡ (y, ok tt)
        → ServesNothing y.1
    unfolding sync_round manage for_each
    round-empties orders covers x y i e =
        let (r, polled, managed) = after_poll-ok (xds_manager orders) (get_tfstate V x.0) x e in
        let again =
          get_tfstate-get_tfstate V full_name_injective i.objects x.0 i.tfstates i.polled in
        let same = ap (λ p. p.1) polled in
        let nothing : r ≡ none = cc in
        let built : build orders x.1 ≡ (y.1, ok tt) = rw nothing at managed in
        let (empty, _) =
          rebuild_empties L i.orders orders i.covers covers i.before i.mirrors
            (ap (λ r. r.1) i.built)
            (ap (λ t. (build orders t).1) (ap (λ r. r.0) i.built) ∙ ap (λ r. r.1) built) in
        subst ServesNothing
          (ap (λ t. (build orders t).0) (ap (λ r. r.0) i.built) ∙ ap (λ r. r.0) built) empty

    later_rounds-empty :
        (rounds : List Orders) (x : Dict TfstateObject × XdsState E C)
        {y : Dict TfstateObject × XdsState E C}
        → All (λ orders. (i : ℕ) → Covers (orders i)) rounds
        → IsRead V x
        → ServesNothing x.1
        → sync_rounds V rounds x ≡ (y, ok tt)
        → ServesNothing y.1
    unfolding for_each
    later_rounds-empty [] x a i n e = subst (λ r. ServesNothing r.0.1) e n
    later_rounds-empty (orders ∷ rounds) x a i n e =
        let first = sync_round (xds_state_manager V orders) x in
        let (p, q, run) = and_then-ok first (λ _. sync_rounds V rounds) (ap (λ r. r.1) e) in
        let round : first ≡ (first.0, ok tt) = ap (λ o. (first.0, o)) p in
        later_rounds-empty rounds first.0 a.1 (round-IsRead orders a.0 x (IsRead-Mirrors i) round)
          (round-empties orders a.0 x first.0 i round) (sym run ∙ e)

    -- If the bucket stays as it is for two rounds or more of a new state manager of the xDS command,
    -- and each round succeeds, then after the last of them every cache of the xDS state is empty,
    -- whatever Terraform states the bucket holds. It is for full names that differ where the names
    -- do, and for any orders of the ranges over maps.
    pub unchanged_bucket_empties :
        (first second : Orders) (later : List Orders) (y : Dict TfstateObject × XdsState E C)
        → All (λ orders. (i : ℕ) → Covers (orders i)) (first ∷ second ∷ later)
        → sync_rounds V (first ∷ second ∷ later) ([], new_xds_state) ≡ (y, ok tt)
        → ServesNothing y.1
    unfolding for_each
    unchanged_bucket_empties first second later y a e =
        let one = sync_round (xds_state_manager V first) ([], new_xds_state) in
        let (p1, _, run1) =
          and_then-ok one (λ _. sync_rounds V (second ∷ later)) (ap (λ r. r.1) e) in
        let two = sync_round (xds_state_manager V second) one.0 in
        let (p2, _, run2) =
          and_then-ok two (λ _. sync_rounds V later) (ap (λ r. r.1) (sym run1 ∙ e)) in
        let read =
          round-IsRead first a.0 ([], new_xds_state) (new_xds_state-Mirrors L)
            (ap (λ o. (one.0, o)) p1) in
        later_rounds-empty later two.0 a.1.1
          (round-IsRead second a.1.0 one.0 (IsRead-Mirrors read) (ap (λ o. (two.0, o)) p2))
          (round-empties second a.1.0 one.0 two.0 read (ap (λ o. (two.0, o)) p2))
          (sym run2 ∙ sym run1 ∙ e)
