-- ===== src/Aws/Tfstates/Polling.antt =====
-- What two polls of a bucket come to when nothing changes between them.
use cruiser.Base.{
  String, true, false, List, [], ◌∷◌, Option, none, some, Dict, index, keys, mem, Outcome, ok, err,
  panic, ◌≡◌, refl, sym, ap, ◌∙◌, arith, All, Bool-cases, inl, inr,
}
use cruiser.State.Terraform.{Tfstate}
use cruiser.Aws.Tfstates.{
  Bucket, TfstateObject, Polled, read_pages, delete_missing, polled_start, finish_poll, get_tfstate,
}
use cruiser.Aws.Tfstates.Pages.{
  PageSeen, Unchanged, read_pages-ok, index-delete_missing, read_pages-Unchanged,
}

module _ (V : Bucket) where
  finish_poll-ok :
      (x : Polled × Outcome (Unit {0})) (t : Dict TfstateObject)
      (r : Option (List (Option Tfstate)))
      → finish_poll V x ≡ (t, ok r)
      → (p : Polled) × (x ≡ (p, ok tt))
        × ((k : String) → mem k p.existing ≡ true → index t k ≡ index p.objects k)
  finish_poll-ok (p, ok _) t r h = elim (Bool-cases p.need_update) [
    | inl e ↦
        let run : finish_poll V (p, ok tt)
            ≡ (delete_missing V p.existing (keys p.objects) p.objects, ok (some p.tfstates)) =
          rw e refl in
        (
          p,
          refl,
          λ k m.
              ap (λ x. index x.0 k) (sym h ∙ run)
              ∙ index-delete_missing V p.existing (keys p.objects) p.objects k m,
        )
    | inr e ↦
        let run : finish_poll V (p, ok tt) ≡ (p.objects, ok none) = rw e refl in
        (p, refl, λ k m. ap (λ x. index x.0 k) (sym h ∙ run))
  ]
  finish_poll-ok (p, err e) t r h = ground arith
  finish_poll-ok (p, panic) t r h = ground arith

  not_updated : (q : Polled) → q.need_update ≡ false → (finish_poll V (q, ok tt)).1 ≡ ok none
  not_updated q h = rw h refl

  seen-Unchanged :
      (pages : List (Outcome String)) (p : Polled) (t : Dict TfstateObject)
      → ((k : String) → mem k p.existing ≡ true → index t k ≡ index p.objects k)
      → All (PageSeen V p) pages
      → All (Unchanged V t) pages
  seen-Unchanged [] p t kept a = tt
  seen-Unchanged (ok name ∷ pages) p t kept (a, later) = (
    λ file.
        let ((etag, k, o, found, e), m) = a file in
        (etag, k, o, kept (V.full_name name) m ∙ found, e),
    seen-Unchanged pages p t kept later,
  )
  seen-Unchanged (err _ ∷ pages) p t kept (a, later) = absurd a
  seen-Unchanged (panic ∷ pages) p t kept (a, later) = absurd a

  -- After a poll that succeeded, a poll of the same bucket, in which no object has changed,
  -- succeeds and returns the nil slice, whatever the first one returned: the states of the objects
  -- that are still there are not returned again. It is for full names that differ where the names
  -- do.
  pub get_tfstate-get_tfstate :
      (full_name_injective : (a b : String) → V.full_name a ≡ V.full_name b → a ≡ b)
      (objects t : Dict TfstateObject) (r : Option (List (Option Tfstate)))
      → get_tfstate V objects ≡ (t, ok r)
      → (get_tfstate V t).1 ≡ ok none
  unfolding get_tfstate
  get_tfstate-get_tfstate full_name_injective objects t r h =
      let (p, run, kept) = finish_poll-ok (read_pages V V.pages (polled_start V objects)) t r h in
      let (_, _, seen) =
        read_pages-ok V full_name_injective V.pages (polled_start V objects) p run in
      let (q, again, no_update) =
        read_pages-Unchanged V full_name_injective V.pages (polled_start V t)
          (seen-Unchanged V.pages p t kept seen) refl in
      ap (λ x. (finish_poll V x).1) again ∙ not_updated q no_update
