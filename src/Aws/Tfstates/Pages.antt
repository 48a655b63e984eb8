-- ===== src/Aws/Tfstates/Pages.antt =====
-- What the loop over the pages has seen, and what it does where it has seen all before.
use cruiser.Base.{
  String, true, false, List, [], ◌∷◌, some, ◌==◌, eq_iff, Dict, index, assign, mem, mem-cons,
  index-assign, index-delete, Outcome, ok, err, panic, ◌≡◌, refl, sym, ap, ◌∙◌, arith, All,
  Bool-cases, Outcome-cases, Option-cases, inl, inr,
}
use mathlib.Core.Bool.{true≢false}
use mathlib.Core.Path.{subst}
use cruiser.Aws.Tfstates.{
  Bucket, TfstateObject, Polled, known_object, keep_object, read_object, read_page, after_page,
  read_pages, delete_missing, decode,
}

mem-later : (k x : String) (xs : List String) → mem k xs ≡ true → mem k (x ∷ xs) ≡ true
mem-later k x xs h = ground (arith, mem-cons k x xs)

mem-first : (x : String) (xs : List String) → mem x (x ∷ xs) ≡ true
mem-first x xs = ground (arith, mem-cons x x xs, eq_iff x x)

module _ (V : Bucket) where
  -- The object is kept with the tag that the bucket gives for it.
  abbrev pub Seen : Dict TfstateObject → String → Type 0
  Seen objects name =
      (etag : String) × (V.head_etag name ≡ ok etag)
      × (o : TfstateObject) × (index objects (V.full_name name) ≡ some o)
      × (o.etag ≡ etag)

  abbrev pub PageSeen : Polled → Outcome String → Type 0
  PageSeen p (ok name) =
      V.is_tfstate name ≡ true → Seen p.objects name × (mem (V.full_name name) p.existing ≡ true)
  PageSeen p (err e) = ⊥
  PageSeen p panic = ⊥

  read_object-ok :
      (name etag : String) (p q : Polled)
      → read_object V name etag p ≡ (q, ok tt)
      → (o : TfstateObject) × (o.etag ≡ etag)
        × (q.objects ≡ assign p.objects (V.full_name name) o)
        × (q.existing ≡ V.full_name name ∷ p.existing)
  unfolding read_object
  read_object-ok name etag p q h =
      elim (Bool-cases ((known_object (index p.objects (V.full_name name))).etag == etag)) [
        | inl same ↦
            let full = V.full_name name in
            let o : TfstateObject = record (known_object (index p.objects full)) { etag = etag } in
            let run : read_object V name etag p ≡ (keep_object V full o false p, ok tt) =
              rw (same, read_object) refl in
            (o, refl, ap (λ r. r.0.objects) (sym h ∙ run), ap (λ r. r.0.existing) (sym h ∙ run))
        | inr changed ↦ elim (Outcome-cases (V.download name)) [
          | inl (text, d) ↦ elim (Option-cases (V.unmarshal text)) [
            | inl bad ↦ ground arith
            | inr (t, u) ↦
                let full = V.full_name name in
                let o : TfstateObject = record { tfstate = some t; etag = etag } in
                let run : read_object V name etag p ≡ (keep_object V full o true p, ok tt) =
                  rw (changed, read_object, d, decode, u) refl in
                (o, refl, ap (λ r. r.0.objects) (sym h ∙ run), ap (λ r. r.0.existing) (sym h ∙ run))
          ]
          | inr (inl (e, d)) ↦ ground arith
          | inr (inr d) ↦ ground arith
        ]
      ]

  pub index-delete_missing :
      (existing order : List String) (objects : Dict TfstateObject) (k : String)
      → mem k existing ≡ true
      → index (delete_missing V existing order objects) k ≡ index objects k
  unfolding delete_missing
  index-delete_missing existing [] objects k h = refl
  index-delete_missing existing (full ∷ order) objects k h =
      index-delete_missing existing order _ k h
      ∙ ground (arith, index-delete objects full k, eq_iff full k)

  -- The pages that the next poll will find unchanged.
  abbrev pub Unchanged : Dict TfstateObject → Outcome String → Type 0
  Unchanged objects (ok name) = V.is_tfstate name ≡ true → Seen objects name
  Unchanged objects (err e) = ⊥
  Unchanged objects panic = ⊥

  module _ (full_name_injective : (a b : String) → V.full_name a ≡ V.full_name b → a ≡ b) where
    assign-Seen :
        (objects : Dict TfstateObject) (name etag n : String) (o : TfstateObject)
        → V.head_etag name ≡ ok etag
        → o.etag ≡ etag
        → Seen objects n
        → Seen (assign objects (V.full_name name) o) n
    assign-Seen objects name etag n o h e (tag, k, old, found, t) =
        elim (Bool-cases (V.full_name name == V.full_name n)) [
          | inl same ↦
              let alike =
                full_name_injective name n ((eq_iff (V.full_name name) (V.full_name n)).0 same) in
              (
                etag,
                ap V.head_etag (sym alike) ∙ h,
                o,
                index-assign objects (V.full_name name) o (V.full_name n) ∙ rw same refl,
                e,
              )
          | inr differs ↦ (
            tag,
            k,
            old,
            index-assign objects (V.full_name name) o (V.full_name n) ∙ rw differs found,
            t,
          )
        ]

    assign-Seen-self :
        (objects : Dict TfstateObject) (name etag : String) (o : TfstateObject)
        → V.head_etag name ≡ ok etag
        → o.etag ≡ etag
        → Seen (assign objects (V.full_name name) o) name
    assign-Seen-self objects name etag o h e = (
      etag,
      h,
      o,
      index-assign objects (V.full_name name) o (V.full_name name)
          ∙ rw ((eq_iff (V.full_name name) (V.full_name name)).1 refl) refl,
      e,
    )

    -- What a page that is read leaves, beside what was seen before.
    record IsPageRead (page : String) (p q : Polled) : Type 0 where
      pub keeps : (n : String) → Seen p.objects n → Seen q.objects n
      pub keeps_existing : (k : String) → mem k p.existing ≡ true → mem k q.existing ≡ true
      pub seen : PageSeen q (ok page)

    read_page-ok :
        (name : String) (p q : Polled) → read_page V name p ≡ (q, ok tt) → IsPageRead name p q
    unfolding read_page
    read_page-ok name p q h = elim (Bool-cases (V.is_tfstate name)) [
      | inr other_file ↦
          let run : read_page V name p ≡ (p, ok tt) = rw (other_file, read_page) refl in
          let same : p ≡ q = ap (λ r. r.0) (sym run ∙ h) in
          record {
            keeps = λ n seen. subst (λ m. Seen m.objects n) same seen;
            keeps_existing = λ k m. subst (λ r. mem k r.existing ≡ true) same m;
            seen = λ f. absurd (true≢false (sym f ∙ other_file));
          }
      | inl file ↦ elim (Outcome-cases (V.head_etag name)) [
        | inl (etag, k) ↦
            let read : read_object V name etag p ≡ (q, ok tt) =
              sym (rw (file, read_page, k) refl) ∙ h in
            let (o, e, objects, existing) = read_object-ok name etag p q read in
            record {
              keeps = λ n s.
                  subst (λ m. Seen m n) (sym objects) (assign-Seen p.objects name etag n o k e s);
              keeps_existing =
                  λ j m. ap (mem j) existing ∙ mem-later j (V.full_name name) p.existing m;
              seen = λ _. (
                subst (λ m. Seen m name) (sym objects) (assign-Seen-self p.objects name etag o k e),
                ap (mem (V.full_name name)) existing ∙ mem-first (V.full_name name) p.existing,
              );
            }
        | inr (inl (e, k)) ↦ ground arith
        | inr (inr k) ↦ ground arith
      ]
    ]

    after_page-ok :
        (r : Polled × Outcome (Unit {0})) (pages : List (Outcome String)) (q : Polled)
        → after_page V r (read_pages V pages) ≡ (q, ok tt)
        → (m : Polled) × (r ≡ (m, ok tt)) × (read_pages V pages m ≡ (q, ok tt))
    after_page-ok (m, ok _) pages q h = (m, refl, h)
    after_page-ok (m, err e) pages q h = ground arith
    after_page-ok (m, panic) pages q h = ground arith

    PageSeen-keeps :
        (page : Outcome String) (p q : Polled)
        → ((n : String) → Seen p.objects n → Seen q.objects n)
        → ((k : String) → mem k p.existing ≡ true → mem k q.existing ≡ true)
        → PageSeen p page
        → PageSeen q page
    PageSeen-keeps (ok name) p q keeps more seen =
        λ file. (keeps name (seen file).0, more (V.full_name name) (seen file).1)
    PageSeen-keeps (err e) p q keeps more seen = seen
    PageSeen-keeps panic p q keeps more seen = seen

    -- The loop that goes through to its end has seen all its pages.
    pub read_pages-ok :
        (pages : List (Outcome String)) (p q : Polled)
        → read_pages V pages p ≡ (q, ok tt)
        → ((n : String) → Seen p.objects n → Seen q.objects n)
          × ((k : String) → mem k p.existing ≡ true → mem k q.existing ≡ true)
          × All (PageSeen q) pages
    unfolding read_pages
    read_pages-ok [] p q h =
        let same : p ≡ q = ap (λ r. r.0) h in
        (
          λ n seen. subst (λ m. Seen m.objects n) same seen,
          λ k m. subst (λ r. mem k r.existing ≡ true) same m,
          tt,
        )
    read_pages-ok (ok name ∷ pages) p q h =
        let (m, first, rest) = after_page-ok (read_page V name p) pages q h in
        let page = read_page-ok name p m first in
        let (keeps, more, seen) = read_pages-ok pages m q rest in
        (
          λ n s. keeps n (page.keeps n s),
          λ k s. more k (page.keeps_existing k s),
          (PageSeen-keeps (ok name) m q keeps more page.seen, seen),
        )
    read_pages-ok (err e ∷ pages) p q h = ground arith
    read_pages-ok (panic ∷ pages) p q h = ground arith

    Unchanged-assign :
        (pages : List (Outcome String)) (objects : Dict TfstateObject) (name etag : String)
        (o : TfstateObject)
        → V.head_etag name ≡ ok etag
        → o.etag ≡ etag
        → All (Unchanged objects) pages
        → All (Unchanged (assign objects (V.full_name name) o)) pages
    Unchanged-assign [] objects name etag o h e a = tt
    Unchanged-assign (ok n ∷ pages) objects name etag o h e (a, later) = (
      λ f. assign-Seen objects name etag n o h e (a f),
      Unchanged-assign pages objects name etag o h e later,
    )
    Unchanged-assign (err _ ∷ pages) objects name etag o h e (a, later) = absurd a
    Unchanged-assign (panic ∷ pages) objects name etag o h e (a, later) = absurd a

    read_page-Unchanged :
        (name : String) (pages : List (Outcome String)) (p : Polled)
        → Unchanged p.objects (ok name)
        → All (Unchanged p.objects) pages
        → p.need_update ≡ false
        → (q : Polled) × (read_page V name p ≡ (q, ok tt))
          × All (Unchanged q.objects) pages
          × (q.need_update ≡ false)
    unfolding read_page read_object
    read_page-Unchanged name pages p u all n = elim (Bool-cases (V.is_tfstate name)) [
      | inr other_file ↦ (p, rw (other_file, read_page) refl, all, n)
      | inl file ↦
          let (etag, k, o, found, e) = u file in
          let full = V.full_name name in
          let q = keep_object V full (record o { etag = etag }) false p in
          (
            q,
            rw (file, read_page, k, read_object, found, (eq_iff o.etag etag).1 e) refl,
            Unchanged-assign pages p.objects name etag (record o { etag = etag }) k refl all,
            n,
          )
    ]

    pub read_pages-Unchanged :
        (pages : List (Outcome String)) (p : Polled)
        → All (Unchanged p.objects) pages
        → p.need_update ≡ false
        → (q : Polled) × (read_pages V pages p ≡ (q, ok tt)) × (q.need_update ≡ false)
    unfolding read_pages
    read_pages-Unchanged [] p a n = (p, refl, n)
    read_pages-Unchanged (ok name ∷ pages) p (a, rest_unchanged) n =
        let (m, first, later, k) = read_page-Unchanged name pages p a rest_unchanged n in
        let (q, rest, l) = read_pages-Unchanged pages m later k in
        (q, ap (λ r. after_page V r (read_pages V pages)) first ∙ rest, l)
    read_pages-Unchanged (err _ ∷ pages) p (a, later) n = absurd a
    read_pages-Unchanged (panic ∷ pages) p (a, later) n = absurd a
