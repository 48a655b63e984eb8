-- ===== src/Aws/Tfstates.antt =====
-- pkg/providers/aws/s3/tfstate_source.go: the Terraform states of a bucket, read when they change.
mod Pages
pub mod Polling
mod Tests
use cruiser.Base.{
  String, Bool, true, false, List, [], ◌∷◌, ◌++◌, Option, none, some, ◌==◌, Dict, index, assign,
  delete, keys, mem, Outcome, ok, err, panic, Error, other, if◌then◌else◌, not,
}
use cruiser.Base.Run.{Run, pure, fail, lift, ◌>>=◌, ◌>>◌}
use cruiser.State.Terraform.{Tfstate}

-- The bucket during one call. `pages` are the names that the pages of the listing have, which are
-- what the code reads of them; a page may fail. `full_name` is `fmt.Sprintf("%s/%s", …)` for the
-- bucket, `download` gives the text, and `unmarshal` reads it.
pub record Bucket : Type 0 where
  pub pages : List (Outcome String)
  pub is_tfstate : String → Bool
  pub full_name : String → String
  pub head_etag : String → Outcome String
  pub download : String → Outcome String
  pub unmarshal : String → Option Tfstate

-- `tfstateObject`; the pointer to the state may be nil.
pub record TfstateObject : Type 0 where
  pub tfstate : Option Tfstate
  pub etag : String

abbrev pub no_object : TfstateObject
no_object = record { tfstate = none; etag = "" }

-- The variables of `GetTfstate`, with the objects that the source keeps between calls.
pub record Polled : Type 0 where
  pub objects : Dict TfstateObject
  pub tfstates : List (Option Tfstate)
  pub existing : List String
  pub need_update : Bool

abbrev pub known_object : Option TfstateObject → TfstateObject
known_object none = no_object
known_object (some o) = o

module _ (V : Bucket) where
  abbrev pub decode : String → Outcome Tfstate
  decode text = elim (V.unmarshal text) [ none ↦ err (other "json") | some t ↦ ok t ]

  -- The end of an iteration.
  abbrev pub keep_object : String → TfstateObject → Bool → Polled → Polled
  keep_object full o changed p = record p {
    objects = assign p.objects full o;
    tfstates = p.tfstates ++ o.tfstate ∷ [];
    existing = full ∷ p.existing;
    need_update = if changed then true else p.need_update;
  }

  -- An object whose tag is the one that it had is not downloaded.
  unfoldable pub read_object : String → String → Run Polled (Unit {0})
  read_object name etag p =
      let full = V.full_name name in
      let o = known_object (index p.objects full) in
      if o.etag == etag
      then (keep_object full (record o { etag = etag }) false p, ok tt)
      else elim (V.download name) [
        | err e ↦ (p, err e)
        | panic ↦ (p, panic)
        | ok text ↦ elim (decode text) [
          | err e ↦ (p, err e)
          | panic ↦ (p, panic)
          | ok t ↦ (keep_object full record { tfstate = some t; etag = etag } true p, ok tt)
        ]
      ]

  unfoldable pub read_page : String → Run Polled (Unit {0})
  read_page name p =
      if V.is_tfstate name
      then elim (V.head_etag name) [
        | err e ↦ (p, err e)
        | panic ↦ (p, panic)
        | ok etag ↦ read_object name etag p
      ]
      else (p, ok tt)

  abbrev pub after_page :
      Polled × Outcome (Unit {0}) → Run Polled (Unit {0}) → Polled × Outcome (Unit {0})
  after_page (p, ok _) rest = rest p
  after_page (p, err e) rest = (p, err e)
  after_page (p, panic) rest = (p, panic)

  unfoldable pub read_pages : List (Outcome String) → Run Polled (Unit {0})
  read_pages [] p = (p, ok tt)
  read_pages (ok name ∷ pages) p = after_page (read_page name p) (read_pages pages)
  read_pages (err e ∷ pages) p = (p, err e)
  read_pages (panic ∷ pages) p = (p, panic)

  -- The objects that no page named are deleted.
  unfoldable pub delete_missing :
      List String → List String → Dict TfstateObject → Dict TfstateObject
  delete_missing existing [] objects = objects
  delete_missing existing (full ∷ order) objects =
      delete_missing existing order (if mem full existing then objects else delete objects full)

  abbrev pub polled_start : Dict TfstateObject → Polled
  polled_start objects = record {
    objects = objects;
    tfstates = [];
    existing = [];
    need_update = false;
  }

  -- What is returned at the end; `none` is the nil slice.
  abbrev pub finish_poll :
      Polled × Outcome (Unit {0}) → Dict TfstateObject × Outcome (Option (List (Option Tfstate)))
  finish_poll (p, err e) = (p.objects, err e)
  finish_poll (p, panic) = (p.objects, panic)
  finish_poll (p, ok _) =
      if p.need_update
      then (delete_missing p.existing (keys p.objects) p.objects, ok (some p.tfstates))
      else (p.objects, ok none)

  unfoldable pub get_tfstate : Run (Dict TfstateObject) (Option (List (Option Tfstate)))
  get_tfstate objects = finish_poll (read_pages V.pages (polled_start objects))
