-- ===== src/Aws/Tfstates/Tests.antt =====
-- A bucket of one state, of the bucket's own name.
use cruiser.Base.{[], ◌∷◌, none, some, ◌==◌, Dict, index, assign, delete, mem, keys, ok, ◌≡◌, refl}
use cruiser.Aws.Tfstates.{
  Bucket, TfstateObject, read_object, read_page, read_pages, delete_missing, get_tfstate,
}

abbrev bucket : Bucket
bucket = record {
  pages = ok "app.tfstate" ∷ ok "readme" ∷ [];
  is_tfstate = λ n. n == "app.tfstate";
  full_name = λ n. n;
  head_etag = λ n. ok "v1";
  download = λ n. ok "{}";
  unmarshal = λ t. some record { resources = [] };
}

abbrev objects : Dict TfstateObject
objects = ("app.tfstate", record { tfstate = some record { resources = [] }; etag = "v1" }) ∷ []

downloads :
    get_tfstate bucket (("old.tfstate", record { tfstate = none; etag = "v0" }) ∷ [])
    ≡ (objects, ok (some (some record { resources = [] } ∷ [])))
unfolding get_tfstate read_pages read_page read_object delete_missing index assign delete mem keys
downloads = refl
