-- ===== src/Aws/Discovery/Syncing.antt =====
-- What the rounds of the service discovery find.
use cruiser.Base.{
  ℕ, String, List, [], ◌∷◌, ◌++◌, map, some, Outcome, ok, err, panic, ◌≡◌, refl, sym, ap, ◌∙◌,
}
use mathlib.Core.List.{append_assoc, append-nil}
use cruiser.Aws.Discovery.{
  Registry, Instance, Endpoint, ServiceInfo, bind, all_pages, page_instances, port_of, endpoint_of,
  get_tag_by_key, service_assignment,
}

bind-bind :
    {A B C : Type 0} (o : Outcome A) (f : A → B) (g : B → Outcome C)
    → bind (bind o (λ a. ok (f a))) g ≡ bind o (λ a. g (f a))
bind-bind (ok a) f g = refl
bind-bind (err e) f g = refl
bind-bind panic f g = refl

module _ (D : Registry) where
  map-append :
      (port : ℕ) (xs ys : List Instance)
      → map (endpoint_of D port) (xs ++ ys)
        ≡ map (endpoint_of D port) xs ++ map (endpoint_of D port) ys
  map-append port [] ys = refl
  map-append port (x ∷ xs) ys = ap (λ zs. endpoint_of D port x ∷ zs) (map-append port xs ys)

  found_first :
      (port : ℕ) (rest : Outcome (List Instance)) (xs : List Instance) (found : List Endpoint)
      → bind rest (λ ys. ok ((found ++ map (endpoint_of D port) xs) ++ map (endpoint_of D port) ys))
        ≡ bind (bind rest (λ ys. ok (xs ++ ys))) (λ ys. ok (found ++ map (endpoint_of D port) ys))
  found_first port (ok ys) xs found = ap ok (
      append_assoc found (map (endpoint_of D port) xs) (map (endpoint_of D port) ys)
      ∙ ap (λ zs. found ++ zs) (sym (map-append port xs ys)))
  found_first port (err e) xs found = refl
  found_first port panic xs found = refl

  -- The loop over the pages of instances keeps their order, and ends at the first page that fails.
  pub page_instances-all_pages :
      (port : ℕ) (pages : List (Outcome (List Instance))) (found : List Endpoint)
      → page_instances D port pages found
        ≡ bind (all_pages pages) (λ instances. ok (found ++ map (endpoint_of D port) instances))
  unfolding page_instances all_pages
  page_instances-all_pages port [] found = ap ok (sym (append-nil found))
  page_instances-all_pages port (ok xs ∷ pages) found =
      page_instances-all_pages port pages (found ++ map (endpoint_of D port) xs)
      ∙ found_first port (all_pages pages) xs found
  page_instances-all_pages port (err e ∷ pages) found = refl
  page_instances-all_pages port (panic ∷ pages) found = refl

module _ {P : Type 0} (D : Registry) (locality : List Endpoint → P) where
  -- For a service with a tag that gives its port, the assignment that is built has the cluster of
  -- the service and one locality, whose endpoints are the instances of all pages, in order, at
  -- that port; if a page fails then so does the loop, with the error of the first that does.
  pub service_assignment-instances :
      (key : String) (info : ServiceInfo) (text : String) (port : ℕ)
      → (get_tag_by_key key info.tags).value ≡ some text
      → port_of D text ≡ some port
      → service_assignment D locality key info
        ≡ bind (all_pages (D.list_instances info.service.id)) (λ instances. ok (
            some record {
              cluster_name = D.cluster_name info.service.name info.namespace_id;
              endpoints = locality (map (endpoint_of D port) instances) ∷ [];
            }))
  unfolding service_assignment
  service_assignment-instances key info text port t p =
      rw
        (
          t,
          service_assignment,
          p,
          page_instances-all_pages D port (D.list_instances info.service.id) [],
        )
        (bind-bind (all_pages (D.list_instances info.service.id)) _ _)
