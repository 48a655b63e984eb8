-- ===== src/Server/Router/Headers.antt =====
-- How many texts are given to `Headers`, `HeadersRegexp` and `Queries`.
use cruiser.Base.{
  ℕ, suc, zero, String, List, [], ◌∷◌, ◌++◌, Dict, index, length, ◌≡◌, refl, arith, ◌+◌, ◌*◌, All,
  is_some, true, Option-cases, inl, inr,
}
use cruiser.Server.Router.{empty_texts, append_pairs, header_pairs}

length-append : (xs ys : List String) → length (xs ++ ys) ≡ length xs + length ys
length-append [] ys = omega arith
length-append (x ∷ xs) ys = let e = length-append xs ys in omega arith

length-empty_texts : (n : ℕ) → length (empty_texts n) ≡ n
length-empty_texts zero = refl
length-empty_texts (suc n) = let e = length-empty_texts n in omega arith

length-append_pairs :
    (m : Dict String) (order pairs : List String)
    → All (λ key. is_some (index m key) ≡ true) order
    → length (append_pairs m order pairs) ≡ length pairs + 2 * length order
unfolding append_pairs
length-append_pairs m [] pairs a = omega arith
length-append_pairs m (key ∷ order) pairs a = elim (Option-cases (index m key)) [
  | inl none_found ↦ cc
  | inr (value, found) ↦
      let e = length-append_pairs m order (pairs ++ key ∷ value ∷ []) a.1 in
      let f = length-append pairs (key ∷ value ∷ []) in rw found (omega arith)
]

-- The texts that are given to the mux for a map are three for each of its keys: the slice that is
-- made for them already holds an empty text for each, and they are appended to it. The mux expects
-- two for each.
pub length-header_pairs :
    (m : Dict String) (order : List String)
    → All (λ key. is_some (index m key) ≡ true) order
    → length (header_pairs order m) ≡ 3 * length order
unfolding header_pairs
length-header_pairs m order a =
    let e = length-append_pairs m order (empty_texts (length order)) a in
    let f = length-empty_texts (length order) in omega arith
