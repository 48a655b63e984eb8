-- ===== src/Aws/HttpBackend/Headers.antt =====
-- Which headers the two loops over those of an answer leave.
use cruiser.Base.{
  String, Bool, true, false, List, [], ◌∷◌, ◌++◌, Option, none, some, ◌==◌, Dict, index, assign,
  index-assign, eq_iff, if◌then◌else◌, ◌≡◌, refl, sym, ap, ◌∙◌,
}
use mathlib.Core.List.{append-nil, append_assoc}
use cruiser.Server.Grpc.{Metadata}
use cruiser.Aws.HttpBackend.{add_header, add_headers, set_headers}

-- The last values that a list of headers has under a name.
abbrev pub last_values : String → Metadata → Option (List String)
last_values n [] = none
last_values n ((key, vals) ∷ rest) =
    let later = last_values n rest in
    elim later [ some vs ↦ some vs | none ↦ if key == n then some vals else none ]

-- The values whose names have the canonical form, in order.
abbrev pub values_for : (String → String) → String → Dict String → List String
values_for canonical n [] = []
values_for canonical n ((key, val) ∷ rest) =
    let later = values_for canonical n rest in if canonical key == n then val ∷ later else later

abbrev pub or_else : Option (List String) → Option (List String) → Option (List String)
or_else (some vs) o = some vs
or_else none o = o

-- The values before and those behind them, if there are any.
abbrev pub joined : Option (List String) → List String → Option (List String)
joined none [] = none
joined none (v ∷ vs) = some (v ∷ vs)
joined (some us) vs = some (us ++ vs)

set_headers-last_values :
    (m h : Metadata) (n : String)
    → index (set_headers m h) n ≡ or_else (last_values n m) (index h n)
set_headers-last_values [] h n = refl
set_headers-last_values ((key, vals) ∷ rest) h n =
    set_headers-last_values rest (assign h key vals) n
    ∙ ap (or_else (last_values n rest)) (index-assign h key vals n)
    ∙ later (last_values n rest) (key == n)
  where
    later :
        (o : Option (List String)) (b : Bool)
        → or_else o (if b then some vals else index h n)
          ≡ or_else
              (elim o [ some vs ↦ some vs | none ↦ if b then some vals else none ])
              (index h n)
    later (some vs) b = refl
    later none true = refl
    later none false = refl

-- `Add` behind the values that there are.
abbrev added : String → Option (List String) → List String
added val none = val ∷ []
added val (some vals) = vals ++ val ∷ []

added-joined :
    (val : String) (o : Option (List String)) (vs : List String)
    → joined (some (added val o)) vs ≡ joined o (val ∷ vs)
added-joined val none vs = refl
added-joined val (some us) vs = ap some (append_assoc us (val ∷ []) vs)

joined-if :
    (b : Bool) (val : String) (o p : Option (List String)) (vs : List String)
    → (b ≡ true → o ≡ p)
    → joined (if b then some (added val o) else p) vs ≡ joined p (if b then val ∷ vs else vs)
joined-if true val o p vs same = added-joined val o vs ∙ ap (λ q. joined q (val ∷ vs)) (same refl)
joined-if false val o p vs same = refl

add_header-joined :
    (canonical : String → String) (key val : String) (h : Metadata) (n : String) (vs : List String)
    → joined (index (add_header canonical key val h) n) vs
      ≡ joined (index h n) (if canonical key == n then val ∷ vs else vs)
add_header-joined canonical key val h n vs =
    ap (λ o. joined o vs)
      (index-assign h (canonical key)
        (elim (index h (canonical key)) [ none ↦ val ∷ [] | some vals ↦ vals ++ val ∷ [] ]) n)
    ∙ joined-if (canonical key == n) val (index h (canonical key)) (index h n) vs
        (λ same. ap (index h) ((eq_iff (canonical key) n).0 same))

add_headers-values_for :
    (canonical : String → String) (hs : Dict String) (h : Metadata) (n : String)
    → index (add_headers canonical hs h) n ≡ joined (index h n) (values_for canonical n hs)
add_headers-values_for canonical [] h n = nothing (index h n)
  where
    nothing : (o : Option (List String)) → o ≡ joined o []
    nothing none = refl
    nothing (some us) = ap some (sym (append-nil us))
add_headers-values_for canonical ((key, val) ∷ rest) h n =
    add_headers-values_for canonical rest (add_header canonical key val h) n
    ∙ add_header-joined canonical key val h n (values_for canonical n rest)

-- The values that an answer gives for a name: the last of its lists of values, and behind them those
-- of its single headers.
abbrev pub answer_values :
    (String → String) → String → Metadata → Dict String → Option (List String)
answer_values canonical n multi single =
    joined (last_values n multi) (values_for canonical n single)

pub headers-answer_values :
    (canonical : String → String) (multi : Metadata) (single : Dict String) (n : String)
    → index (add_headers canonical single (set_headers multi [])) n
      ≡ answer_values canonical n multi single
unfolding index
headers-answer_values canonical multi single n =
    add_headers-values_for canonical single (set_headers multi []) n
    ∙ ap (λ o. joined o (values_for canonical n single))
        (set_headers-last_values multi [] n ∙ none_there (last_values n multi))
  where
    none_there : (o : Option (List String)) → or_else o none ≡ o
    none_there none = refl
    none_there (some vs) = refl
