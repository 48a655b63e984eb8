-- ===== src/Server/Grpc/Handling.antt =====
-- What `Handle` returns, whatever the order in which its two flows end.
use cruiser.Base.{
  ℕ, zero, suc, List, [], ◌∷◌, none, some, Error, ◌≡◌, refl, arith, ◌⊎◌, inl, inr, ◌+◌, ◌≤◌,
}
use cruiser.Server.Grpc.{
  FlowChannel, running, result, closing, nil_channel, Side, receiving, sending, handle_flows,
  handle,
}

-- How many receives from the channel let the loop go on.
abbrev pub receives_left : FlowChannel → ℕ
receives_left running = 0
receives_left (result none) = 2
receives_left (result (some _)) = 0
receives_left closing = 1
receives_left nil_channel = 0

abbrev pub takes_receiving : List Side → ℕ
takes_receiving [] = 0
takes_receiving (receiving ∷ picks) = 1 + takes_receiving picks
takes_receiving (sending ∷ picks) = takes_receiving picks

abbrev pub takes_sending : List Side → ℕ
takes_sending [] = 0
takes_sending (receiving ∷ picks) = takes_sending picks
takes_sending (sending ∷ picks) = 1 + takes_sending picks

iterations_bounded :
    (n : ℕ) (picks : List Side) (r s : FlowChannel)
    → handle_flows n picks r s ≡ some none
    → n ≤ receives_left r + receives_left s
unfolding handle_flows
iterations_bounded zero picks r s h = omega arith
iterations_bounded (suc n) [] r s h = cc
iterations_bounded (suc n) (receiving ∷ picks) running s h = cc
iterations_bounded (suc n) (receiving ∷ picks) (result none) s h =
    let b = iterations_bounded n picks closing s h in omega arith
iterations_bounded (suc n) (receiving ∷ picks) (result (some e)) s h = ground arith
iterations_bounded (suc n) (receiving ∷ picks) closing s h =
    let b = iterations_bounded n picks nil_channel s h in omega arith
iterations_bounded (suc n) (receiving ∷ picks) nil_channel s h = cc
iterations_bounded (suc n) (sending ∷ picks) r running h = cc
iterations_bounded (suc n) (sending ∷ picks) r (result none) h =
    let b = iterations_bounded n picks r closing h in omega arith
iterations_bounded (suc n) (sending ∷ picks) r (result (some e)) h = ground arith
iterations_bounded (suc n) (sending ∷ picks) r closing h =
    let b = iterations_bounded n picks r nil_channel h in omega arith
iterations_bounded (suc n) (sending ∷ picks) r nil_channel h = cc

at_most_two : (r : FlowChannel) → receives_left r ≤ 2
at_most_two running = omega arith
at_most_two (result none) = omega arith
at_most_two (result (some _)) = omega arith
at_most_two closing = omega arith
at_most_two nil_channel = omega arith

two-result : (r : FlowChannel) → 2 ≤ receives_left r → r ≡ result none
two-result running h = ground arith
two-result (result none) h = refl
two-result (result (some _)) h = ground arith
two-result closing h = ground arith
two-result nil_channel h = ground arith

-- Whichever cases the four `select` take, `Handle` returns no error only if both flows have ended
-- and neither with an error.
pub handle_succeeds :
    (picks : List Side) (r s : FlowChannel)
    → handle picks r s ≡ some none
    → (r ≡ result none) × (s ≡ result none)
unfolding handle
handle_succeeds picks r s h =
    let b = iterations_bounded 4 picks r s h in
    let br = at_most_two r in
    let bs = at_most_two s in (two-result r (omega arith), two-result s (omega arith))

error_from :
    (n : ℕ) (picks : List Side) (r s : FlowChannel) (e : Error)
    → handle_flows n picks r s ≡ some (some e)
    → (r ≡ result (some e)) ⊎ (s ≡ result (some e))
unfolding handle_flows
error_from zero picks r s e h = cc
error_from (suc n) [] r s e h = cc
error_from (suc n) (receiving ∷ picks) running s e h = cc
error_from (suc n) (receiving ∷ picks) (result none) s e h =
    elim (error_from n picks closing s e h) [ inl x ↦ cc | inr y ↦ inr y ]
error_from (suc n) (receiving ∷ picks) (result (some x)) s e h = inl cc
error_from (suc n) (receiving ∷ picks) closing s e h = elim (error_from n picks nil_channel s e h) [
  | inl x ↦ cc
  | inr y ↦ inr y
]
error_from (suc n) (receiving ∷ picks) nil_channel s e h = cc
error_from (suc n) (sending ∷ picks) r running e h = cc
error_from (suc n) (sending ∷ picks) r (result none) e h = elim (error_from n picks r closing e h) [
  | inl x ↦ inl x
  | inr y ↦ cc
]
error_from (suc n) (sending ∷ picks) r (result (some x)) e h = inr cc
error_from (suc n) (sending ∷ picks) r closing e h = elim (error_from n picks r nil_channel e h) [
  | inl x ↦ inl x
  | inr y ↦ cc
]
error_from (suc n) (sending ∷ picks) r nil_channel e h = cc

-- An error that `Handle` returns is the one of one of its flows.
pub handle_fails :
    (picks : List Side) (r s : FlowChannel) (e : Error)
    → handle picks r s ≡ some (some e)
    → (r ≡ result (some e)) ⊎ (s ≡ result (some e))
unfolding handle
handle_fails picks r s e h = error_from 4 picks r s e h

flows_end :
    (n : ℕ) (picks : List Side) (r s : FlowChannel)
    → takes_receiving picks ≡ receives_left r
    → takes_sending picks ≡ receives_left s
    → n ≡ receives_left r + receives_left s
    → handle_flows n picks r s ≡ some none
unfolding handle_flows
flows_end zero picks r s p q m = refl
flows_end (suc n) [] r s p q m = ground arith
flows_end (suc n) (receiving ∷ picks) running s p q m = ground arith
flows_end (suc n) (receiving ∷ picks) (result none) s p q m =
    flows_end n picks closing s (omega arith) q (omega arith)
flows_end (suc n) (receiving ∷ picks) (result (some e)) s p q m = ground arith
flows_end (suc n) (receiving ∷ picks) closing s p q m =
    flows_end n picks nil_channel s (omega arith) q (omega arith)
flows_end (suc n) (receiving ∷ picks) nil_channel s p q m = ground arith
flows_end (suc n) (sending ∷ picks) r running p q m = ground arith
flows_end (suc n) (sending ∷ picks) r (result none) p q m =
    flows_end n picks r closing p (omega arith) (omega arith)
flows_end (suc n) (sending ∷ picks) r (result (some e)) p q m = ground arith
flows_end (suc n) (sending ∷ picks) r closing p q m =
    flows_end n picks r nil_channel p (omega arith) (omega arith)
flows_end (suc n) (sending ∷ picks) r nil_channel p q m = ground arith

-- When both flows end without an error, `Handle` returns no error in every order in which it takes
-- the result and the closing of each.
pub handle_returns :
    (picks : List Side)
    → takes_receiving picks ≡ 2
    → takes_sending picks ≡ 2
    → handle picks (result none) (result none) ≡ some none
unfolding handle
handle_returns picks p q = flows_end 4 picks (result none) (result none) p q refl
