-- ===== src/Server/Swap/Tests.antt =====
-- Two handlers, of which the second is not stored yet; and a handler that was closed.
use cruiser.Base.{ℕ, true, [], ◌∷◌, none, some, ok, panic, ◌≡◌, refl}
use cruiser.Server.Swap.{
  SwapHandler, new_swap_handler, serve_http, swap, close, Steps, swaps, stores, here, next,
}
use cruiser.Server.Swap.Serving.{serves_last_swapped, closed_panics}

abbrev two : SwapHandler ℕ
two = record new_swap_handler { handler = some 1; holding = some 2; swapped = 2 ∷ 1 ∷ [] }

two_swaps : Steps new_swap_handler two
unfolding swap
two_swaps = next (next (next here (swaps 1 refl)) (stores 1 refl)) (swaps 2 refl)

serves_last_swapped_example : serve_http two ≡ ok 1
serves_last_swapped_example = serves_last_swapped two two_swaps

abbrev shut : SwapHandler ℕ
shut = record two { closed = true }

abbrev done : SwapHandler ℕ
done = record shut { handler = some 2; holding = none }

closed_panics_example :
    (done.swapped ≡ shut.swapped)
    × (swap 3 done ≡ some (done, panic))
    × (close done ≡ (done, panic))
closed_panics_example = closed_panics shut done 3 refl (next here (stores 2 refl))
