-- ===== src/Aws/Discovery/Ports.antt =====
-- The port that a tag gives.
use cruiser.Base.{
  ℕ, suc, ◌+◌, ◌≤◌, ◌<◌, ◌^◌, String, some, ℤ, pos, negsuc, IsInt32, to_uint32, ◌≡◌, refl, arith,
}
use cruiser.Aws.Discovery.{Registry, port_of}

-- How a port stands to the number in the text: it is the number, or the number was negative and has
-- wrapped around.
abbrev pub Wraps : ℤ → ℕ → Type 0
Wraps (pos n) p = (p ≡ n) × (p < 2 ^ 31)
Wraps (negsuc n) p = (p + suc n ≡ 2 ^ 32) × (2 ^ 31 ≤ p)

to_uint32-Wraps : (i : ℤ) → IsInt32 i → Wraps i (to_uint32 i)
unfolding to_uint32
to_uint32-Wraps (pos n) h = (omega arith, omega arith)
to_uint32-Wraps (negsuc n) h = (omega arith, omega arith)

to_uint32_lt : (i : ℤ) → IsInt32 i → to_uint32 i < 2 ^ 32
unfolding to_uint32
to_uint32_lt (pos n) h = omega arith
to_uint32_lt (negsuc n) h = omega arith

-- For a text that `ParseInt` reads as a value of 32 bits, the port of an endpoint is less than 2 to
-- the 32. If the number is not negative then the port is the number, and below 2 to the 31; if it
-- is negative then the port is the number plus 2 to the 32, which is not below 2 to the 31: the
-- conversion rejects neither it nor a number that is too large for a port.
pub port_of_bounds :
    (D : Registry) (text : String) (i : ℤ)
    → D.parse_int text ≡ some i
    → IsInt32 i
    → (p : ℕ) × (port_of D text ≡ some p) × (p < 2 ^ 32) × Wraps i p
port_of_bounds D text i e h =
    (to_uint32 i, rw (e, port_of) refl, to_uint32_lt i h, to_uint32-Wraps i h)
