-- ===== src/Server/Grpc/Leaking.antt =====
-- What `Handle` leaves behind when it has returned.
use cruiser.Base.{Bool, true, false, ◌≡◌, refl, sym, ap, ◌∙◌, arith}
use cruiser.Server.Grpc.{Side, receiving, sending}
use cruiser.Server.Grpc.Goroutines.{
  Work, works, offers, delivered, over, Handling, loops, returned, HandleCall, put, Step, returns,
  receives, closes, receives_closed, ends, Steps, here, next,
}

abbrev pub is_returned : Handling → Bool
is_returned (loops left) = false
is_returned (returned result) = true

-- The goroutine has not handed over its result.
abbrev pub is_left : Work → Bool
is_left works = true
is_left (offers result) = true
is_left delivered = false
is_left over = false

step-returned :
    {c d : HandleCall} → Step c d → is_returned c.handling ≡ true → is_returned d.handling ≡ true
step-returned (returns side result e) h = h
step-returned (receives side result left e n o) h = ground (arith, e)
step-returned (closes side e) h = h
step-returned (receives_closed side left e n o) h = ground (arith, e)
step-returned (ends e) h = refl

put-left :
    (s side : Side) (w : Work) (f : Side → Work)
    → is_left w ≡ true
    → is_left (f side) ≡ true
    → is_left (put s w f side) ≡ true
put-left receiving receiving w f h k = h
put-left receiving sending w f h k = k
put-left sending receiving w f h k = k
put-left sending sending w f h k = h

put-over-left :
    (s side : Side) (f : Side → Work)
    → f s ≡ delivered
    → is_left (f side) ≡ true
    → is_left (put s over f side) ≡ true
put-over-left receiving receiving f e k = sym (ap is_left e) ∙ k
put-over-left receiving sending f e k = k
put-over-left sending receiving f e k = k
put-over-left sending sending f e k = sym (ap is_left e) ∙ k

step-left :
    {c d : HandleCall} (side : Side)
    → Step c d
    → is_returned c.handling ≡ true
    → is_left (c.work side) ≡ true
    → is_left (d.work side) ≡ true
step-left {c} side (returns s result e) h k = put-left s side (offers result) c.work refl k
step-left side (receives s result left e n o) h k = ground (arith, e)
step-left {c} side (closes s e) h k = put-over-left s side c.work e k
step-left side (receives_closed s left e n o) h k = k
step-left side (ends e) h k = k

stays_returned :
    {c d : HandleCall} → Steps c d → is_returned c.handling ≡ true → is_returned d.handling ≡ true
stays_returned here h = h
stays_returned (next s l) h = step-returned l (stays_returned s h)

-- Once `Handle` has returned, a goroutine that has not handed over the result of its flow never
-- does: in every later state it is in its flow or at the send, and its channel is not closed.
pub left_for_good :
    (c d : HandleCall) (side : Side)
    → is_returned c.handling ≡ true
    → is_left (c.work side) ≡ true
    → Steps c d
    → is_left (d.work side) ≡ true
left_for_good c d side h k here = k
left_for_good c d side h k (next s l) =
    step-left side l (stays_returned s h) (left_for_good c _ side h k s)
