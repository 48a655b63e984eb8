-- ===== src/Server/Grpc/Goroutines.antt =====
-- pkg/server/grpc.go: `Handle` and the goroutines of its two flows, as steps over the channels that
-- they share, which have no buffer.
use cruiser.Base.{ℕ, zero, suc, Bool, true, false, Option, none, some, Error, if◌then◌else◌, ◌≡◌}
use cruiser.Server.Grpc.{Side, receiving, sending}

-- The goroutine of `wrapGrpcFlow`: in its flow; at the send of what the flow returned; behind the
-- send, with the channel to close; or at its end, with the channel closed.
pub data Work : Type 0 where
  works : Work
  offers : Option Error → Work
  delivered over : Work

-- `Handle`: in its loop, with the iterations that are left, or at its end.
pub data Handling : Type 0 where
  loops : (left : ℕ) → Handling
  returned : Option Error → Handling

-- `is_nil` says that the handler has set its variable to nil.
pub record HandleCall : Type 0 where
  pub work : Side → Work
  pub is_nil : Side → Bool
  pub handling : Handling

abbrev pub same_side : Side → Side → Bool
same_side receiving receiving = true
same_side sending sending = true
same_side _ _ = false

abbrev pub put : {A : Type 0} → Side → A → (Side → A) → Side → A
put side a f other = if same_side side other then a else f other

abbrev pub new_handle_call : HandleCall
new_handle_call = record { work = λ _. works; is_nil = λ _. false; handling = loops 4 }

-- What follows the receive of a result, with the iterations that are left behind it.
abbrev pub on_result : Option Error → ℕ → Handling
on_result none left = loops left
on_result (some e) left = returned (some e)

pub data Step : HandleCall → HandleCall → Type 0 where
  returns :
      {c : HandleCall} (side : Side) (result : Option Error)
      → c.work side ≡ works
      → Step c (record c { work = put side (offers result) c.work })
  receives :
      {c : HandleCall} (side : Side) (result : Option Error) (left : ℕ)
      → c.handling ≡ loops (suc left)
      → c.is_nil side ≡ false
      → c.work side ≡ offers result
      → Step c (record c { work = put side delivered c.work; handling = on_result result left })
  closes :
      {c : HandleCall} (side : Side)
      → c.work side ≡ delivered
      → Step c (record c { work = put side over c.work })
  receives_closed :
      {c : HandleCall} (side : Side) (left : ℕ)
      → c.handling ≡ loops (suc left)
      → c.is_nil side ≡ false
      → c.work side ≡ over
      → Step c (record c { is_nil = put side true c.is_nil; handling = loops left })
  ends : {c : HandleCall} → c.handling ≡ loops zero → Step c (record c { handling = returned none })

pub data Steps (c : HandleCall) : HandleCall → Type 0 where
  here : Steps c c
  next : {d e : HandleCall} → Steps c d → Step d e → Steps c e
