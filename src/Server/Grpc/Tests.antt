-- ===== src/Server/Grpc/Tests.antt =====
-- gRPC calls of backends that record their requests, or read their responses from a list.
use cruiser.Base.{true, List, [], ◌∷◌, ◌++◌, Option, none, some, ok, eof, ◌≡◌, refl, arith}
use cruiser.Server.Grpc.{
  Bytes, Metadata, Response, MethodBackend, grpc_receive_from, grpc_send_from, result, receiving,
  sending, handle, handle_flows,
}
use cruiser.Server.Grpc.Receiving.{begun_end, begin_call, grpc_receive_from-for_each}
use cruiser.Server.Grpc.Sending.{recorder, answered, grpc_send_from-Answers}
use cruiser.Server.Grpc.Goroutines.{
  HandleCall, offers, delivered, over, returned, put, new_handle_call, returns, receives, closes,
}
use cruiser.Server.Grpc.Goroutines
use cruiser.Server.Grpc.Leaking.{is_left, left_for_good}
use cruiser.Server.Grpc.Handling.{handle_succeeds}

-- The state is the requests, and the responses that are left.
abbrev Script : Type 0
Script = List Bytes × List Response

abbrev take_first : List Bytes → List Response → Script × Option Response
take_first asked [] = ((asked, []), none)
take_first asked (r ∷ rs) = ((asked, rs), some r)

abbrev backend : MethodBackend Script
backend = record {
  begin = λ _ s. (s, ok tt);
  request = λ frame s. ((s.0 ++ frame ∷ [], s.1), ok tt);
  response = λ s. take_first s.0 s.1;
}

abbrev frames : List Bytes
frames = (1 ∷ []) ∷ (2 ∷ 3 ∷ []) ∷ []

grpc_receive_from-for_each_example :
    grpc_receive_from backend (some []) frames eof ([], [])
    ≡ begun_end backend eof frames (begin_call backend (some []) ([], []))
grpc_receive_from-for_each_example =
    grpc_receive_from-for_each backend (some []) frames eof ([], [])

abbrev header : Metadata
header = ("k", "v" ∷ []) ∷ []

abbrev script : Script
script = (
  [],
  answered (some header, 1 ∷ []) none
      ∷ answered (some header, 2 ∷ []) none
      ∷ answered (none, 3 ∷ []) (some eof)
      ∷ [],
)

grpc_send_from-Answers_example :
    grpc_send_from backend recorder 5 (script, record { headers = []; payloads = [] })
    ≡ some (
      (([], []), record { headers = header ∷ []; payloads = (1 ∷ []) ∷ (2 ∷ []) ∷ (3 ∷ []) ∷ [] }),
      ok tt,
    )
grpc_send_from-Answers_example =
    grpc_send_from-Answers backend ((some header, 1 ∷ []) ∷ (some header, 2 ∷ []) ∷ [])
      (none, 3 ∷ []) 5 script ([], []) record { headers = []; payloads = [] }
      (_, refl, (_, refl, refl)) (omega arith)

handled :
    handle (sending ∷ receiving ∷ receiving ∷ sending ∷ []) (result none) (result none) ≡ some none
unfolding handle handle_flows
handled = refl

handle_succeeds_example : (result none ≡ result none) × (result none ≡ result none)
handle_succeeds_example =
    handle_succeeds (sending ∷ receiving ∷ receiving ∷ sending ∷ []) (result none) (result none)
      handled

-- The flow of the requests has failed and that of the responses is at its send.
abbrev failed_call : HandleCall
failed_call = record {
  work =
      put sending (offers none)
        (put receiving delivered (put receiving (offers (some eof)) new_handle_call.work));
  is_nil = new_handle_call.is_nil;
  handling = returned (some eof);
}

failed : Goroutines.Steps new_handle_call failed_call
failed =
    Goroutines.next
      (Goroutines.next (Goroutines.next Goroutines.here (returns receiving (some eof) refl))
        (receives receiving (some eof) 3 refl refl refl))
      (returns sending none refl)

left_for_good_example : is_left (put receiving over failed_call.work sending) ≡ true
left_for_good_example =
    left_for_good failed_call (record failed_call { work = put receiving over failed_call.work })
      sending refl refl (Goroutines.next Goroutines.here (closes receiving refl))
