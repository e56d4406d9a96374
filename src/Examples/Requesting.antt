-- ===== src/Examples/Requesting.antt =====
-- A request whose response comes in time, while another request is under way.
use pybus.Codec.{end, text}
use pybus.Durable.Envelope.{MessageEnvelope}
use pybus.Listener.{ResponseMessage}
use pybus.Prelude.{List, [], arith, none, refl, some, ◌∷◌, ◌≡◌}
use pybus.Prelude.Exec.{ok}
use pybus.Requests.{
  PayloadCodec, RequestMessage, RequestResponseCoordinator, begin_wait, evict_expired,
  new_coordinator, poll_response, prepare_request, prepare_response, store_correlated,
  store_response,
}
use pybus.Requests.Answers.{wait_gets_response}
use pybus.Requests.Laws.{
  Step, answer_correlated, beginning, late_response_dropped, polling, run_step, run_steps, storing,
  taking,
}

abbrev plain_codec : PayloadCodec
plain_codec = record { encode_headers = λ h. h; encode_payload = λ v h. v }

abbrev rate_request : RequestMessage
rate_request = record {
  request_type = "rates.get";
  request_version = 1;
  request_payload = text "EUR";
  request_headers = end;
  given_correlation = some "c1";
  given_causation = none;
  request_content_type = none;
  request_content_encoding = none;
}

abbrev rate_response : ResponseMessage
rate_response = record {
  message_type = "rates.got";
  version = 1;
  payload = text "1.1";
  headers = end;
  expires_at = none;
  content_type = none;
  content_encoding = none;
}

abbrev rate_envelope : MessageEnvelope
rate_envelope =
    (prepare_request plain_codec rate_request (some 5) none "pybus.responses" 10 "q1" "c9").0

abbrev rate_answer : MessageEnvelope
rate_answer = prepare_response plain_codec rate_envelope rate_response none 12 "a1"

abbrev early_steps : List Step
early_steps = polling "c1" (some 16) 11 ∷ beginning "c3" none 11 ∷ polling "c1" (some 16) 12 ∷ []

abbrev other_steps : List Step
other_steps = beginning "c2" (some 5) 13 ∷ taking "c2" ∷ []

abbrev answered_coordinator : RequestResponseCoordinator
answered_coordinator =
    (store_response rate_answer 12
      (run_steps early_steps (begin_wait "c1" (some 5) 11 new_coordinator).1)).1

wait_gets_response_example :
    (poll_response "c1" (some 16) 20 (run_steps other_steps answered_coordinator)).0
    ≡ ok (some rate_answer)
unfolding prepare_request
wait_gets_response_example =
    wait_gets_response plain_codec rate_request rate_response none none "pybus.responses" "q1" "c9"
      "a1" 10 12 5 11 12 20 early_steps other_steps new_coordinator refl refl (omega arith)
      (refl, (refl, (refl, tt))) (refl, (refl, tt))

abbrev rate_steps : List Step
rate_steps = beginning "c1" (some 5) 11 ∷ storing rate_answer 12 ∷ []

answer_correlated_example : rate_answer.correlation_id ≡ some "c1"
unfolding poll_response run_steps run_step store_response store_correlated evict_expired begin_wait
    prepare_request prepare_response
answer_correlated_example = answer_correlated rate_steps "c1" (some 16) 13 rate_answer refl

late_response_dropped_example :
    let after = (store_response rate_answer 17 (begin_wait "c1" (some 5) 11 new_coordinator).1).1 in
    (after.responses "c1" ≡ none) × (after.deadlines "c1" ≡ none)
unfolding begin_wait prepare_request prepare_response
late_response_dropped_example =
    late_response_dropped rate_answer "c1" 16 17 (begin_wait "c1" (some 5) 11 new_coordinator).1
      refl refl refl (omega arith)
