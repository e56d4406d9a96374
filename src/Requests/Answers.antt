-- ===== src/Requests/Answers.antt =====
-- From a request to its response: src/pybus/request_response.py.
use pybus.Durable.Envelope.{MessageEnvelope}
use pybus.Durable.Queries.{or_text}
use pybus.Listener.{ResponseMessage}
use pybus.Prelude.{
  All, List, Option, String, eq_refl, false, none, refl, some, true, ℕ, ◌+◌, ◌<◌, ◌==◌, ◌≡◌,
}
use pybus.Prelude.Exec.{ok}
use pybus.Requests.{
  PayloadCodec, RequestMessage, RequestResponseCoordinator, begin_wait, poll_response,
  prepare_request, prepare_response, store_response,
}
use pybus.Requests.Laws.{Step, run_steps}
use pybus.Requests.Waiting.{Waits, early_steps-Waits, is_early, is_quiet, steps-Waits, stored-Waits}

-- A wait for the ticket of a request returns the response that was prepared for the request, if the
-- correlation id is not empty and no response is kept under it when the wait begins, the response is
-- stored after the wait has begun and before its deadline, and the other steps of the threads, before the
-- store and after it, do not concern the wait, but for its own looks in time before the store, and store
-- other responses only before the deadline.
pub wait_gets_response :
    (codec : PayloadCodec) (m : RequestMessage) (response : ResponseMessage)
    (message_id response_id : Option String)
    (reply_to fresh_request fresh_correlation fresh_response : String)
    (created_at answered_at timeout begun_at stored_at now : ℕ) (before after : List Step)
    (k : RequestResponseCoordinator)
    → (or_text m.given_correlation fresh_correlation == "") ≡ false
    → k.responses (or_text m.given_correlation fresh_correlation) ≡ none
    → stored_at < begun_at + timeout
    → All
        (λ s.
          is_early (or_text m.given_correlation fresh_correlation) (begun_at + timeout) s ≡ true)
        before
    → All
        (λ s.
          is_quiet (or_text m.given_correlation fresh_correlation) (begun_at + timeout) s ≡ true)
        after
    → let (e, ticket) =
        prepare_request codec m
          (some timeout)
          message_id
          reply_to
          created_at
          fresh_request
          fresh_correlation in
      let answer = prepare_response codec e response response_id answered_at fresh_response in
      let c = ticket.ticket_correlation in
      let waiting = run_steps before (begin_wait c (some timeout) begun_at k).1 in
      let answered = (store_response answer stored_at waiting).1 in
      (poll_response c (some (begun_at + timeout)) now (run_steps after answered)).0
      ≡ ok (some answer)
unfolding prepare_request prepare_response begin_wait poll_response
wait_gets_response codec m response message_id response_id reply_to f1 f2 f3 created_at answered_at
      timeout begun_at stored_at now before after k named new_id in_time early quiet =
    let c : String = or_text m.given_correlation f2 in
    let e : MessageEnvelope =
      (prepare_request codec m (some timeout) message_id reply_to created_at f1 f2).0 in
    let answer : MessageEnvelope = prepare_response codec e response response_id answered_at f3 in
    let d : ℕ = begun_at + timeout in
    let begun : RequestResponseCoordinator = (begin_wait c (some timeout) begun_at k).1 in
    let open_wait : Waits c d none begun = record { kept = new_id; due = rw (eq_refl c) } in
    let waiting : Waits c d none (run_steps before begun) =
      early_steps-Waits c d before begun early open_wait in
    let kept : Waits c d (some answer)
        (store_response answer stored_at (run_steps before begun)).1 =
      stored-Waits c d answer stored_at (run_steps before begun) refl named waiting.due in_time in
    let still =
      steps-Waits c d after (some answer)
        (store_response answer stored_at (run_steps before begun)).1 quiet kept in
    rw (poll_response, still.kept)
