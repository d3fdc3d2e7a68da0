-- ===== src/Http/Request/Replies.antt =====
-- What a client is sent in the end: `do_request` and then `process` of http_conn.cpp.
use ai_inference_gateway.Prelude.{
  ℕ, ◌≡◌, refl, sym, ap, subst, ◌∙◌, Bool, [], ◌++◌, Bytes, codes, length, Option, none, some,
  if◌then◌else◌, arith, List, ◌∷◌, map, same,
}
use ai_inference_gateway.Prelude.Int.{ℤ}
use ai_inference_gateway.Task.{InferenceTask}
use ai_inference_gateway.Http.{HttpConn, json_response}
use ai_inference_gateway.Http.CString.{c_str}
use ai_inference_gateway.Http.Response.{set_response_body, process_write, crlf}
use ai_inference_gateway.Http.Response.Answer.{IsFilled, Sends, reply, message, process_write_lem}
use ai_inference_gateway.Http.Request.{
  submits, plan, error_body, respond, do_request, process, epoll_out,
}

-- The header of the JSON answers.
abbrev pub json_type : Bytes
json_type = codes "Content-Type: application/json" ++ crlf

-- Since no zero byte stands in the texts that the code gives, `c_str` of them is themselves.
set_response_body_kept :
    (body : Bytes) (c : HttpConn)
    → let c' = set_response_body body c in
      (c'.m_write_buf ≡ c.m_write_buf)
      × (c'.m_write_idx ≡ c.m_write_idx)
      × (c'.m_write_buf_size ≡ c.m_write_buf_size)
      × (c'.m_linger ≡ c.m_linger)
      × (c'.m_response_status ≡ c.m_response_status)
      × (c'.m_response_body ≡ c_str body)
unfolding set_response_body
set_response_body_kept body c = ground arith

-- A connection with a JSON body to send, once its answer is known.
sent_json :
    (d : HttpConn) (users : ℤ) (text : Bytes)
    → d.m_write_buf ≡ []
    → IsFilled d
    → reply json_response d ≡ some (text, 0)
    → let (event, sent, users') = process json_response d users in
      (event ≡ epoll_out) × (users' ≡ users) × (sent.m_write_buf ≡ text)
unfolding process
sent_json d users text e v r =
    let s : Sends d (some (text, 0)) (process_write json_response d) =
      subst (λ o. Sends d o (process_write json_response d)) r
        (process_write_lem json_response d e v) in
    ground (arith, s)

-- The two answers of `do_request` for a submitted task, with any body.
busy_json :
    (body : Bytes) (c : HttpConn) (users : ℤ)
    → c.m_write_buf ≡ []
    → IsFilled c
    → let (event, sent, users') =
        process json_response
          (record (set_response_body body c) { m_response_status = 503 })
          users in
      (event ≡ epoll_out)
      × (users' ≡ users)
      × (sent.m_write_buf
          ≡ message c.m_linger 503
              (codes "Service Unavailable")
              json_type
              (length (c_str body))
              (c_str body))
busy_json body c users e v =
    let d = record (set_response_body body c) { m_response_status = 503 } in
    let (buf, idx, size, linger, status, text) = set_response_body_kept body c in
    sent_json d users _ (buf ∙ e)
      (record {
        counted = ap length buf ∙ v.counted ∙ sym idx;
        room = omega (arith, v.room, idx, size);
      })
      (rw (linger, text) refl)

-- On a connection with an empty write buffer, a request whose task the scheduler refuses is answered
-- with status 503 and the message of an overload, and the connection asks to be written to.
pub refused_reply :
    {F : Type 0} (strtof : Bytes → F × Bytes) (show : F → Bytes) (scheduler : Bool) (deadline : ℕ)
    (submit : InferenceTask F → Option (InferenceTask F)) (c : HttpConn) (t : InferenceTask F)
    (users : ℤ)
    → c.m_write_buf ≡ []
    → IsFilled c
    → plan strtof scheduler deadline c ≡ submits t
    → submit t ≡ none
    → let (code, c') = do_request strtof show scheduler deadline submit c in
      let (event, sent, users') = process code c' users in
      let body = error_body (codes "server overloaded, queue full") in
      (event ≡ epoll_out)
      × (users' ≡ users)
      × (sent.m_write_buf
          ≡ message c.m_linger 503 (codes "Service Unavailable") json_type (length body) body)
unfolding do_request respond process c_str
refused_reply strtof show scheduler deadline submit c t users e v planned refused =
    rw (planned, do_request, refused, respond)
      (busy_json (error_body (codes "server overloaded, queue full")) c users e v)

-- Texts with a comma between each two.
abbrev pub commas : List Bytes → Bytes
commas [] = []
commas (x ∷ []) = x
commas (x ∷ y ∷ rest) = x ++ b',' ∷ commas (y ∷ rest)

-- What the client of a task that has come back should read: the timeout; the model and the output's
-- numbers, up to a zero byte in the model's name; or the error's text up to its first zero byte, with one
-- for an error that has no text.
abbrev pub reply_body : {F : Type 0} → (F → Bytes) → InferenceTask F → Bytes
reply_body show t =
    if t.timeout
    then codes "{\"status\":\"error\",\"msg\":\"inference timeout\"}"
    else if t.success
    then c_str (
        codes "{\"status\":\"ok\",\"model\":\""
        ++ (t.model_name
            ++ (codes "\",\"output\":[" ++ (commas (map show t.output_data) ++ codes "]}"))))
    else codes "{\"status\":\"error\",\"msg\":\""
      ++ ((if same t.error_msg [] then codes "inference failed" else c_str t.error_msg)
          ++ codes "\"}")
