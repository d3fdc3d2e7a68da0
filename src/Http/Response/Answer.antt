-- ===== src/Http/Response/Answer.antt =====
-- What http_conn.cpp puts into the write buffer: appends keep the buffer within its allocation, and
-- `process_write` leaves one whole HTTP message with the right length.
use ai_inference_gateway.Prelude.{
  ℕ, ◌+◌, ◌≤◌, ◌<◌, ◌≡◌, refl, ap, Bool, true, false, [], ◌++◌, Bytes, codes, Option, none, some,
  if◌then◌else◌, ◌==◌, length, length-append, append_assoc, append-nil, Bool-cases, arith, inl, inr,
}
use ai_inference_gateway.Prelude.Int.{pos}
use ai_inference_gateway.Http.{
  HttpConn, HttpCode, init_buffer_size, no_request, get_request, bad_request, no_resource,
  forbidden_request, file_request, internal_error, closed_connection, json_response,
}
use ai_inference_gateway.Http.CString.{c_str}
use ai_inference_gateway.Http.Growth.{double_until_lem}
use ai_inference_gateway.Http.Response.{
  set_response_body, write_size, add_response, decimal, crlf, add_status_line, add_headers,
  send_buffer, send_both, send_page, send_file, send_json, send_json_as, process_write,
  error_400_form, error_403_form, error_404_form, error_500_form,
}

-- The bytes of the buffer are counted, and its terminator has room.
pub record IsFilled (c : HttpConn) : Type 0 where
  pub counted : length c.m_write_buf ≡ c.m_write_idx
  pub room : c.m_write_idx < c.m_write_buf_size

pub write_size-lt :
    (len : ℕ) (c : HttpConn)
    → c.m_write_idx < c.m_write_buf_size
    → c.m_write_idx + len < write_size len c
unfolding write_size
write_size-lt len c room =
    ground (
      arith,
      double_until_lem (c.m_write_idx + len + 1) (c.m_write_idx + len + 1) c.m_write_buf_size,
    )

-- An append adds its text and keeps the buffer in order, however large the text.
pub add_response-IsFilled :
    (text : Bytes) (c : HttpConn) → IsFilled c → IsFilled (add_response text c).1
unfolding add_response
add_response-IsFilled text c v =
    ground (arith, write_size-lt (length text) c, length-append c.m_write_buf text)

-- After `set_response_body` the body is the text up to a zero byte, and the allocation, which never
-- shrinks, holds the text and its terminator.
pub set_response_body_lem :
    (body : Bytes) (c : HttpConn)
    → let c' = set_response_body body c in
      (c'.m_response_body ≡ c_str body)
      × (length body < c'.m_response_body_size)
      × (c.m_response_body_size ≤ c'.m_response_body_size)
unfolding set_response_body
set_response_body_lem body c = ground (
  arith,
  double_until_lem (length body + 1) (length body + 1) c.m_response_body_size,
  double_until_lem (length body + 1) (length body + 1) init_buffer_size,
)

-- The message of a status, a title, more header lines, the length that is announced, and a body.
abbrev pub message : Bool → ℕ → Bytes → Bytes → ℕ → Bytes → Bytes
message linger status title more len body =
    codes "HTTP/1.1 "
    ++ (decimal status
        ++ (codes " "
            ++ (title
                ++ (crlf
                    ++ (more
                        ++ (codes "Content-Length:"
                            ++ (decimal len
                                ++ (crlf
                                    ++ (codes "Connection:"
                                        ++ ((if linger then codes "keep-alive" else codes "close")
                                            ++ (crlf ++ (crlf ++ body))))))))))))

-- What is to be sent for each result of `process_read`: the bytes of the buffer and how many of the
-- file follow; nothing for a result that is no answer.
abbrev pub reply : HttpCode → HttpConn → Option (Bytes × ℕ)
reply internal_error c =
    some
      (message c.m_linger 500 (codes "Internal Error") [] (length error_500_form) error_500_form, 0)
reply no_resource c =
    some (message c.m_linger 404 (codes "Not Found") [] (length error_404_form) error_404_form, 0)
reply bad_request c =
    some (message c.m_linger 400 (codes "Bad Request") [] (length error_400_form) error_400_form, 0)
reply forbidden_request c =
    some (message c.m_linger 403 (codes "Forbidden") [] (length error_403_form) error_403_form, 0)
reply file_request c =
    let page = codes "<html><body></body></html>" in
    if c.m_file_size == 0
    then some (message c.m_linger 200 (codes "OK") [] (length page) page, 0)
    else some (message c.m_linger 200 (codes "OK") [] c.m_file_size [], c.m_file_size)
reply json_response c =
    let more = codes "Content-Type: application/json" ++ crlf in
    let len = length c.m_response_body in
    if c.m_response_status == 503
    then some (message c.m_linger 503 (codes "Service Unavailable") more len c.m_response_body, 0)
    else some (message c.m_linger 200 (codes "OK") more len c.m_response_body, 0)
reply no_request c = none
reply get_request c = none
reply closed_connection c = none

-- A result of `process_write` sends this.
abbrev pub Sends : HttpConn → Option (Bytes × ℕ) → Bool × HttpConn → Type 0
Sends c none (done, c') = (done ≡ false) × (c' ≡ c)
Sends c (some (text, file)) (done, c') =
    (done ≡ true)
    × (c'.m_write_buf ≡ text)
    × (c'.m_write_idx ≡ length text)
    × (c'.m_write_idx < c'.m_write_buf_size)
    × (c'.bytes_to_send ≡ length text + file)
    × (c'.m_iv_0 ≡ record { iov_base = pos 0; iov_len = length text })
    × (c'.m_iv_count ≡ (if file == 0 then 1 else 2))

-- A filled buffer that holds the text is sent by one iovec.
send_buffer-Sends :
    (c d : HttpConn) (text : Bytes)
    → IsFilled d
    → d.m_write_buf ≡ text
    → Sends c (some (text, 0)) (true, send_buffer d)
unfolding send_buffer
send_buffer-Sends c d text v e = ground (arith, ap length e)

page :
    (status : ℕ) (title body : Bytes) (c : HttpConn)
    → c.m_write_buf ≡ []
    → IsFilled c
    → Sends c
        (some (message c.m_linger status title [] (length body) body, 0))
        (send_page status title body c)
unfolding send_page
page status title body c e v =
    send_buffer-Sends c _ _
      (add_response-IsFilled body _ (
        add_response-IsFilled crlf _
          (add_response-IsFilled _ _ (add_response-IsFilled _ _ (add_response-IsFilled _ c v)))))
      (rw e (simp append_assoc))

json_reply :
    (status : ℕ) (title : Bytes) (c : HttpConn)
    → c.m_write_buf ≡ []
    → IsFilled c
    → Sends c
        (some (
          message c.m_linger status title
              (codes "Content-Type: application/json" ++ crlf)
              (length c.m_response_body)
              c.m_response_body,
          0,
        ))
        (send_json_as status title c)
unfolding send_json_as
json_reply status title c e v =
    send_buffer-Sends c _ _
      (add_response-IsFilled c.m_response_body _ (
        add_response-IsFilled crlf _ (
          add_response-IsFilled _ _
            (add_response-IsFilled _ _ (add_response-IsFilled _ _ (add_response-IsFilled _ c v))))))
      (rw e (simp append_assoc))

file_header :
    (c : HttpConn)
    → c.m_write_buf ≡ []
    → IsFilled c
    → let d = (add_headers c.m_file_size (add_status_line 200 (codes "OK") c).1).1 in
      (d.m_write_buf ≡ message c.m_linger 200 (codes "OK") [] c.m_file_size []) × IsFilled d
unfolding add_headers add_status_line
file_header c e v = (
  rw e (simp (append_assoc, append-nil)),
  add_response-IsFilled crlf _
      (add_response-IsFilled _ _ (add_response-IsFilled _ _ (add_response-IsFilled _ c v))),
)

-- A filled buffer and the file behind it are sent by two iovecs.
send_both-Sends :
    (c d : HttpConn) (text : Bytes)
    → IsFilled d
    → d.m_write_buf ≡ text
    → (d.m_file_size == 0) ≡ false
    → Sends c (some (text, d.m_file_size)) (true, send_both d)
unfolding send_both
send_both-Sends c d text v e some_left = ground (arith, ap length e)

file_reply :
    (c : HttpConn) → c.m_write_buf ≡ [] → IsFilled c → Sends c (reply file_request c) (send_file c)
unfolding send_file
file_reply c e v = elim (Bool-cases (c.m_file_size == 0)) [
  | inl none_left ↦
      rw (none_left, send_file) (page 200 (codes "OK") (codes "<html><body></body></html>") c e v)
  | inr some_left ↦
      let d = (add_headers c.m_file_size (add_status_line 200 (codes "OK") c).1).1 in
      let (bytes, filled) = file_header c e v in
      rw (some_left, send_file) (send_both-Sends c d _ filled bytes some_left)
]

-- From an empty write buffer that has an allocation `process_write` makes, for each result of `process_read`, exactly the
-- message of that result, with the announced length of its body, in a buffer that holds it, and sets
-- the counters for sending all of it.
pub process_write_lem :
    (code : HttpCode) (c : HttpConn)
    → c.m_write_buf ≡ []
    → IsFilled c
    → Sends c (reply code c) (process_write code c)
unfolding process_write
process_write_lem internal_error c e v = page 500 (codes "Internal Error") error_500_form c e v
process_write_lem no_resource c e v = page 404 (codes "Not Found") error_404_form c e v
process_write_lem bad_request c e v = page 400 (codes "Bad Request") error_400_form c e v
process_write_lem forbidden_request c e v = page 403 (codes "Forbidden") error_403_form c e v
process_write_lem file_request c e v = file_reply c e v
process_write_lem json_response c e v = elim (Bool-cases (c.m_response_status == 503)) [
  | inl busy ↦ rw (busy, send_json) (json_reply 503 (codes "Service Unavailable") c e v)
  | inr fine ↦ rw (fine, send_json) (json_reply 200 (codes "OK") c e v)
]
process_write_lem no_request c e v = (refl, refl)
process_write_lem get_request c e v = (refl, refl)
process_write_lem closed_connection c e v = (refl, refl)
