-- ===== src/Http/Response.antt =====
-- The response in http_conn.cpp: the body's buffer, the functions that append to the write buffer, and
-- `process_write`. The text that `vsnprintf` makes is the argument of `add_response`; what it writes
-- in a first attempt that did not fit is written over by the second.
pub mod Answer
use ai_inference_gateway.Prelude.{
  ℕ, zero, suc, ◌+◌, ◌-◌, ◌*◌, ◌/◌, ◌%◌, Bool, true, false, List, [], ◌∷◌, ◌++◌, Bytes, codes,
  if◌then◌else◌, ltb, ◌==◌, length,
}
use ai_inference_gateway.Prelude.Int.{ℤ, pos}
use ai_inference_gateway.Http.{
  HttpConn, HttpCode, Iovec, init_buffer_size, no_request, get_request, bad_request, no_resource,
  forbidden_request, file_request, internal_error, closed_connection, json_response,
}
use ai_inference_gateway.Http.CString.{c_str}
use ai_inference_gateway.Http.Growth.{double_until}

unfoldable pub set_response_body : Bytes → HttpConn → HttpConn
set_response_body body c =
    let needed = length body + 1 in
    if ltb c.m_response_body_size needed
    then (let size =
          if c.m_response_body_size == 0 then init_buffer_size else c.m_response_body_size in
        record c {
          m_response_body_size = double_until needed needed size;
          m_response_body = c_str body;
        })
    else record c { m_response_body = c_str body }

-- The size of the write buffer after `len` bytes more.
unfoldable pub write_size : ℕ → HttpConn → ℕ
write_size len c =
    let space =
      if ltb (c.m_write_buf_size - c.m_write_idx) 1
      then 1
      else c.m_write_buf_size - c.m_write_idx in
    if ltb len space
    then c.m_write_buf_size
    else (let size = if c.m_write_buf_size == 0 then init_buffer_size else c.m_write_buf_size in
        double_until (c.m_write_idx + len + 1) (c.m_write_idx + len + 1) size)

unfoldable pub add_response : Bytes → HttpConn → Bool × HttpConn
add_response text c = (
  true,
  record c {
    m_write_buf = c.m_write_buf ++ text;
    m_write_buf_size = write_size (length text) c;
    m_write_idx = c.m_write_idx + length text;
  },
)

-- `%d` of a number that is not negative
unfoldable pub digits : ℕ → ℕ → Bytes
digits zero n = []
digits (suc fuel) n =
    let high = digits fuel (n / 10) in
    if ltb n 10 then (b'0' + n) ∷ [] else high ++ (b'0' + n % 10) ∷ []

unfoldable pub decimal : ℕ → Bytes
decimal n = digits (suc n) n

abbrev pub crlf : Bytes
crlf = 13 ∷ 10 ∷ []

-- `a && b` of two appends
infixl 5 ◌>>=◌
abbrev ◌>>=◌ : Bool × HttpConn → (HttpConn → Bool × HttpConn) → Bool × HttpConn
◌>>=◌ (done, c) next = if done then next c else (false, c)

unfoldable pub add_status_line : ℕ → Bytes → HttpConn → Bool × HttpConn
unfolding add_response
add_status_line status title =
    add_response (codes "HTTP/1.1 " ++ (decimal status ++ (codes " " ++ (title ++ crlf))))

unfoldable pub add_content_length : ℕ → HttpConn → Bool × HttpConn
unfolding add_response
add_content_length len = add_response (codes "Content-Length:" ++ (decimal len ++ crlf))

unfoldable pub add_linger : HttpConn → Bool × HttpConn
unfolding add_response
add_linger c =
    add_response
      (codes "Connection:" ++ ((if c.m_linger then codes "keep-alive" else codes "close") ++ crlf))
      c

unfoldable pub add_blank_line : HttpConn → Bool × HttpConn
unfolding add_response
add_blank_line = add_response crlf

unfoldable pub add_headers : ℕ → HttpConn → Bool × HttpConn
unfolding add_content_length add_linger add_blank_line
add_headers len c = add_content_length len c >>= add_linger >>= add_blank_line

unfoldable pub add_content : Bytes → HttpConn → Bool × HttpConn
unfolding add_response
add_content text = add_response text

abbrev pub error_400_form : Bytes
error_400_form =
    codes "Your request has bad syntax or is inherently impossible to staisfy." ++ 10 ∷ []

abbrev pub error_403_form : Bytes
error_403_form = codes "You do not have permission to get file form this server." ++ 10 ∷ []

abbrev pub error_404_form : Bytes
error_404_form = codes "The requested file was not found on this server." ++ 10 ∷ []

abbrev pub error_500_form : Bytes
error_500_form = codes "There was an unusual problem serving the request file." ++ 10 ∷ []

-- One iovec: everything is in the write buffer.
unfoldable pub send_buffer : HttpConn → HttpConn
send_buffer c = record c {
  m_iv_0 = record { iov_base = pos 0; iov_len = c.m_write_idx };
  m_iv_count = 1;
  bytes_to_send = c.m_write_idx;
}

-- A status line, the headers and a body, and the test of the last append.
unfoldable pub send_page : ℕ → Bytes → Bytes → HttpConn → Bool × HttpConn
unfolding add_status_line add_headers add_content send_buffer
send_page status title body c =
    let (done, c') =
      add_content body (add_headers (length body) (add_status_line status title c).1).1 in
    if done then (true, send_buffer c') else (false, c')

-- Two iovecs: the write buffer and the file.
unfoldable pub send_both : HttpConn → HttpConn
send_both c = record c {
  m_iv_0 = record { iov_base = pos 0; iov_len = c.m_write_idx };
  m_iv_1 = record { iov_base = pos 0; iov_len = c.m_file_size };
  m_iv_count = 2;
  bytes_to_send = c.m_write_idx + c.m_file_size;
}

-- The page of a file, or a fixed page where the file is empty.
unfoldable pub send_file : HttpConn → Bool × HttpConn
unfolding add_status_line add_headers send_page send_both
send_file c =
    if c.m_file_size == 0
    then send_page 200 (codes "OK") (codes "<html><body></body></html>") c
    else (true, send_both (add_headers c.m_file_size (add_status_line 200 (codes "OK") c).1).1)

-- The JSON answer under a status line.
unfoldable pub send_json_as : ℕ → Bytes → HttpConn → Bool × HttpConn
unfolding add_response add_status_line add_content_length add_linger add_blank_line add_content
    send_buffer
send_json_as status title c =
    let c₁ = (add_status_line status title c).1 in
    let c₂ = (add_response (codes "Content-Type: application/json" ++ crlf) c₁).1 in
    let c₃ = (add_content_length (length c₂.m_response_body) c₂).1 in
    let c₄ = (add_blank_line (add_linger c₃).1).1 in
    let (done, c₅) = add_content c₄.m_response_body c₄ in
    if done then (true, send_buffer c₅) else (false, c₅)

unfoldable pub send_json : HttpConn → Bool × HttpConn
unfolding send_json_as
send_json c =
    if c.m_response_status == 503
    then send_json_as 503 (codes "Service Unavailable") c
    else send_json_as 200 (codes "OK") c

unfoldable pub process_write : HttpCode → HttpConn → Bool × HttpConn
unfolding send_page send_file send_json
process_write internal_error c = send_page 500 (codes "Internal Error") error_500_form c
process_write no_resource c = send_page 404 (codes "Not Found") error_404_form c
process_write bad_request c = send_page 400 (codes "Bad Request") error_400_form c
process_write forbidden_request c = send_page 403 (codes "Forbidden") error_403_form c
process_write file_request c = send_file c
process_write json_response c = send_json c
process_write no_request c = (false, c)
process_write get_request c = (false, c)
process_write closed_connection c = (false, c)
