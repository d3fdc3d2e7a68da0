-- ===== src/Http/Tests.antt =====
-- A connection of http_conn.cpp at concrete inputs, with small buffers.
use ai_inference_gateway.Prelude.{
  ◌≡◌, ◌≢◌, refl, true, [], ◌∷◌, ◌++◌, Bytes, codes, none, arith, take,
}
use ai_inference_gateway.Prelude.Int.{pos}
use ai_inference_gateway.Http.{HttpConn, requestline, content, get, json_response, line_ok}
use ai_inference_gateway.Http.Response.{process_write}
use ai_inference_gateway.Http.Response.Answer.{IsFilled, Sends, reply, process_write_lem}
use ai_inference_gateway.Http.Write.{sent, write, write_loop, advance, advance_iov}
use ai_inference_gateway.Http.Write.Prefix.{Sent, write_loop_prefix}
use ai_inference_gateway.Http.Write.Stuck.{IsReady, IsReady-IsSending, write_three_parts}
use ai_inference_gateway.Http.Parse.{read_loop, spins}
use ai_inference_gateway.Http.Parse.Progress.{read_loop_ends}

abbrev request : Bytes
request = codes "GET / HTTP/1.1" ++ 13 ∷ 10 ∷ 13 ∷ 10 ∷ []

abbrev conn : HttpConn
conn = record {
  m_sockfd = pos 5;
  m_read_buf = request;
  m_read_buf_size = 18;
  m_read_idx = 18;
  m_checked_idx = 0;
  m_start_line = 0;
  m_write_buf = [];
  m_write_buf_size = 16;
  m_write_idx = 0;
  m_check_state = requestline;
  m_method = get;
  m_url = none;
  m_version = none;
  m_host = none;
  m_content_length = pos 0;
  m_linger = true;
  m_file_size = 0;
  m_iv_0 = record { iov_base = pos 0; iov_len = 0 };
  m_iv_1 = record { iov_base = pos 0; iov_len = 0 };
  m_iv_count = 0;
  bytes_to_send = 0;
  bytes_have_send = 0;
  m_response_body = codes "{}";
  m_response_body_size = 16;
  m_response_status = 503;
  m_trig_mode = 0;
  m_state = 0;
  timer_flag = 0;
  improv = 0;
}

abbrev text : Bytes
text = codes "abcdefgh"

-- Eight bytes that are ready to be sent.
abbrev ready : HttpConn
ready = record conn {
  m_write_buf = text;
  m_write_idx = 8;
  m_iv_0 = record { iov_base = pos 0; iov_len = 8 };
  m_iv_count = 1;
  bytes_to_send = 8;
}

ready-IsReady : IsReady text ready
ready-IsReady = record {
  buffer = refl;
  none_sent = refl;
  all_left = refl;
  base = refl;
  offered = refl;
}

conn-IsFilled : IsFilled conn
conn-IsFilled = record { counted = refl; room = omega arith }

process_write_lem_example : Sends conn (reply json_response conn) (process_write json_response conn)
process_write_lem_example = process_write_lem json_response conn refl conn-IsFilled

write_loop_prefix_example : Sent text (write_loop (sent 3 ∷ sent 2 ∷ []) ready [])
unfolding advance advance_iov
write_loop_prefix_example =
    write_loop_prefix (sent 3 ∷ sent 2 ∷ []) text ready []
      (IsReady-IsSending text ready ready-IsReady) (omega arith) (omega arith)

write_three_parts_example :
    let (outcome, c', out) = write (sent 3 ∷ sent 2 ∷ sent 0 ∷ []) ready in
    (out ≡ take 5 text) × (c'.bytes_to_send ≡ 3)
unfolding advance advance_iov
write_three_parts_example =
    write_three_parts text ready 3 2 (sent 0 ∷ []) ready-IsReady (omega arith) (omega arith)
      (omega arith)

read_loop_ends_example : read_loop 20 requestline line_ok conn ≢ spins
read_loop_ends_example = read_loop_ends 20 requestline conn refl (omega arith) (omega arith)

-- A body of three bytes that ends where the buffer does.
abbrev posted : HttpConn
posted = record conn { m_check_state = content; m_checked_idx = 15; m_content_length = pos 3 }
