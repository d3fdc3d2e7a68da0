-- ===== src/Http/Request/Tests.antt =====
-- Requests at a concrete body, with the digits 0 and 1 for floats.
use ai_inference_gateway.Prelude.{
  ℕ, ◌≤◌, ◌≡◌, refl, Bool, true, false, [], ◌∷◌, ◌++◌, Bytes, codes, length, none, some, ◌==◌,
  arith,
}
use ai_inference_gateway.Prelude.Int.{pos}
use ai_inference_gateway.Task.{InferenceTask, new_task}
use ai_inference_gateway.Http.{HttpConn, content, post}
use ai_inference_gateway.Http.CString.{c_str, str_at, index_of, parse_digits, is_digit, span}
use ai_inference_gateway.Http.Json.{
  floats, bracketed, read_next, strstr, skip_ws, value_of, quoted, leading_int, to_int,
  json_get_float_array, json_get_string, json_get_int,
}
use ai_inference_gateway.Http.Json.Floats.{
  IsShrinking, IsReader, with_key, array, json_get_float_array_lem,
}
use ai_inference_gateway.Http.Response.Answer.{IsFilled, message}
use ai_inference_gateway.Http.Request.{
  plan, submits, make_task, with_input, do_request, process, epoll_out, error_body,
}
use ai_inference_gateway.Http.Request.Tasks.{IsRequested, plan_lem}
use ai_inference_gateway.Http.Request.Replies.{json_type, refused_reply}

abbrev read_digit : Bytes → Bool × Bytes
read_digit [] = (false, [])
read_digit (b ∷ r) = (b == b'1', r)

abbrev digit : Bool → ℕ
digit false = b'0'
digit true = b'1'

abbrev show_digit : Bool → Bytes
show_digit x = digit x ∷ []

read_digit-IsShrinking : IsShrinking read_digit
read_digit-IsShrinking = record { no_longer = go }
  where
    go : (s : Bytes) → length (read_digit s).1 ≤ length s
    go [] = omega arith
    go (b ∷ r) = omega arith

read_digit-IsReader : IsReader read_digit digit (λ x. [])
read_digit-IsReader = record {
  reads = λ x c r h. reads x c r;
  no_space = no_space;
  no_comma = no_comma;
  no_bracket = no_bracket;
}
  where
    reads : (x : Bool) (c : ℕ) (r : Bytes) → read_digit (digit x ∷ c ∷ r) ≡ (x, c ∷ r)
    reads false c r = refl
    reads true c r = refl

    no_space : (x : Bool) → (digit x == b' ') ≡ false
    no_space false = refl
    no_space true = refl

    no_comma : (x : Bool) → (digit x == b',') ≡ false
    no_comma false = refl
    no_comma true = refl

    no_bracket : (x : Bool) → (digit x == b']') ≡ false
    no_bracket false = refl
    no_bracket true = refl

json_get_float_array_lem_example :
    json_get_float_array read_digit
      (b'{'
        ∷ with_key (codes "input") (b'[' ∷ array digit (λ x. []) (true ∷ false ∷ []) (codes "}")))
      (codes "input")
    ≡ true ∷ false ∷ []
json_get_float_array_lem_example =
    json_get_float_array_lem read_digit digit (λ x. []) (codes "input") (true ∷ false ∷ [])
      (codes "}") read_digit-IsReader

-- The request line is parsed, and the body begins at byte 12.
abbrev posted : HttpConn
posted = record {
  m_sockfd = pos 5;
  m_read_buf = codes "POST" ++ 0 ∷ (codes "/infer" ++ 0 ∷ codes "{\"input\":[1,0],\"priority\":2}");
  m_read_buf_size = 64;
  m_read_idx = 40;
  m_checked_idx = 12;
  m_start_line = 12;
  m_write_buf = [];
  m_write_buf_size = 16;
  m_write_idx = 0;
  m_check_state = content;
  m_method = post;
  m_url = some 5;
  m_version = none;
  m_host = none;
  m_content_length = pos 28;
  m_linger = true;
  m_file_size = 0;
  m_iv_0 = record { iov_base = pos 0; iov_len = 0 };
  m_iv_1 = record { iov_base = pos 0; iov_len = 0 };
  m_iv_count = 0;
  bytes_to_send = 0;
  bytes_have_send = 0;
  m_response_body = [];
  m_response_body_size = 16;
  m_response_status = 200;
  m_trig_mode = 0;
  m_state = 0;
  timer_flag = 0;
  improv = 0;
}

posted-IsFilled : IsFilled posted
posted-IsFilled = record { counted = refl; room = omega arith }

abbrev wanted : InferenceTask Bool
wanted = record {
  task_id = 0;
  client_fd = pos 5;
  model_name = codes "default";
  input_data = true ∷ false ∷ [];
  arrival_time = 0;
  deadline = 90;
  priority = 2;
  output_data = [];
  completed = false;
  timeout = false;
  success = false;
  error_msg = [];
}

planned : plan read_digit true 90 posted ≡ submits wanted
unfolding plan with_input make_task new_task floats bracketed read_next strstr skip_ws value_of
    quoted leading_int to_int json_get_float_array json_get_string json_get_int str_at c_str
    index_of parse_digits is_digit span
planned = refl

plan_lem_example : IsRequested read_digit 90 posted wanted
plan_lem_example = plan_lem read_digit true 90 posted wanted planned

refused_reply_example :
    let (code, c') = do_request read_digit show_digit true 90 (λ t. none) posted in
    let (event, sent, users') = process code c' (pos 1) in
    let body = error_body (codes "server overloaded, queue full") in
    (event ≡ epoll_out)
    × (users' ≡ pos 1)
    × (sent.m_write_buf
        ≡ message true 503 (codes "Service Unavailable") json_type (length body) body)
refused_reply_example =
    refused_reply read_digit show_digit true 90 (λ t. none) posted wanted (pos 1) refl
      posted-IsFilled planned refl

abbrev served : InferenceTask Bool → InferenceTask Bool
served t = record t { completed = true; success = true; output_data = false ∷ true ∷ [] }
