-- ===== src/Http/Request.antt =====
-- `do_request` and `process` of http_conn.cpp. The scheduler stands in by `submit`: what a task holds
-- when the worker's wait has returned, or `none` where the task was refused. `strtof` and the text that
-- `snprintf` makes of a float are parameters. `modfd` acts on the kernel alone; what it asks for is the
-- event told beside the state.
pub mod Tasks
pub mod Replies
mod Tests
use ai_inference_gateway.Prelude.{
  ℕ, zero, suc, ◌+◌, Bool, true, false, ◌&&◌, List, [], ◌∷◌, ◌++◌, Bytes, codes, same, Option, none,
  some, if◌then◌else◌, ◌==◌,
}
use ai_inference_gateway.Prelude.Int.{ℤ, pos, negsuc, leb_ℤ}
use ai_inference_gateway.Task.{InferenceTask, new_task}
use ai_inference_gateway.Http.{
  HttpConn, HttpCode, Method, get, post, head, put, delete, trace, options, connect, path,
  no_resource, bad_request, json_response, no_request, close_conn,
}
use ai_inference_gateway.Http.CString.{c_str, str_at}
use ai_inference_gateway.Http.Json.{json_get_float_array, json_get_string, json_get_int}
use ai_inference_gateway.Http.Response.{set_response_body, process_write}

abbrev pub is_post : Method → Bool
is_post post = true
is_post _ = false

-- `strcmp(m_url, "/infer") == 0`
abbrev pub is_infer : HttpConn → Bool
is_infer c = elim (c.m_url) [
  | none ↦ false
  | some url ↦ same (str_at c.m_read_buf url) (codes "/infer")
]

-- The scheduler tells only 0, 2 and the other priorities apart; a negative one is made one of the
-- others.
abbrev pub priority_of : ℤ → ℕ
priority_of (pos n) = n
priority_of (negsuc n) = n + 3

-- A JSON error with a message.
abbrev pub error_body : Bytes → Bytes
error_body msg = codes "{\"status\":\"error\",\"msg\":\"" ++ (msg ++ codes "\"}")

-- What a request leads to before the scheduler is called.
pub data Plan (F : Type 0) : Type 0 where
  answers : HttpCode → HttpConn → Plan F
  submits : InferenceTask F → Plan F

module _ {F : Type 0} where
  -- The task of a request.
  unfoldable pub make_task : ℕ → Bytes → List F → HttpConn → InferenceTask F
  unfolding new_task json_get_string json_get_int
  make_task deadline body input_data c =
      let model_name = json_get_string body (codes "model") in
      record new_task {
        model_name = if same model_name [] then codes "default" else model_name;
        input_data = input_data;
        priority = priority_of (json_get_int body (codes "priority") (pos 1));
        deadline = deadline;
        client_fd = c.m_sockfd;
      }

  unfoldable pub with_input : ℕ → Bytes → HttpConn → List F → Plan F
  unfolding make_task set_response_body
  with_input deadline body c [] =
      answers json_response
        (set_response_body (error_body (codes "missing or empty 'input' field")) c)
  with_input deadline body c (x ∷ xs) = submits (make_task deadline body (x ∷ xs) c)

module _ {F : Type 0} (strtof : Bytes → F × Bytes) where
  -- `do_request` up to the call of `enqueue`; `scheduler` tells whether the pointer is set, and
  -- `deadline` is the time plus `task_timeout_sec`.
  unfoldable pub plan : Bool → ℕ → HttpConn → Plan F
  unfolding with_input json_get_float_array
  plan scheduler deadline c =
      let body = str_at c.m_read_buf c.m_start_line in
      if is_post c.m_method && is_infer c
      then (if leb_ℤ c.m_content_length (pos 0)
          then answers bad_request c
          else if scheduler
          then with_input deadline body c (json_get_float_array strtof body (codes "input"))
          else answers json_response
              (set_response_body (error_body (codes "scheduler not initialized")) c))
      else answers no_resource c

module _ {F : Type 0} (show : F → Bytes) where
  -- The numbers after the first one.
  abbrev pub show_more : List F → Bytes
  show_more [] = []
  show_more (x ∷ xs) = b',' ∷ (show x ++ show_more xs)

  unfoldable pub show_array : List F → Bytes
  show_array [] = codes "[]"
  show_array (x ∷ xs) = b'[' ∷ (show x ++ (show_more xs ++ codes "]"))

  -- The body for a task whose wait has returned; `error_msg.c_str()` ends at the first zero byte.
  unfoldable pub result_body : InferenceTask F → Bytes
  unfolding show_array c_str
  result_body t =
      if t.timeout
      then error_body (codes "inference timeout")
      else if t.success
      then codes "{\"status\":\"ok\",\"model\":\""
        ++ (t.model_name ++ (codes "\",\"output\":" ++ (show_array t.output_data ++ codes "}")))
      else error_body (if same t.error_msg [] then codes "inference failed" else c_str t.error_msg)

  -- `do_request` from the result of `enqueue` on.
  unfoldable pub respond : Option (InferenceTask F) → HttpConn → HttpCode × HttpConn
  unfolding result_body set_response_body
  respond none c = (
    json_response,
    record (set_response_body (error_body (codes "server overloaded, queue full")) c) {
      m_response_status = 503;
    },
  )
  respond (some t) c = (json_response, set_response_body (result_body t) c)

module _ {F : Type 0} (strtof : Bytes → F × Bytes) (show : F → Bytes) where
  unfoldable pub do_request :
      Bool → ℕ → (InferenceTask F → Option (InferenceTask F)) → HttpConn → HttpCode × HttpConn
  unfolding plan respond
  do_request scheduler deadline submit c = elim (plan strtof scheduler deadline c) [
    | answers code c' ↦ (code, c')
    | submits t ↦ respond show (submit t) c
  ]

-- The event that `process` asks epoll for.
pub data Interest : Type 0 where
  epoll_in epoll_out : Interest

-- `process` from the result of `process_read` on, with the count of users. No exception is thrown by
-- what is modelled.
unfoldable pub process : HttpCode → HttpConn → ℤ → Interest × HttpConn × ℤ
unfolding process_write close_conn
process no_request c users = (epoll_in, c, users)
process read_ret c users =
    let (write_ret, c') = process_write read_ret c in
    let (closed, users') = close_conn true c' users in
    if write_ret then (epoll_out, c', users) else (epoll_out, closed, users')
