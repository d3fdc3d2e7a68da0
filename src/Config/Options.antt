-- ===== src/Config/Options.antt =====
-- What the options of config.cpp come to, whatever their order.
use ai_inference_gateway.Prelude.{
  ℕ, ◌≡◌, refl, ap, ◌∙◌, List, [], ◌∷◌, Bytes, if◌then◌else◌, ◌==◌, arith,
}
use ai_inference_gateway.Prelude.Int.{ℤ}
use ai_inference_gateway.Http.CString.{atol}
use ai_inference_gateway.Config.{Config, set_option, parse_arg}

-- The text of the last option with the letter, and else the text so far.
abbrev pub last_text : ℕ → List (ℕ × Bytes) → Bytes → Bytes
last_text letter [] so_far = so_far
last_text letter ((opt, arg) ∷ opts) so_far =
    last_text letter opts (if opt == letter then arg else so_far)

-- The number of the last option with the letter, and else the number so far.
abbrev pub last_number : ℕ → List (ℕ × Bytes) → ℤ → ℤ
last_number letter [] so_far = so_far
last_number letter ((opt, arg) ∷ opts) so_far =
    last_number letter opts (if opt == letter then atol arg else so_far)

-- A configuration whose fields are chosen one by one.
abbrev pub chosen : List (ℕ × Bytes) → Config → Config
chosen opts c = record {
  port = last_number b'p' opts c.port;
  log_write = last_number b'l' opts c.log_write;
  trig_mode = last_number b'm' opts c.trig_mode;
  listen_trig_mode = c.listen_trig_mode;
  conn_trig_mode = c.conn_trig_mode;
  opt_linger = last_number b'o' opts c.opt_linger;
  engine_type = last_text b'E' opts c.engine_type;
  model_path = last_text b'M' opts c.model_path;
  batch_window_ms = last_number b'b' opts c.batch_window_ms;
  max_batch_size = last_number b'n' opts c.max_batch_size;
  max_concurrent_batches = last_number b'C' opts c.max_concurrent_batches;
  max_queue_size = last_number b'Q' opts c.max_queue_size;
  engine_latency_ms = last_number b's' opts c.engine_latency_ms;
  task_timeout_sec = last_number b'T' opts c.task_timeout_sec;
  thread_num = last_number b't' opts c.thread_num;
  close_log = last_number b'c' opts c.close_log;
  actor_model = last_number b'a' opts c.actor_model;
}

-- One option, field by field.
abbrev with_option : ℕ → Bytes → Config → Config
with_option opt arg c = record {
  port = if opt == b'p' then atol arg else c.port;
  log_write = if opt == b'l' then atol arg else c.log_write;
  trig_mode = if opt == b'm' then atol arg else c.trig_mode;
  listen_trig_mode = c.listen_trig_mode;
  conn_trig_mode = c.conn_trig_mode;
  opt_linger = if opt == b'o' then atol arg else c.opt_linger;
  engine_type = if opt == b'E' then arg else c.engine_type;
  model_path = if opt == b'M' then arg else c.model_path;
  batch_window_ms = if opt == b'b' then atol arg else c.batch_window_ms;
  max_batch_size = if opt == b'n' then atol arg else c.max_batch_size;
  max_concurrent_batches = if opt == b'C' then atol arg else c.max_concurrent_batches;
  max_queue_size = if opt == b'Q' then atol arg else c.max_queue_size;
  engine_latency_ms = if opt == b's' then atol arg else c.engine_latency_ms;
  task_timeout_sec = if opt == b'T' then atol arg else c.task_timeout_sec;
  thread_num = if opt == b't' then atol arg else c.thread_num;
  close_log = if opt == b'c' then atol arg else c.close_log;
  actor_model = if opt == b'a' then atol arg else c.actor_model;
}

set_option_lem : (opt : ℕ) (arg : Bytes) (c : Config) → set_option opt arg c ≡ with_option opt arg c
unfolding set_option
set_option_lem opt arg c = ground arith

-- Each option is its own: a field of the configuration is the argument of the last option with the
-- field's letter, and keeps its value where there is none, whatever options stand between.
pub parse_arg_lem : (opts : List (ℕ × Bytes)) (c : Config) → parse_arg opts c ≡ chosen opts c
unfolding parse_arg
parse_arg_lem [] c = refl
parse_arg_lem ((opt, arg) ∷ opts) c =
    parse_arg_lem opts (set_option opt arg c) ∙ ap (chosen opts) (set_option_lem opt arg c)
