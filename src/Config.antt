-- ===== src/Config.antt =====
-- config.h and config.cpp: the options and their defaults. What `getopt` returns is a list of option
-- letters with their arguments; a letter that it does not know is `?` there. A number is taken to fit
-- an `int`.
pub mod Options
mod Tests
use ai_inference_gateway.Prelude.{ℕ, List, [], ◌∷◌, Bytes, codes, if◌then◌else◌, ◌==◌}
use ai_inference_gateway.Prelude.Int.{ℤ, pos}
use ai_inference_gateway.Http.CString.{atol}

pub record Config : Type 0 where
  pub port : ℤ
  pub log_write : ℤ
  pub trig_mode : ℤ
  pub listen_trig_mode : ℤ
  pub conn_trig_mode : ℤ
  pub opt_linger : ℤ
  pub engine_type : Bytes
  pub model_path : Bytes
  pub batch_window_ms : ℤ
  pub max_batch_size : ℤ
  pub max_concurrent_batches : ℤ
  pub max_queue_size : ℤ
  pub engine_latency_ms : ℤ
  pub task_timeout_sec : ℤ
  pub thread_num : ℤ
  pub close_log : ℤ
  pub actor_model : ℤ

-- the constructor
unfoldable pub new_config : Config
new_config = record {
  port = pos 9006;
  log_write = pos 0;
  trig_mode = pos 0;
  listen_trig_mode = pos 0;
  conn_trig_mode = pos 0;
  opt_linger = pos 0;
  engine_type = codes "mock";
  model_path = [];
  batch_window_ms = pos 10;
  max_batch_size = pos 8;
  max_concurrent_batches = pos 2;
  max_queue_size = pos 0;
  engine_latency_ms = pos 50;
  task_timeout_sec = pos 30;
  thread_num = pos 8;
  close_log = pos 0;
  actor_model = pos 0;
}

-- The switch of `parse_arg`.
unfoldable pub set_option : ℕ → Bytes → Config → Config
unfolding atol
set_option opt arg c =
    if opt == b'p'
    then record c { port = atol arg }
    else if opt == b'l'
    then record c { log_write = atol arg }
    else if opt == b'm'
    then record c { trig_mode = atol arg }
    else if opt == b'o'
    then record c { opt_linger = atol arg }
    else if opt == b's'
    then record c { engine_latency_ms = atol arg }
    else if opt == b't'
    then record c { thread_num = atol arg }
    else if opt == b'c'
    then record c { close_log = atol arg }
    else if opt == b'a'
    then record c { actor_model = atol arg }
    else if opt == b'b'
    then record c { batch_window_ms = atol arg }
    else if opt == b'n'
    then record c { max_batch_size = atol arg }
    else if opt == b'C'
    then record c { max_concurrent_batches = atol arg }
    else if opt == b'Q'
    then record c { max_queue_size = atol arg }
    else if opt == b'E'
    then record c { engine_type = arg }
    else if opt == b'M'
    then record c { model_path = arg }
    else if opt == b'T'
    then record c { task_timeout_sec = atol arg }
    else c

unfoldable pub parse_arg : List (ℕ × Bytes) → Config → Config
unfolding set_option
parse_arg [] c = c
parse_arg ((opt, arg) ∷ opts) c = parse_arg opts (set_option opt arg c)
