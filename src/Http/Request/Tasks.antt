-- ===== src/Http/Request/Tasks.antt =====
-- The tasks that `do_request` (http_conn.cpp) submits.
use ai_inference_gateway.Prelude.{
  ℕ, ◌≡◌, ◌≢◌, refl, Bool, true, false, ◌&&◌, List, [], ◌∷◌, Bytes, codes, same, if◌then◌else◌,
  arith,
}
use ai_inference_gateway.Prelude.Int.{pos, leb_ℤ}
use ai_inference_gateway.Task.{InferenceTask}
use ai_inference_gateway.Http.{HttpConn}
use ai_inference_gateway.Http.CString.{str_at}
use ai_inference_gateway.Http.Json.{json_get_float_array, json_get_string}
use ai_inference_gateway.Http.Request.{is_post, is_infer, submits, make_task, with_input, plan}

-- What holds of a submitted task.
pub record IsRequested {F : Type 0} (strtof : Bytes → F × Bytes) (deadline : ℕ) (c : HttpConn)
    (t : InferenceTask F) : Type 0 where
  pub posted : (is_post c.m_method && is_infer c) ≡ true
  pub has_body : leb_ℤ c.m_content_length (pos 0) ≡ false
  pub input :
      t.input_data
      ≡ json_get_float_array strtof (str_at c.m_read_buf c.m_start_line) (codes "input")
  pub some_input : t.input_data ≢ []
  pub named : t.model_name ≢ []
  pub due : t.deadline ≡ deadline
  pub owner : t.client_fd ≡ c.m_sockfd
  pub pending : (t.completed ≡ false) × (t.timeout ≡ false) × (t.success ≡ false)

or_default : (s : Bytes) → (if same s [] then codes "default" else s) ≢ []
or_default [] = λ e. cc
or_default (x ∷ s) = λ e. cc

make_task_named :
    {F : Type 0} (deadline : ℕ) (body : Bytes) (input_data : List F) (c : HttpConn)
    → (make_task deadline body input_data c).model_name ≢ []
unfolding make_task
make_task_named deadline body input_data c = or_default (json_get_string body (codes "model"))

with_input_lem :
    {F : Type 0} (deadline : ℕ) (body : Bytes) (c : HttpConn) (numbers : List F)
    (t : InferenceTask F)
    → with_input deadline body c numbers ≡ submits t
    → (t ≡ make_task deadline body numbers c) × (numbers ≢ [])
unfolding with_input
with_input_lem deadline body c [] t e = cc
with_input_lem deadline body c (x ∷ xs) t e = (cc, λ e'. cc)

plan_submits :
    {F : Type 0} (strtof : Bytes → F × Bytes) (scheduler : Bool) (deadline : ℕ) (c : HttpConn)
    (t : InferenceTask F)
    → plan strtof scheduler deadline c ≡ submits t
    → let body = str_at c.m_read_buf c.m_start_line in
      let numbers = json_get_float_array strtof body (codes "input") in
      ((is_post c.m_method && is_infer c) ≡ true)
      × (leb_ℤ c.m_content_length (pos 0) ≡ false)
      × (with_input deadline body c numbers ≡ submits t)
unfolding plan
plan_submits strtof scheduler deadline c t e = ground (arith, e)

-- A task is submitted only for a POST of /infer with a body that has numbers under "input"; it has
-- those numbers, a model's name, the connection's socket and the deadline, and is not done yet.
pub plan_lem :
    {F : Type 0} (strtof : Bytes → F × Bytes) (scheduler : Bool) (deadline : ℕ) (c : HttpConn)
    (t : InferenceTask F)
    → plan strtof scheduler deadline c ≡ submits t
    → IsRequested strtof deadline c t
unfolding make_task
plan_lem strtof scheduler deadline c t e =
    let (posted, has_body, built) = plan_submits strtof scheduler deadline c t e in
    let body = str_at c.m_read_buf c.m_start_line in
    let numbers = json_get_float_array strtof body (codes "input") in
    let (made, some_input) = with_input_lem deadline body c numbers t built in
    rw made (record {
      posted = posted;
      has_body = has_body;
      input = refl;
      some_input = some_input;
      named = make_task_named deadline body numbers c;
      due = refl;
      owner = refl;
      pending = (refl, refl, refl);
    })
