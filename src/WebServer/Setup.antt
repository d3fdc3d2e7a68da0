-- ===== src/WebServer/Setup.antt =====
-- `log_write` and `thread_pool` of webserver.cpp: how the log is opened, and which inference engine the
-- scheduler is started with. What ONNX Runtime
-- makes of a model file is an argument, as is whether the scheduler's thread can be created; a null
-- option is `none`.
use ai_inference_gateway.Prelude.{
  ℕ, ◌==◌, ◌≡◌, refl, Bool, true, false, Option, none, some, if◌then◌else◌, Bytes, codes, same,
  arith, Bool-cases, inl, inr,
}
use ai_inference_gateway.Prelude.Int.{ℤ}
use ai_inference_gateway.Common.{InferenceEngine}
use ai_inference_gateway.Scheduler.{BatchScheduler, set_max_concurrent_batches, start}
use ai_inference_gateway.Log.{Log, Tm}
use ai_inference_gateway.Log
use ai_inference_gateway.Engine.Mock.{MockEngine, set_latency_ms, set_io_size}
use ai_inference_gateway.Engine.Mock as Mock
use ai_inference_gateway.Engine.Onnx.{OnnxEngine, Session, extract_model_metadata}
use ai_inference_gateway.Engine.Onnx as Onnx

-- `log_write`, at the date `t`: the queue is the asynchronous log's. What `init` returns is not looked at.
unfoldable pub log_write : (Bytes → Bool) → Tm → ℕ → ℕ → Log → Option Log
unfolding Log.init
log_write opens t close_log asynchronous l =
    if close_log == 0
    then elim (Log.init opens t (codes "./Serverlog") close_log 2000 800000
        (if asynchronous == 1 then 800 else 0) l) [ none ↦ none | some (opened, l') ↦ some l' ]
    else some l

-- Which engine `m_engine` points to.
pub data Choice : Type 0 where
  uses_mock uses_onnx : Choice

pub record Engines : Type 0 where
  pub m_engine : Choice
  pub m_mock_engine : MockEngine
  pub m_onnx_engine : OnnxEngine

-- `m_engine_type && strcmp(m_engine_type, "onnx") == 0`
unfoldable pub is_onnx : Option Bytes → Bool
is_onnx none = false
is_onnx (some engine_type) = same engine_type (codes "onnx")

-- The mock engine, with four numbers in and out.
unfoldable pub use_mock : ℤ → Bytes → Engines → Engines
unfolding set_latency_ms set_io_size Mock.init
use_mock latency_ms name e = record e {
  m_engine = uses_mock;
  m_mock_engine = (Mock.init name (set_io_size 4 4 (set_latency_ms latency_ms e.m_mock_engine))).1;
}

unfoldable pub use_onnx : (Bytes → Option Session) → ℤ → Bytes → Engines → Engines
unfolding use_mock Onnx.init
use_onnx loads latency_ms model_path e =
    let (done, onnx) = Onnx.init (loads model_path) model_path e.m_onnx_engine in
    let e' = record e { m_engine = uses_onnx; m_onnx_engine = onnx } in
    if done then e' else use_mock latency_ms (codes "mock_fallback") e'

unfoldable pub choose_engine :
    (Bytes → Option Session) → Option Bytes → Option Bytes → ℤ → Engines → Engines
unfolding is_onnx use_mock use_onnx
choose_engine loads engine_type none latency_ms e = use_mock latency_ms (codes "mock_model") e
choose_engine loads engine_type (some model_path) latency_ms e =
    if is_onnx engine_type
    then use_onnx loads latency_ms model_path e
    else use_mock latency_ms (codes "mock_model") e

-- The scheduler's settings, and its start with the engine that was chosen.
unfoldable pub start_scheduler :
    {F : Type 0}
    → ℕ
    → ℕ
    → ℕ
    → ℕ
    → InferenceEngine F
    → Bool
    → BatchScheduler F
    → Bool × BatchScheduler F
unfolding set_max_concurrent_batches start
start_scheduler window batch concurrent queue engine created s =
    start
      (record (set_max_concurrent_batches
        (record s { batch_window_ms = window; max_batch_size = batch }) concurrent) {
          max_queue_size = queue;
        })
      (some engine) created

-- The engine that `m_engine` points to is initialised.
abbrev pub is_ready : Engines → Bool
is_ready e = elim e.m_engine [
  | uses_mock ↦ e.m_mock_engine.initialized
  | uses_onnx ↦ e.m_onnx_engine.initialized
]

init-initialized :
    (m : Option Session) (model_path : Bytes) (e : OnnxEngine)
    → (Onnx.init m model_path e).0 ≡ true
    → (Onnx.init m model_path e).1.initialized ≡ true
unfolding Onnx.init
init-initialized none model_path e h = absurd (ground (arith, h))
init-initialized (some m) model_path e h = elim (Bool-cases ((extract_model_metadata m e).0)) [
  | inl done ↦ rw done refl
  | inr failed ↦ absurd (ground (arith, rw failed at h))
]

use_mock-is_ready :
    (latency_ms : ℤ) (name : Bytes) (e : Engines) → is_ready (use_mock latency_ms name e) ≡ true
unfolding use_mock Mock.init
use_mock-is_ready latency_ms name e = refl

use_onnx-is_ready :
    (loads : Bytes → Option Session) (latency_ms : ℤ) (model_path : Bytes) (e : Engines)
    → is_ready (use_onnx loads latency_ms model_path e) ≡ true
unfolding use_onnx
use_onnx-is_ready loads latency_ms model_path e =
    elim (Bool-cases ((Onnx.init (loads model_path) model_path e.m_onnx_engine).0)) [
      | inl done ↦ rw done (init-initialized (loads model_path) model_path e.m_onnx_engine done)
      | inr failed ↦ rw failed (
          use_mock-is_ready latency_ms (codes "mock_fallback") (record e {
            m_engine = uses_onnx;
            m_onnx_engine = (Onnx.init (loads model_path) model_path e.m_onnx_engine).1;
          }))
    ]

-- Whatever the options are, and whatever ONNX Runtime makes of the model file, the engine that the
-- scheduler is started with has been initialised.
pub choose_engine-is_ready :
    (loads : Bytes → Option Session) (engine_type model_path : Option Bytes) (latency_ms : ℤ)
    → (e : Engines) → is_ready (choose_engine loads engine_type model_path latency_ms e) ≡ true
unfolding choose_engine
choose_engine-is_ready loads engine_type none latency_ms e =
    use_mock-is_ready latency_ms (codes "mock_model") e
choose_engine-is_ready loads engine_type (some model_path) latency_ms e =
    elim (Bool-cases (is_onnx engine_type)) [
      | inl onnx ↦ rw onnx (use_onnx-is_ready loads latency_ms model_path e)
      | inr other ↦ rw other (use_mock-is_ready latency_ms (codes "mock_model") e)
    ]
