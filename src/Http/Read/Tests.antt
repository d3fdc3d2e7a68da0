-- ===== src/Http/Read/Tests.antt =====
-- Runs of `read_once` of http_conn.cpp on a buffer of eight bytes.
use ai_inference_gateway.Prelude.{
  ℕ, ◌≡◌, refl, true, false, [], ◌∷◌, codes, none, some, arith, replicate,
}
use ai_inference_gateway.Prelude.Int.{pos}
use ai_inference_gateway.Http.{HttpConn, requestline, get}
use ai_inference_gateway.Http.Read.{closed, would_block, failed, read_once}
use ai_inference_gateway.Http.Read.Received.{Reads, read_once_lem}

abbrev reading : ℕ → HttpConn
reading trig_mode = record {
  m_sockfd = pos 5;
  m_read_buf = replicate 8 0;
  m_read_buf_size = 8;
  m_read_idx = 0;
  m_checked_idx = 0;
  m_start_line = 0;
  m_write_buf = [];
  m_write_buf_size = 16;
  m_write_idx = 0;
  m_check_state = requestline;
  m_method = get;
  m_url = none;
  m_version = none;
  m_host = none;
  m_content_length = pos 0;
  m_linger = true;
  m_file_size = 0;
  m_iv_0 = record { iov_base = pos 0; iov_len = 0 };
  m_iv_1 = record { iov_base = pos 0; iov_len = 0 };
  m_iv_count = 0;
  bytes_to_send = 0;
  bytes_have_send = 0;
  m_response_body = [];
  m_response_body_size = 0;
  m_response_status = 200;
  m_trig_mode = trig_mode;
  m_state = 0;
  timer_flag = 0;
  improv = 0;
}

read_once_lem_example :
    Reads
      (reading 1)
      (codes "GET /i")
      (read_once (codes "GET " ∷ codes "/i" ∷ []) would_block (reading 1))
read_once_lem_example =
    read_once_lem (codes "GET ") (codes "/i" ∷ []) (reading 1) (omega arith, (omega arith, tt)) refl
      (omega arith)

-- A request that fills the buffer is in it, and yet the call fails: `recv` has no room, and answers 0.
read_once-full :
    read_once (codes "GET /abc" ∷ []) closed (reading 1)
    ≡ (false, some (record (reading 1) { m_read_buf = codes "GET /abc"; m_read_idx = 8 }))
unfolding read_once
read_once-full = refl

-- A failed `recv` at the beginning makes the index -1.
read_once-negative : read_once [] failed (reading 0) ≡ (false, none)
unfolding read_once
read_once-negative = refl
