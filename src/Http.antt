-- ===== src/Http.antt =====
-- http/http_conn.h and http/http_conn.cpp: the state of a connection, and the functions that set it
-- up and close it. The children follow a request: Read, Parse, Json, Request, Response, Write.
-- A pointer into the read buffer is an index of it, and null is `none`. The bytes of the write buffer
-- are those below `m_write_idx`, and of the response body those before its terminator; the sizes of
-- both allocations are kept beside them. Addresses, the document root and the log are left out.
pub mod CString
pub mod Growth
pub mod Response
pub mod Write
pub mod Read
pub mod Parse
pub mod Json
pub mod Request
mod Tests
use ai_inference_gateway.Prelude.{
  ℕ, zero, suc, Bool, true, false, List, [], Option, none, some, Bytes, if◌then◌else◌, replicate,
  ◌&&◌,
}
use ai_inference_gateway.Prelude.Int.{ℤ, pos, negsuc}

pub data Method : Type 0 where
  get post head put delete trace options connect path : Method

pub data CheckState : Type 0 where
  requestline header content : CheckState

pub data HttpCode : Type 0 where
  no_request get_request bad_request no_resource forbidden_request file_request : HttpCode
  internal_error closed_connection json_response : HttpCode

pub data LineStatus : Type 0 where
  line_ok line_bad line_open : LineStatus

abbrev pub read_buffer_size : ℕ
read_buffer_size = 8388608

abbrev pub init_buffer_size : ℕ
init_buffer_size = 65536

-- `struct iovec`: the base as an offset from `m_write_buf` for the first one, and from
-- `m_file_address` for the second.
pub record Iovec : Type 0 where
  pub iov_base : ℤ
  pub iov_len : ℕ

pub record HttpConn : Type 0 where
  pub m_sockfd : ℤ
  pub m_read_buf : Bytes
  pub m_read_buf_size : ℕ
  pub m_read_idx : ℕ
  pub m_checked_idx : ℕ
  pub m_start_line : ℕ
  pub m_write_buf : Bytes
  pub m_write_buf_size : ℕ
  pub m_write_idx : ℕ
  pub m_check_state : CheckState
  pub m_method : Method
  pub m_url : Option ℕ
  pub m_version : Option ℕ
  pub m_host : Option ℕ
  pub m_content_length : ℤ
  pub m_linger : Bool
  pub m_file_size : ℕ
  pub m_iv_0 : Iovec
  pub m_iv_1 : Iovec
  pub m_iv_count : ℕ
  pub bytes_to_send : ℕ
  pub bytes_have_send : ℕ
  pub m_response_body : Bytes
  pub m_response_body_size : ℕ
  pub m_response_status : ℕ
  pub m_trig_mode : ℕ
  pub m_state : ℕ
  pub timer_flag : ℕ
  pub improv : ℕ

-- `http_conn::init()`
unfoldable pub init : HttpConn → HttpConn
init c = record c {
  bytes_to_send = 0;
  bytes_have_send = 0;
  m_check_state = requestline;
  m_linger = false;
  m_method = get;
  m_url = none;
  m_version = none;
  m_content_length = pos 0;
  m_host = none;
  m_start_line = 0;
  m_checked_idx = 0;
  m_read_idx = 0;
  m_write_idx = 0;
  m_state = 0;
  timer_flag = 0;
  improv = 0;
  m_read_buf_size = read_buffer_size;
  m_read_buf = replicate read_buffer_size 0;
  m_write_buf_size = init_buffer_size;
  m_write_buf = [];
  m_response_body_size = init_buffer_size;
  m_response_body = [];
  m_response_status = 200;
}

-- `m_user_count--`
abbrev pub decrement : ℤ → ℤ
decrement (pos zero) = negsuc 0
decrement (pos (suc n)) = pos n
decrement (negsuc n) = negsuc (suc n)

-- `m_sockfd != -1`
abbrev pub is_open : ℤ → Bool
is_open (pos fd) = true
is_open (negsuc zero) = false
is_open (negsuc (suc n)) = true

-- `close_conn`, beside the static `m_user_count`
unfoldable pub close_conn : Bool → HttpConn → ℤ → HttpConn × ℤ
close_conn real_close c users =
    if real_close && is_open c.m_sockfd
    then (record c { m_sockfd = negsuc 0 }, decrement users)
    else (c, users)
