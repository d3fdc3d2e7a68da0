-- ===== src/Http/Parse/Faults.antt =====
-- Where the request parser of http_conn.cpp goes wrong: the terminator of a body is written
-- past the read buffer, or before the body.
use ai_inference_gateway.Prelude.{
  ℕ, ◌+◌, ◌-◌, ◌≤◌, ◌≡◌, ◌↔◌, none, some, if◌then◌else◌, ltb, arith, set,
}
use ai_inference_gateway.Prelude.Int.{pos, negsuc}
use ai_inference_gateway.Http.{HttpConn, get_request}
use ai_inference_gateway.Http.Parse.{parse_content}

-- For a body that begins where the checked bytes end, `parse_content` writes outside the read buffer
-- exactly when the body is complete and reaches the buffer's end: its terminator has no room.
pub parse_content_full :
    (c : HttpConn) (n : ℕ)
    → c.m_content_length ≡ pos n
    → (parse_content c.m_checked_idx c ≡ none)
      ↔ ((c.m_checked_idx + n ≤ c.m_read_idx) × (c.m_read_buf_size ≤ c.m_checked_idx + n))
unfolding parse_content
parse_content_full c n e = ground (arith, e)

-- A negative Content-length -(n + 1) is always complete, and its terminator is written before the
-- body: outside the buffer if fewer than n + 1 bytes stand before it, and else over a byte of the
-- request that has been parsed.
pub parse_content_negative :
    (c : HttpConn) (n : ℕ)
    → c.m_content_length ≡ negsuc n
    → c.m_checked_idx ≤ c.m_read_idx
    → c.m_checked_idx ≤ c.m_read_buf_size
    → parse_content c.m_checked_idx c ≡ (
        if ltb n c.m_checked_idx
        then some
            (get_request, record c { m_read_buf = set c.m_read_buf (c.m_checked_idx - (n + 1)) 0 })
        else none)
unfolding parse_content
parse_content_negative c n e h k = ground (arith, e)
