-- ===== src/Http/Read.antt =====
-- `read_once` of http/http_conn.cpp. What the calls of `recv` answer is an argument: the bytes of those
-- that give some, and how the one after them ends.
pub mod Received
mod Tests
use ai_inference_gateway.Prelude.{
  ℕ, zero, suc, ◌+◌, ◌-◌, Bool, true, false, List, [], ◌∷◌, ◌++◌, Option, none, some, if◌then◌else◌,
  leb, ◌==◌, take, drop, length, Bytes,
}
use ai_inference_gateway.Http.{HttpConn}

-- A `recv` that gives no bytes: 0, -1 with EAGAIN or EWOULDBLOCK, and -1 with another error.
pub data NoBytes : Type 0 where
  closed would_block failed : NoBytes

-- The bytes that `recv` puts into the buffer at an index.
unfoldable pub write_at : ℕ → Bytes → Bytes → Bytes
write_at i bytes buf = take i buf ++ bytes ++ drop (i + length bytes) buf

-- `m_read_idx += bytes_read` after a `recv` that gives bytes.
unfoldable pub received : Bytes → HttpConn → HttpConn
unfolding write_at
received bytes c = record c {
  m_read_buf = write_at c.m_read_idx bytes c.m_read_buf;
  m_read_idx = c.m_read_idx + length bytes;
}

-- The same where `recv` gives -1: `none` where the index would be negative.
unfoldable pub step_back : HttpConn → Option HttpConn
step_back c = if c.m_read_idx == 0 then none else some (record c { m_read_idx = c.m_read_idx - 1 })

-- The single `recv` of the level-triggered mode.
unfoldable pub read_level : List Bytes → NoBytes → HttpConn → Bool × Option HttpConn
unfolding received step_back
read_level [] closed c = (false, some c)
read_level [] would_block c = (false, step_back c)
read_level [] failed c = (false, step_back c)
read_level ([] ∷ rest) last c = (false, some c)
read_level ((b ∷ bytes) ∷ rest) last c = (true, some (received (b ∷ bytes) c))

-- The loop of the edge-triggered mode.
unfoldable pub read_edge : List Bytes → NoBytes → HttpConn → Bool × Option HttpConn
unfolding received
read_edge [] would_block c = (true, some c)
read_edge [] closed c = (false, some c)
read_edge [] failed c = (false, some c)
read_edge ([] ∷ rest) last c = (false, some c)
read_edge ((b ∷ bytes) ∷ rest) last c = read_edge rest last (received (b ∷ bytes) c)

unfoldable pub read_once : List Bytes → NoBytes → HttpConn → Bool × Option HttpConn
unfolding read_level read_edge
read_once chunks last c =
    if leb c.m_read_buf_size c.m_read_idx
    then (false, some c)
    else if c.m_trig_mode == 0
    then read_level chunks last c
    else read_edge chunks last c
