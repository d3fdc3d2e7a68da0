-- ===== src/Http/Write.antt =====
-- `http_conn::write`: the loop round `writev`. What the calls of `writev` return is a list; a call
-- that the list has no answer for is a loop that is still going on. The bytes that go out are told
-- beside the state. `modfd` and `unmap` act on the kernel alone.
pub mod Prefix
pub mod Stuck
use ai_inference_gateway.Prelude.{
  ℕ, zero, suc, ◌+◌, ◌-◌, ◌≤◌, Bool, true, false, List, [], ◌∷◌, ◌++◌, Bytes, Option, none, some,
  if◌then◌else◌, ltb, leb, ◌==◌, take, drop,
}
use ai_inference_gateway.Prelude.Int.{ℤ, pos, negsuc, sub_ℕ}
use ai_inference_gateway.Http.{HttpConn, Iovec, init}

-- What `writev` returns: a count, -1 with EAGAIN, or another error.
pub data Writev : Type 0 where
  sent : ℕ → Writev
  again failed : Writev

-- What `write` returns, or that it has not returned.
pub data Outcome : Type 0 where
  returns : Bool → Outcome
  running : Outcome

-- `m_iv[0]` and `m_iv[1]` after `temp` bytes more have gone out; the counters are the new ones.
unfoldable pub advance_iov : HttpConn → HttpConn
advance_iov c =
    if leb c.m_iv_0.iov_len c.bytes_have_send
    then record c {
      m_iv_0 = record { iov_base = c.m_iv_0.iov_base; iov_len = 0 };
      m_iv_1 = record {
        iov_base = sub_ℕ c.bytes_have_send c.m_write_idx;
        iov_len = c.bytes_to_send;
      };
    }
    else record c {
      m_iv_0 = record {
        iov_base = pos c.bytes_have_send;
        iov_len = c.m_iv_0.iov_len - c.bytes_have_send;
      };
    }

-- `bytes_have_send += temp; bytes_to_send -= temp;` and the iovecs
unfoldable pub advance : ℕ → HttpConn → HttpConn
unfolding advance_iov
advance temp c = advance_iov (record c {
  bytes_have_send = c.bytes_have_send + temp;
  bytes_to_send = c.bytes_to_send - temp;
})

-- What the first iovec offers: a slice of the write buffer.
abbrev pub slice : Iovec → Bytes → Bytes
slice v buf = elim (v.iov_base) [ pos base ↦ take v.iov_len (drop base buf) | negsuc n ↦ [] ]

-- The loop, with the bytes that have gone out. A response of one iovec is in the write buffer.
unfoldable pub write_loop : List Writev → HttpConn → Bytes → Outcome × HttpConn × Bytes
unfolding advance
write_loop [] c out = (running, c, out)
write_loop (again ∷ calls) c out = (returns true, c, out)
write_loop (failed ∷ calls) c out = (returns false, c, out)
write_loop (sent temp ∷ calls) c out =
    let out' = out ++ take temp (slice c.m_iv_0 c.m_write_buf) in
    let c' = advance temp c in
    let rest = write_loop calls c' out' in
    if c'.bytes_to_send == 0
    then (if c'.m_linger then (returns true, init c', out') else (returns false, c', out'))
    else rest

unfoldable pub write : List Writev → HttpConn → Outcome × HttpConn × Bytes
unfolding write_loop
write calls c = if c.bytes_to_send == 0 then (returns true, init c, []) else write_loop calls c []
