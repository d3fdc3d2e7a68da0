-- ===== src/Http/Write/Stuck.antt =====
-- `http_conn::write` (http_conn.cpp) when the kernel takes a response in two parts, and in more.
use ai_inference_gateway.Prelude.{
  ℕ, zero, suc, ◌+◌, ◌-◌, ◌*◌, ◌≤◌, ◌<◌, ◌≡◌, refl, inl, inr, List, [], ◌∷◌, ◌++◌, Bytes,
  if◌then◌else◌, leb, ◌==◌, ==_iff, take, length, arith, Bool-cases, append-nil,
}
use ai_inference_gateway.Prelude.Int.{pos}
use ai_inference_gateway.Http.{HttpConn}
use ai_inference_gateway.Http.Write.{
  Writev, sent, again, failed, returns, advance, slice, write_loop, write,
}
use ai_inference_gateway.Http.Write.Prefix.{
  IsHonest, IsSending, advance-IsSending, finished, sent_bytes,
}

-- The state in which `process_write` leaves a response of one iovec.
pub record IsReady (text : Bytes) (c : HttpConn) : Type 0 where
  pub buffer : c.m_write_buf ≡ text
  pub none_sent : c.bytes_have_send ≡ 0
  pub all_left : c.bytes_to_send ≡ length text
  pub base : c.m_iv_0.iov_base ≡ pos 0
  pub offered : c.m_iv_0.iov_len ≡ length text

pub IsReady-IsSending : (text : Bytes) (c : HttpConn) → IsReady text c → IsSending text c []
IsReady-IsSending text c v = record {
  buffer = v.buffer;
  so_far = rw v.none_sent refl;
  total = omega arith;
  at = inr (ground arith);
  fits = omega arith;
}

take_less : (m : ℕ) (xs : Bytes) → m ≤ 0 → take m xs ≡ []
take_less zero xs h = refl
take_less (suc m) xs h = absurd (omega arith)

advance_fields :
    (temp : ℕ) (c : HttpConn)
    → let c' = advance temp c in
      (c'.bytes_to_send ≡ c.bytes_to_send - temp)
      × (c'.bytes_have_send ≡ c.bytes_have_send + temp)
      × (c'.m_linger ≡ c.m_linger)
      × (c'.m_iv_0.iov_len ≡ (
          if leb c.m_iv_0.iov_len (c.bytes_have_send + temp)
          then 0
          else c.m_iv_0.iov_len - (c.bytes_have_send + temp)))
unfolding advance
advance_fields temp c = ground arith

-- A call of `writev` that leaves something goes round the loop.
write_loop_more :
    (temp : ℕ) (calls : List Writev) (c : HttpConn) (out : Bytes)
    → 0 < (advance temp c).bytes_to_send
    → write_loop (sent temp ∷ calls) c out
      ≡ write_loop calls (advance temp c) (out ++ take temp (slice c.m_iv_0 c.m_write_buf))
unfolding write_loop
write_loop_more temp calls c out left = elim (Bool-cases ((advance temp c).bytes_to_send == 0)) [
  | inl e ↦ absurd (omega (arith, (==_iff _ 0).0 e))
  | inr e ↦ rw e
]

-- A call of `writev` that leaves nothing ends the loop.
write_loop_last :
    (temp : ℕ) (calls : List Writev) (c : HttpConn) (out : Bytes)
    → (advance temp c).bytes_to_send ≡ 0
    → let (outcome, c', out') = write_loop (sent temp ∷ calls) c out in
      (outcome ≡ returns (advance temp c).m_linger)
      × (out' ≡ out ++ take temp (slice c.m_iv_0 c.m_write_buf))
unfolding write_loop
write_loop_last temp calls c out none_left = elim (Bool-cases (advance temp c).m_linger) [
  | inl e ↦ rw (none_left, e) (refl, refl)
  | inr e ↦ rw (none_left, e) (refl, refl)
]

write_starts :
    (calls : List Writev) (c : HttpConn)
    → 0 < c.bytes_to_send
    → write calls c ≡ write_loop calls c []
unfolding write
write_starts calls c left = elim (Bool-cases (c.bytes_to_send == 0)) [
  | inl e ↦ absurd (omega (arith, (==_iff _ 0).0 e))
  | inr e ↦ rw e
]

-- With the first iovec empty nothing more goes out, and the loop never ends by its counter.
write_loop_empty :
    (calls : List Writev) (c : HttpConn) (out : Bytes)
    → c.m_iv_0.iov_len ≡ 0
    → 0 < c.bytes_to_send
    → IsHonest calls c
    → let (outcome, c', out') = write_loop calls c out in
      (out' ≡ out) × (c'.bytes_to_send ≡ c.bytes_to_send)
unfolding write_loop
write_loop_empty [] c out e left h = (refl, refl)
write_loop_empty (again ∷ calls) c out e left h = (refl, refl)
write_loop_empty (failed ∷ calls) c out e left h = (refl, refl)
write_loop_empty (sent temp ∷ calls) c out e left h = ground (
  arith,
  take_less temp (slice c.m_iv_0 c.m_write_buf),
  append-nil out,
  write_loop_empty calls (advance temp c) (out ++ take temp (slice c.m_iv_0 c.m_write_buf)),
)

-- A response in the write buffer that the kernel takes in two parts, the second of which is not empty,
-- is sent whole, and `write` returns whether the
-- connection is kept.
pub write_two_parts :
    (text : Bytes) (c : HttpConn) (first second : ℕ)
    → IsReady text c
    → first + second ≡ length text
    → 0 < second
    → let (outcome, c', out) = write (sent first ∷ sent second ∷ []) c in
      (outcome ≡ returns c.m_linger) × (out ≡ text)
write_two_parts text c first second v e some_left =
    let one = advance-IsSending text first c [] (IsReady-IsSending text c v) (omega arith) in
    let two =
      advance-IsSending text second (advance first c) _ one
        (ground (arith, advance_fields first c)) in
    let left : 0 < (advance first c).bytes_to_send = omega (arith, advance_fields first c) in
    let none_left : (advance second (advance first c)).bytes_to_send ≡ 0 =
      omega (arith, advance_fields first c, advance_fields second (advance first c)) in
    rw
      (
        write_starts (sent first ∷ sent second ∷ []) c (omega arith),
        write_loop_more first (sent second ∷ []) c [] left,
      )
      (ground (
        arith,
        write_loop_last second [] (advance first c) (take first (slice c.m_iv_0 c.m_write_buf))
            none_left,
        finished text (advance second (advance first c)) _ two none_left,
        advance_fields first c,
        advance_fields second (advance first c),
      ))

-- A response that the kernel takes in more than two parts, the first two of which do not make it up
-- but would with the first one counted twice, is never sent whole: after the second part no byte
-- more goes out, whatever `writev` is ready to take, and the bytes left are never counted down.
pub write_three_parts :
    (text : Bytes) (c : HttpConn) (first second : ℕ) (calls : List Writev)
    → IsReady text c
    → first + second < length text
    → length text ≤ 2 * first + second
    → IsHonest calls (advance second (advance first c))
    → let (outcome, c', out) = write (sent first ∷ sent second ∷ calls) c in
      (out ≡ take (first + second) text) × (c'.bytes_to_send ≡ length text - (first + second))
write_three_parts text c first second calls v less over h =
    let start = IsReady-IsSending text c v in
    let one = advance-IsSending text first c [] start (omega arith) in
    let f₁ = advance_fields first c in
    let f₂ = advance_fields second (advance first c) in
    let left₁ : 0 < (advance first c).bytes_to_send = omega (arith, f₁) in
    let left₂ : 0 < (advance second (advance first c)).bytes_to_send = omega (arith, f₁, f₂) in
    let out₁ = take first (slice c.m_iv_0 c.m_write_buf) in
    rw
      (
        write_starts (sent first ∷ sent second ∷ calls) c (omega arith),
        write_loop_more first (sent second ∷ calls) c [] left₁,
        write_loop_more second calls (advance first c) out₁ left₂,
      )
      (ground (
        arith,
        f₁,
        f₂,
        sent_bytes text second (advance first c) out₁ one,
        write_loop_empty calls (advance second (advance first c))
            (out₁ ++ take second (slice (advance first c).m_iv_0 (advance first c).m_write_buf)),
      ))
