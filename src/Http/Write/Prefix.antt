-- ===== src/Http/Write/Prefix.antt =====
-- What `http_conn::write` has sent, for a response that is all in the write buffer (http_conn.cpp).
use ai_inference_gateway.Prelude.{
  ℕ, zero, suc, ◌+◌, ◌≤◌, ◌<◌, ◌≡◌, refl, ap, ◌∙◌, ◌⊎◌, inl, inr, List, [], ◌∷◌, ◌++◌, Bytes, ◌==◌,
  ==_iff, take, drop, length, arith, Bool-cases, take-nil, append-nil,
}
use native.Mathlib.Nat.{add-zero}
use ai_inference_gateway.Prelude.Int.{pos}
use ai_inference_gateway.Http.{HttpConn, Iovec}
use ai_inference_gateway.Http.Write.{
  Writev, sent, again, failed, Outcome, advance, slice, write_loop,
}

-- `writev` never takes more than the first iovec offers.
abbrev pub IsHonest : List Writev → HttpConn → Type 0
IsHonest [] c = Unit {0}
IsHonest (again ∷ calls) c = Unit {0}
IsHonest (failed ∷ calls) c = Unit {0}
IsHonest (sent temp ∷ calls) c = (temp ≤ c.m_iv_0.iov_len) × IsHonest calls (advance temp c)

-- The counters add up to the response, what has gone out is its beginning, and the first iovec is
-- either empty or begins where that ends.
pub record IsSending (text : Bytes) (c : HttpConn) (out : Bytes) : Type 0 where
  pub buffer : c.m_write_buf ≡ text
  pub so_far : out ≡ take c.bytes_have_send text
  pub total : c.bytes_have_send + c.bytes_to_send ≡ length text
  pub at : (c.m_iv_0.iov_len ≡ 0) ⊎ (c.m_iv_0.iov_base ≡ pos c.bytes_have_send)
  pub fits : c.m_iv_0.iov_len ≤ c.bytes_to_send

take-take : (m l : ℕ) (xs : Bytes) → m ≤ l → take m (take l xs) ≡ take m xs
take-take zero l xs h = refl
take-take (suc m) zero xs h = absurd (omega arith)
take-take (suc m) (suc l) [] h = refl
take-take (suc m) (suc l) (x ∷ xs) h = ap (◌∷◌ x) (take-take m l xs (omega arith))

take-take-drop :
    (n m l : ℕ) (xs : Bytes) → m ≤ l → take n xs ++ take m (take l (drop n xs)) ≡ take (n + m) xs
take-take-drop zero m l xs h = ground (arith, take-take m l xs h)
take-take-drop (suc n) m l [] h =
    ground (arith, take-nil {A = ℕ} l, take-nil {A = ℕ} m, take-nil {A = ℕ} (suc n + m))
take-take-drop (suc n) m l (x ∷ xs) h =
    let e : suc n + m ≡ suc (n + m) = omega arith in rw e (ap (◌∷◌ x) (take-take-drop n m l xs h))

slice_at :
    (v : Iovec) (base : ℕ) (buf : Bytes)
    → v.iov_base ≡ pos base
    → slice v buf ≡ take v.iov_len (drop base buf)
slice_at v base buf e = rw e refl

-- What goes out next continues what has gone out.
pub sent_bytes :
    (text : Bytes) (temp : ℕ) (c : HttpConn) (out : Bytes)
    → IsSending text c out
    → temp ≤ c.m_iv_0.iov_len
    → out ++ take temp (slice c.m_iv_0 c.m_write_buf) ≡ take (c.bytes_have_send + temp) text
sent_bytes text temp c out v h = elim (v.at) [
  | inl none_left ↦ let z : temp ≡ 0 = omega arith in rw (z, append-nil, add-zero) v.so_far
  | inr e ↦
      rw (slice_at c.m_iv_0 c.bytes_have_send c.m_write_buf e, v.buffer, v.so_far)
        (take-take-drop c.bytes_have_send temp c.m_iv_0.iov_len text h)
]

pub advance-IsSending :
    (text : Bytes) (temp : ℕ) (c : HttpConn) (out : Bytes)
    → IsSending text c out
    → temp ≤ c.m_iv_0.iov_len
    → IsSending text (advance temp c) (out ++ take temp (slice c.m_iv_0 c.m_write_buf))
unfolding advance
advance-IsSending text temp c out v h = ground (arith, sent_bytes text temp c out v h)

-- What one call of `write` leaves: the whole response has gone out, or a beginning of it and the
-- counters say that something is left.
abbrev pub Sent : Bytes → Outcome × HttpConn × Bytes → Type 0
Sent text (outcome, c', out') = (out' ≡ text) ⊎ (IsSending text c' out' × (0 < c'.bytes_to_send))

take-length : (xs : Bytes) (n : ℕ) → n ≡ length xs → take n xs ≡ xs
take-length [] n e = take-nil n
take-length (x ∷ xs) zero e = absurd (omega arith)
take-length (x ∷ xs) (suc n) e = ap (◌∷◌ x) (take-length xs n (omega arith))

-- The branch of the loop's end.
pub finished :
    (text : Bytes) (c : HttpConn) (out : Bytes)
    → IsSending text c out
    → c.bytes_to_send ≡ 0
    → out ≡ text
finished text c out v none_left = v.so_far ∙ take-length text c.bytes_have_send (omega arith)

-- Whatever parts the kernel takes of a response that is all in the write buffer, none larger than the
-- first iovec offers, the loop of `write` has sent a beginning of the response, in order, and it has
-- sent all of it unless its counters say that something is left.
pub write_loop_prefix :
    (calls : List Writev) (text : Bytes) (c : HttpConn) (out : Bytes)
    → IsSending text c out
    → 0 < c.bytes_to_send
    → IsHonest calls c
    → Sent text (write_loop calls c out)
unfolding write_loop
write_loop_prefix [] text c out v left h = inr (v, left)
write_loop_prefix (again ∷ calls) text c out v left h = inr (v, left)
write_loop_prefix (failed ∷ calls) text c out v left h = inr (v, left)
write_loop_prefix (sent temp ∷ calls) text c out v left h =
    let out' = out ++ take temp (slice c.m_iv_0 c.m_write_buf) in
    let v' = advance-IsSending text temp c out v h.0 in
    elim (Bool-cases ((advance temp c).bytes_to_send == 0)) [
      | inl e ↦
          let all_sent = finished text (advance temp c) out' v' ((==_iff _ 0).0 e) in
          elim (Bool-cases (advance temp c).m_linger) [
            | inl keeps ↦ rw (e, keeps) (inl all_sent)
            | inr closes ↦ rw (e, closes) (inl all_sent)
          ]
      | inr e ↦ rw e (write_loop_prefix calls text (advance temp c) out' v' (ground (arith, e)) h.1)
    ]
