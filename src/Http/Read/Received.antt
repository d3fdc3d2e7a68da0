-- ===== src/Http/Read/Received.antt =====
-- What `read_once` of http_conn.cpp leaves in the read buffer.
use ai_inference_gateway.Prelude.{
  ℕ, ◌+◌, ◌≤◌, ◌<◌, ◌≡◌, refl, sym, ap, ◌∙◌, Bool, true, false, List, [], ◌∷◌, ◌++◌, append_assoc,
  append-nil, Option, none, some, if◌then◌else◌, leb, ◌==◌, take, drop, length, length-append,
  length-take, length-drop, Bytes, arith, Bool-cases, inl, inr,
}
use ai_inference_gateway.Http.{HttpConn}
use ai_inference_gateway.Http.Read.{
  would_block, write_at, received, read_level, read_edge, read_once,
}

-- All bytes of the chunks, and that none of these is empty.
abbrev pub all_bytes : List Bytes → Bytes
all_bytes [] = []
all_bytes (c ∷ cs) = c ++ all_bytes cs

abbrev pub AreChunks : List Bytes → Type 0
AreChunks [] = Unit {0}
AreChunks (c ∷ cs) = (0 < length c) × AreChunks cs

-- The chunks of one call: the first in the level-triggered mode.
abbrev pub taken : ℕ → List Bytes → Bytes
taken mode [] = []
taken mode (c ∷ cs) = if mode == 0 then c else c ++ all_bytes cs

-- The bytes read so far.
abbrev pub text : HttpConn → Bytes
text c = take c.m_read_idx c.m_read_buf

-- The connection holds these bytes more, and as much room as before.
pub record Holds (c : HttpConn) (bytes : Bytes) (c' : HttpConn) : Type 0 where
  pub reads : text c' ≡ text c ++ bytes
  pub index : c'.m_read_idx ≡ c.m_read_idx + length bytes
  pub room : length c'.m_read_buf ≡ length c.m_read_buf
  pub size : c'.m_read_buf_size ≡ c.m_read_buf_size

take-exact : {A : Type 0} (xs ys : List A) → take (length xs) (xs ++ ys) ≡ xs
take-exact [] ys = refl
take-exact (x ∷ xs) ys = ap (λ zs. x ∷ zs) (take-exact xs ys)

write_at-take :
    (i : ℕ) (bytes buf : Bytes)
    → i + length bytes ≤ length buf
    → take (i + length bytes) (write_at i bytes buf) ≡ take i buf ++ bytes
unfolding write_at
write_at-take i bytes buf h =
    let front = take i buf ++ bytes in
    let n : length front ≡ i + length bytes =
      omega (arith, length-append (take i buf) bytes, length-take i buf) in
    ap (λ k. take k (front ++ drop (i + length bytes) buf)) (sym n)
    ∙ take-exact front (drop (i + length bytes) buf)

write_at-length :
    (i : ℕ) (bytes buf : Bytes)
    → i + length bytes ≤ length buf
    → length (write_at i bytes buf) ≡ length buf
unfolding write_at
write_at-length i bytes buf h = omega (
  arith,
  length-append (take i buf ++ bytes) (drop (i + length bytes) buf),
  length-append (take i buf) bytes,
  length-take i buf,
  length-drop (i + length bytes) buf,
)

received_lem :
    (bytes : Bytes) (c : HttpConn)
    → c.m_read_idx + length bytes ≤ length c.m_read_buf
    → Holds c bytes (received bytes c)
unfolding received
received_lem bytes c h = record {
  reads = write_at-take c.m_read_idx bytes c.m_read_buf h;
  index = refl;
  room = write_at-length c.m_read_idx bytes c.m_read_buf h;
  size = refl;
}

Holds-trans :
    (c d e : HttpConn) (xs ys : Bytes) → Holds c xs d → Holds d ys e → Holds c (xs ++ ys) e
Holds-trans c d e xs ys h k = record {
  reads = k.reads ∙ ap (λ t. t ++ ys) h.reads ∙ append_assoc (text c) xs ys;
  index = omega (arith, h.index, k.index, length-append xs ys);
  room = k.room ∙ h.room;
  size = k.size ∙ h.size;
}

-- The call succeeds, and the connection holds the bytes.
abbrev pub Reads : HttpConn → Bytes → Bool × Option HttpConn → Type 0
Reads c bytes (done, none) = ⊥
Reads c bytes (done, some c') = (done ≡ true) × Holds c bytes c'

Reads-trans :
    (c d : HttpConn) (xs ys : Bytes) (r : Bool × Option HttpConn)
    → Holds c xs d
    → Reads d ys r
    → Reads c (xs ++ ys) r
Reads-trans c d xs ys (done, none) h k = k
Reads-trans c d xs ys (done, some e) h k = (k.0, Holds-trans c d e xs ys h k.1)

read_edge_lem :
    (chunks : List Bytes) (c : HttpConn)
    → AreChunks chunks
    → c.m_read_idx + length (all_bytes chunks) ≤ length c.m_read_buf
    → Reads c (all_bytes chunks) (read_edge chunks would_block c)
unfolding read_edge
read_edge_lem [] c a h = (
  refl,
  record { reads = sym (append-nil (text c)); index = omega arith; room = refl; size = refl },
)
read_edge_lem ([] ∷ rest) c a h = absurd (omega (arith, a.0))
read_edge_lem ((b ∷ bytes) ∷ rest) c a h =
    let first : Bytes = b ∷ bytes in
    let fits = length-append first (all_bytes rest) in
    let d = received_lem first c (omega (arith, fits)) in
    Reads-trans c (received first c) first (all_bytes rest)
      (read_edge rest would_block (received first c)) d
      (read_edge_lem rest (received first c) a.1 (omega (arith, fits, d.index, d.room)))

not_full : (i k s : ℕ) → i + k ≤ s → 0 < k → leb s i ≡ false
not_full i k s h p = ground arith

-- On a connection with room in its buffer, where `recv` gives chunks of bytes that fit, one at least, and
-- then would block, `read_once` succeeds: the bytes read so far are followed by those of all chunks in the
-- edge-triggered mode, and of the first in the level-triggered one, and the buffer is as long as before.
pub read_once_lem :
    (first : Bytes) (rest : List Bytes) (c : HttpConn)
    → AreChunks (first ∷ rest)
    → length c.m_read_buf ≡ c.m_read_buf_size
    → c.m_read_idx + length (all_bytes (first ∷ rest)) ≤ c.m_read_buf_size
    → Reads c (taken c.m_trig_mode (first ∷ rest)) (read_once (first ∷ rest) would_block c)
unfolding read_once read_level
read_once_lem [] rest c a e h = absurd (omega (arith, a.0))
read_once_lem (b ∷ bytes) rest c a e h =
    let fits = length-append (b ∷ bytes) (all_bytes rest) in
    let room : leb c.m_read_buf_size c.m_read_idx ≡ false =
      not_full c.m_read_idx (length ((b ∷ bytes) ++ all_bytes rest)) c.m_read_buf_size h
        (omega (arith, fits)) in
    elim (Bool-cases (c.m_trig_mode == 0)) [
      | inl level ↦ rw (room, level) (refl, received_lem (b ∷ bytes) c (omega (arith, e, fits)))
      | inr edge ↦ rw (room, edge) (read_edge_lem ((b ∷ bytes) ∷ rest) c a (omega (arith, e)))
    ]
