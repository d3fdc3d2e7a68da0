-- ===== src/Log/Lines.antt =====
-- The lines of log.cpp on their way: none is lost and none is written twice.
use ai_inference_gateway.Prelude.{
  Bool, true, false, ltb, get_elem?, ◌%◌, ℕ, zero, suc, ◌<◌, ◌≡◌, refl, sym, ap, ap₂, ◌∙◌, subst,
  List, [], ◌∷◌, ◌++◌, map, append-nil, append_assoc, Option, none, some, if◌then◌else◌, leb, Bytes,
  length, arith, Bool-cases, Option-cases, inl, inr,
}
use ai_inference_gateway.BlockQueue.{BlockQueue, succ_index, full, push, pop, take_front}
use ai_inference_gateway.BlockQueue.Fifo.{contents, IsValid, push_lem, pop_lem}
use ai_inference_gateway.Log.{Log, fputs, emit, async_write_log}
use native.Mathlib.Nat.{mod-lt}
use mathlib.Core.List.{Permᴰ}
use mathlib.Core.List.Permᴰ as Perm

-- The lines in the files, in the order they were written, and those in the queue.
abbrev pub written : Log → List (Option Bytes)
written l = map (λ w. some w.1) l.disk

abbrev pub waiting : Option (BlockQueue Bytes) → List (Option Bytes)
waiting none = []
waiting (some q) = contents q

abbrev pub IsQueue : Option (BlockQueue Bytes) → Type 0
IsQueue none = Unit {0}
IsQueue (some q) = IsValid q

-- The lines logged are those in the files and in the queue.
pub record Keeps (l : Log) (logged : List (Option Bytes)) : Type 0 where
  pub queue : IsQueue l.m_log_queue
  pub all : Permᴰ (written l ++ waiting l.m_log_queue) logged

-- A command that has a result, and what holds of it.
abbrev pub Yields : {A : Type 0} → Option A → (A → Type 0) → Type 0
Yields none P = ⊥
Yields (some a) P = P a

map-append : {A B : Type 0} (f : A → B) (xs ys : List A) → map f (xs ++ ys) ≡ map f xs ++ map f ys
map-append f [] ys = refl
map-append f (x ∷ xs) ys = ap (λ zs. f x ∷ zs) (map-append f xs ys)

-- A line that goes to the file while others wait.
fputs-Keeps :
    (l : Log) (name line : Bytes) (logged : List (Option Bytes))
    → Keeps l logged
    → Keeps (record l { disk = l.disk ++ (name, line) ∷ [] }) (some line ∷ logged)
fputs-Keeps l name line logged k = record {
  queue = k.queue;
  all =
      subst (λ ws. Permᴰ ws (some line ∷ logged))
        (sym (
          ap (λ ws. ws ++ waiting l.m_log_queue)
            (map-append (λ w. some w.1) l.disk ((name, line) ∷ []))
          ∙ append_assoc (written l) (some line ∷ []) (waiting l.m_log_queue)))
        (Permᴰ.trans (Perm.middle (some line) (written l) (waiting l.m_log_queue))
          (Permᴰ.cons refl k.all));
}

-- A line that goes to the queue.
push-Keeps :
    (l : Log) (q : BlockQueue Bytes) (line : Bytes) (logged : List (Option Bytes))
    → l.m_log_queue ≡ some q
    → q.m_size < q.m_max_size
    → Keeps l logged
    → Keeps (record l { m_log_queue = some ((push line q).1) }) (some line ∷ logged)
push-Keeps l q line logged e room k =
    let v : IsValid q = subst IsQueue e k.queue in
    let (_, held, valid) = push_lem q line v room in
    record {
      queue = valid;
      all =
          subst (λ ws. Permᴰ ws (some line ∷ logged)) (sym (ap (λ ws. written l ++ ws) held) ∙ refl)
            (behind (written l) (contents q) (some line) logged
              (subst (λ o. Permᴰ (written l ++ waiting o) logged) e k.all));
    }
  where
    behind :
        {A : Type 0} (xs ys : List A) (x : A) (zs : List A)
        → Permᴰ (xs ++ ys) zs
        → Permᴰ (xs ++ (ys ++ x ∷ [])) (x ∷ zs)
    behind xs ys x zs p =
        subst (λ ws. Permᴰ ws (x ∷ zs)) (append_assoc xs ys (x ∷ []))
          (Permᴰ.trans (Perm.middle x (xs ++ ys) [])
            (Permᴰ.cons refl (subst (λ ws. Permᴰ ws zs) (sym (append-nil (xs ++ ys))) p)))

-- Whether there is a queue and it is not full.
abbrev pub has_room : Option (BlockQueue Bytes) → Bool
has_room none = false
has_room (some q) = ltb q.m_size q.m_max_size

-- Where a line is, with room in the queue: the last one of the queue, with the files as they were; and
-- without: the last one of the named file, with the queue as it was.
abbrev pub OutBy : Bool → Bytes → Bytes → Log → Log → Type 0
OutBy true name line l l' =
    (l'.disk ≡ l.disk) × (waiting l'.m_log_queue ≡ waiting l.m_log_queue ++ some line ∷ [])
OutBy false name line l l' =
    (l'.disk ≡ l.disk ++ (name, line) ∷ []) × (l'.m_log_queue ≡ l.m_log_queue)

abbrev pub IsOut : Bytes → Bytes → Log → Log → Type 0
IsOut name line l l' = OutBy (has_room l.m_log_queue) name line l l'

IsOut-by :
    (b : Bool) (name line : Bytes) (l l' : Log)
    → has_room l.m_log_queue ≡ b
    → OutBy b name line l l'
    → IsOut name line l l'
IsOut-by b name line l l' e o = subst (λ b. OutBy b name line l l') (sym e) o

-- What a line does on its way changes only the file's text and the queue.
pub record Emitted (l : Log) (name line : Bytes) (logged : List (Option Bytes)) (l' : Log)
    : Type 0 where
  pub keeps : Keeps l' (some line ∷ logged)
  pub out : IsOut name line l l'
  pub same : record l' { disk = l.disk; m_log_queue = l.m_log_queue } ≡ l

pub fputs_eq :
    (l : Log) (name line : Bytes)
    → l.m_fp ≡ some name
    → fputs line l ≡ some (record l { disk = l.disk ++ (name, line) ∷ [] })
unfolding fputs
fputs_eq l name line e =
    ap
      (λ fp. elim fp [ none ↦ none | some n ↦ some (record l { disk = l.disk ++ (n, line) ∷ [] }) ])
      e

-- The choice of `emit`, for a queue.
choose : Bytes → Log → Option (BlockQueue Bytes) → Option Log
unfolding full push
choose line l none = fputs line l
choose line l (some q) =
    if full q then fputs line l else some (record l { m_log_queue = some ((push line q).1) })

emit_eq : (l : Log) (line : Bytes) → emit line l ≡ choose line l l.m_log_queue
unfolding emit choose
emit_eq l line =
    elim l.m_log_queue
      as (λ o.
        elim o [
          | none ↦ fputs line l
          | some q ↦
              if full q
              then fputs line l
              else some (record l { m_log_queue = some ((push line q).1) })
        ]
        ≡ choose line l o) [ none ↦ refl | some q ↦ refl ]

choose_queue :
    (l : Log) (q : BlockQueue Bytes) (name line : Bytes) (logged : List (Option Bytes))
    → Keeps l logged
    → l.m_fp ≡ some name
    → l.m_log_queue ≡ some q
    → Yields (choose line l (some q)) (λ l'. Emitted l name line logged l')
unfolding choose full
choose_queue l q name line logged k e async = elim (Bool-cases (leb q.m_max_size q.m_size)) [
  | inl is_full ↦
      rw (is_full, fputs_eq l name line e)
        (record {
          keeps = fputs-Keeps l name line logged k;
          out =
              IsOut-by false name line l _ (ap has_room async ∙ ground (arith, is_full))
                (refl, refl);
          same = refl;
        })
  | inr room ↦
      let left : q.m_size < q.m_max_size = ground (arith, room) in
      let held = (push_lem q line (subst IsQueue async k.queue) left).1 in
      rw room (record {
        keeps = push-Keeps l q line logged async left k;
        out =
            IsOut-by true name line l _ (ap has_room async ∙ ground (arith, left))
              (refl, held ∙ ap (λ o. waiting o ++ some line ∷ []) (sym async));
        same = refl;
      })
]

pub emit_lem :
    (l : Log) (name line : Bytes) (logged : List (Option Bytes))
    → Keeps l logged
    → l.m_fp ≡ some name
    → Yields (emit line l) (λ l'. Emitted l name line logged l')
unfolding choose
emit_lem l name line logged k e =
    subst (λ r. Yields r (λ l'. Emitted l name line logged l')) (sym (emit_eq l line))
      (elim (Option-cases l.m_log_queue) [
        | inl sync ↦
            subst (λ o. Yields (choose line l o) (λ l'. Emitted l name line logged l')) (sym sync)
              (subst (λ r. Yields r (λ l'. Emitted l name line logged l'))
                (sym (fputs_eq l name line e))
                (record {
                  keeps = fputs-Keeps l name line logged k;
                  out = IsOut-by false name line l _ (ap has_room sync) (refl, refl);
                  same = refl;
                }))
        | inr (q, async) ↦
            subst (λ o. Yields (choose line l o) (λ l'. Emitted l name line logged l')) (sym async)
              (choose_queue l q name line logged k e async)
      ])

in_range : {A : Type 0} (xs : List A) (i : ℕ) → i < length xs → (x : A) × (get_elem? xs i ≡ some x)
in_range [] i h = absurd (omega arith)
in_range (x ∷ xs) zero h = (x, refl)
in_range (x ∷ xs) (suc i) h = in_range xs i (omega arith)

-- What one round of the log's thread leaves: the line that was the queue's oldest is the last one of
-- the named file, and the queue holds the others in their order.
pub record Flushed (l : Log) (name : Bytes) (logged : List (Option Bytes)) (l' : Log) : Type 0 where
  pub line : Bytes
  pub keeps : Keeps l' logged
  pub moved : l'.disk ≡ l.disk ++ (name, line) ∷ []
  pub oldest : waiting l.m_log_queue ≡ some line ∷ waiting l'.m_log_queue
  pub same : record l' { disk = l.disk; m_log_queue = l.m_log_queue } ≡ l

async_eq :
    (l : Log) (q : BlockQueue Bytes) (name line : Bytes)
    → l.m_fp ≡ some name
    → l.m_log_queue ≡ some q
    → pop q ≡ some (take_front q)
    → (take_front q).0 ≡ some line
    → async_write_log l
      ≡ some (
          some (record l {
            m_log_queue = some ((take_front q).1);
            disk = l.disk ++ (name, line) ∷ [];
          }))
unfolding async_write_log
async_eq l q name line e async popped item =
    ap
      (λ o. elim o [
        | none ↦ none
        | some q ↦ elim (pop q) [
          | none ↦ none
          | some (none, q') ↦ some none
          | some (some line, q') ↦ some (fputs line (record l { m_log_queue = some q' }))
        ]
      ])
      async
    ∙ ap
        (λ o. elim o [
          | none ↦ none
          | some (none, q') ↦ some none
          | some (some line, q') ↦ some (fputs line (record l { m_log_queue = some q' }))
        ])
        (popped ∙ ap (λ i. some (i, (take_front q).1)) item)
    ∙ ap some (fputs_eq (record l { m_log_queue = some ((take_front q).1) }) name line e)

-- Where lines wait and the file `name` is open, the log's thread appends the oldest line of the queue to
-- that file and takes it from the queue, the other lines of the queue stay in their order, the files'
-- earlier lines stay as they were, the lines in the files and in the queue are those that were logged,
-- each as often as before, and nothing else of the log changes.
pub async_write_log_lem :
    (l : Log) (q : BlockQueue Bytes) (name : Bytes) (logged : List (Option Bytes))
    → Keeps l logged
    → l.m_fp ≡ some name
    → l.m_log_queue ≡ some q
    → 0 < q.m_size
    → Yields (async_write_log l) (λ r. Yields r (λ l'. Flushed l name logged l'))
unfolding take_front
async_write_log_lem l q name logged k e async left =
    let v : IsValid q = subst IsQueue async k.queue in
    let (popped, held, valid) = pop_lem q v left in
    let i = succ_index q.m_front % q.m_max_size in
    let (line, item) =
      in_range q.m_array i
        (omega (arith, v.storage, mod-lt (succ_index q.m_front) {m = q.m_max_size} v.room)) in
    let q' = (take_front q).1 in
    let l' : Log = record l { m_log_queue = some q'; disk = l.disk ++ (name, line) ∷ [] } in
    subst (λ r. Yields r (λ r. Yields r (λ l'. Flushed l name logged l')))
      (sym (async_eq l q name line e async popped item))
      (record {
        line = line;
        keeps = record {
          queue = valid;
          all =
              subst (λ ws. Permᴰ ws logged)
                (ap₂ ◌++◌ refl (held ∙ ap (λ o. o ∷ contents q') item)
                  ∙ sym (append_assoc (written l) (some line ∷ []) (contents q'))
                  ∙ ap (λ ws. ws ++ contents q')
                      (sym (map-append (λ w. some w.1) l.disk ((name, line) ∷ []))))
                (subst (λ o. Permᴰ (written l ++ waiting o) logged) async k.all);
        };
        moved = refl;
        oldest = ap waiting async ∙ held ∙ ap (λ o. o ∷ contents q') item;
        same = refl;
      })
