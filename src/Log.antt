-- ===== src/Log.antt =====
-- log/log.h and log.cpp. The streams are what was written to them, with the name of the file; what
-- `fopen` answers is a test of the name. Numbers of dates are not negative. A command is `none` where it
-- writes out of an array or through a null stream. Calls of several threads come one after another.
pub mod Lines
pub mod Files
pub mod Writes
mod Tests
use ai_inference_gateway.Prelude.{
  ℕ, zero, suc, ◌+◌, ◌-◌, ◌/◌, ◌%◌, Bool, true, false, List, [], ◌∷◌, ◌++◌, Option, none, some,
  if◌then◌else◌, ltb, leb, ◌==◌, ◌||◌, not, length, take, Bytes, codes,
}
use ai_inference_gateway.BlockQueue.{BlockQueue, create, full, push, pop}
use ai_inference_gateway.Http.Response.{decimal}

infixl 5 ◌>>=◌
abbrev pub ◌>>=◌ : {A B : Type 0} → Option A → (A → Option B) → Option B
◌>>=◌ m f = elim m [ none ↦ none | some a ↦ f a ]

-- `struct tm`
pub record Tm : Type 0 where
  pub tm_year : ℕ
  pub tm_mon : ℕ
  pub tm_mday : ℕ
  pub tm_hour : ℕ
  pub tm_min : ℕ
  pub tm_sec : ℕ

-- `m_log_queue` is `none` where `m_is_async` is false, `m_fp` where it is null, and else the file's name.
pub record Log : Type 0 where
  pub dir_name : Bytes
  pub log_name : Bytes
  pub m_split_lines : ℕ
  pub m_log_buf_size : ℕ
  pub m_count : ℕ
  pub m_today : ℕ
  pub m_fp : Option Bytes
  pub m_log_queue : Option (BlockQueue Bytes)
  pub m_close_log : ℕ
  pub disk : List (Bytes × Bytes)

-- The constructor, on an object of static storage.
unfoldable pub new_log : Log
new_log = record {
  dir_name = [];
  log_name = [];
  m_split_lines = 0;
  m_log_buf_size = 0;
  m_count = 0;
  m_today = 0;
  m_fp = none;
  m_log_queue = none;
  m_close_log = 0;
  disk = [];
}

-- `%02d`, `%06ld`: a number with zeros in front.
unfoldable pub pad : ℕ → ℕ → Bytes
unfolding decimal
pad width n = zeros (width - length (decimal n)) ++ decimal n
  where
    zeros : ℕ → Bytes
    zeros zero = []
    zeros (suc k) = 48 ∷ zeros k

-- `"%d_%02d_%02d_"`
unfoldable pub date : Tm → Bytes
unfolding pad decimal
date t =
    decimal (t.tm_year + 1900)
    ++ codes "_"
    ++ pad 2 (t.tm_mon + 1)
    ++ codes "_"
    ++ pad 2 t.tm_mday
    ++ codes "_"

-- The text behind the last `/`, and that up to it.
unfoldable pub split_name : Bytes → Option (Bytes × Bytes)
split_name [] = none
split_name (b ∷ bs) = elim (split_name bs) [
  | some (dir, name) ↦ some (b ∷ dir, name)
  | none ↦ if b == 47 then some (b ∷ [], bs) else none
]

-- `fopen(name, "a")`
unfoldable pub fopen : (Bytes → Bool) → Bytes → Option Bytes
fopen opens name = if opens name then some name else none

-- What `init` sets before it opens the file; `none` is `exit(-1)` of the queue's constructor.
unfoldable pub set_up : ℕ → ℕ → ℕ → ℕ → Log → Option Log
unfolding create
set_up close_log log_buf_size split_lines max_queue_size l =
    let l' = record l {
      m_close_log = close_log;
      m_log_buf_size = log_buf_size;
      m_split_lines = split_lines;
    } in
    if leb 1 max_queue_size
    then elim (create {T = Bytes} [] max_queue_size) [
      | none ↦ none
      | some q ↦ some (record l' { m_log_queue = some q })
    ]
    else some l'

-- `init`, at the date `t`: `none` where a part of the name does not fit its 128 bytes.
unfoldable pub init : (Bytes → Bool) → Tm → Bytes → ℕ → ℕ → ℕ → ℕ → Log → Option (Bool × Log)
unfolding set_up split_name date fopen
init opens t file_name close_log log_buf_size split_lines max_queue_size l = do
  l₁ ← set_up close_log log_buf_size split_lines max_queue_size l
  elim (split_name file_name) [
    | none ↦ open_as l₁ (take 298 (date t ++ file_name))
    | some (dir, name) ↦
        if leb 128 (length dir) || leb 128 (length name)
        then none
        else open_as (record l₁ { dir_name = dir; log_name = name })
            (take 298 (dir ++ date t ++ name))
  ]
  where
    open_as : Log → Bytes → Option (Bool × Log)
    open_as l name =
        let fp = fopen opens name in
        some (elim fp [ none ↦ false | some n ↦ true ], record l { m_today = t.tm_mday; m_fp = fp })

-- The `switch` of `write_log`.
unfoldable pub level_text : ℕ → Bytes
level_text level =
    if level == 0
    then codes "[debug]:"
    else if level == 1
    then codes "[info]:"
    else if level == 2
    then codes "[warn]:"
    else if level == 3
    then codes "[erro]:"
    else codes "[info]:"

-- The new file of `write_log`: `none` where its name does not fit its 256 bytes, or where the stream that
-- is closed is null.
unfoldable pub open_new : (Bytes → Bool) → Bytes → Log → Option Log
unfolding fopen
open_new opens name l = elim l.m_fp [
  | none ↦ none
  | some old ↦
      if leb 256 (length (take 298 name))
      then none
      else some (record l { m_fp = fopen opens (take 298 name) })
]

-- The first locked section of `write_log`.
unfoldable pub rotate : (Bytes → Bool) → Tm → Log → Option Log
unfolding open_new date decimal
rotate opens t l =
    let l' = record l { m_count = l.m_count + 1 } in
    let tail = take 15 (date t) in
    if not (l.m_today == t.tm_mday)
    then open_new opens (l.dir_name ++ tail ++ l.log_name)
        (record l' { m_today = t.tm_mday; m_count = 0 })
    else if (l.m_count + 1) % l.m_split_lines == 0
    then open_new opens
        (l.dir_name
          ++ tail
          ++ l.log_name
          ++ codes "."
          ++ decimal ((l.m_count + 1) / l.m_split_lines))
        l'
    else some l'

-- The head of a line: the time and the level.
unfoldable pub line_head : Tm → ℕ → ℕ → Bytes
unfolding decimal pad level_text
line_head t usec level =
    decimal (t.tm_year + 1900)
    ++ codes "-"
    ++ pad 2 (t.tm_mon + 1)
    ++ codes "-"
    ++ pad 2 t.tm_mday
    ++ codes " "
    ++ pad 2 t.tm_hour
    ++ codes ":"
    ++ pad 2 t.tm_min
    ++ codes ":"
    ++ pad 2 t.tm_sec
    ++ codes "."
    ++ pad 6 usec
    ++ codes " "
    ++ level_text level
    ++ codes " "

-- The second locked section: the text in `m_buf` at its end. `n` and `m` are the lengths that `snprintf`
-- and `vsnprintf` would have needed; `none` where the line's end is written out of the buffer.
unfoldable pub format_line : ℕ → Bytes → Bytes → Option Bytes
format_line size head message =
    if leb size (length head + length message + 1)
    then none
    else if ltb (length head) 48
    then some (head ++ message ++ 10 ∷ [])
    else some (take 47 head)

-- `fputs` to the open file.
unfoldable pub fputs : Bytes → Log → Option Log
fputs line l = elim l.m_fp [
  | none ↦ none
  | some name ↦ some (record l { disk = l.disk ++ (name, line) ∷ [] })
]

-- The line goes to the queue, or to the file.
unfoldable pub emit : Bytes → Log → Option Log
unfolding full push fputs
emit line l = elim l.m_log_queue [
  | none ↦ fputs line l
  | some q ↦
      if full q then fputs line l else some (record l { m_log_queue = some ((push line q).1) })
]

-- `write_log` at the date `t`, with the text that `vsnprintf` makes of the message.
unfoldable pub write_log : (Bytes → Bool) → Tm → ℕ → ℕ → Bytes → Log → Option Log
unfolding rotate line_head format_line emit
write_log opens t usec level message l = do
  l' ← rotate opens t l
  line ← format_line l'.m_log_buf_size (line_head t usec level) message
  emit line l'

-- One round of `async_write_log`: `none` where `pop` blocks.
unfoldable pub async_write_log : Log → Option (Option Log)
unfolding pop fputs
async_write_log l = elim l.m_log_queue [
  | none ↦ none
  | some q ↦ elim (pop q) [
    | none ↦ none
    | some (none, q') ↦ some none
    | some (some line, q') ↦ some (fputs line (record l { m_log_queue = some q' }))
  ]
]
