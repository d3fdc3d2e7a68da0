-- ===== src/Log/Tests.antt =====
-- Runs of log.cpp on the first two days of May 2024.
use ai_inference_gateway.Prelude.{
  ◌≡◌, refl, Bool, true, List, [], ◌∷◌, ◌++◌, map, Option, none, some, Bytes, codes, arith,
}
use ai_inference_gateway.Prelude.Int.{pos, negsuc}
use ai_inference_gateway.Http.Response.{digits}
use ai_inference_gateway.Log.{Log, Tm, new_log, init, write_log, async_write_log, ◌>>=◌}
use ai_inference_gateway.Log.Lines.{Yields, Keeps, Flushed, async_write_log_lem}
use mathlib.Core.List.{Permᴰ}

abbrev first_of_may : Tm
first_of_may = record {
  tm_year = 124;
  tm_mon = 4;
  tm_mday = 1;
  tm_hour = 9;
  tm_min = 5;
  tm_sec = 7;
}

abbrev second_of_may : Tm
second_of_may = record {
  tm_year = 124;
  tm_mon = 4;
  tm_mday = 2;
  tm_hour = 0;
  tm_min = 0;
  tm_sec = 1;
}

abbrev opens_all : Bytes → Bool
opens_all name = true

-- A log with files of two lines, and a queue that holds one line.
abbrev opened : Log
opened = record {
  dir_name = codes "./";
  log_name = codes "Log";
  m_split_lines = 2;
  m_log_buf_size = 64;
  m_count = 0;
  m_today = 1;
  m_fp = some (codes "./2024_05_01_Log");
  m_log_queue = none;
  m_close_log = 0;
  disk = [];
}

abbrev queued : Log
queued = record opened {
  m_log_queue = some (record {
    m_array = codes "old" ∷ [];
    m_size = 1;
    m_max_size = 1;
    m_front = negsuc 0;
    m_back = pos 0;
  });
}

queued-Keeps : Keeps queued (some (codes "old") ∷ [])
queued-Keeps = record {
  queue = record { room = omega arith; storage = refl; within = omega arith; aligned = refl };
  all = Permᴰ.cons refl Permᴰ.nil;
}

async_write_log_lem_example :
    Yields
      (async_write_log queued)
      (λ r. Yields r (λ l'. Flushed queued (codes "./2024_05_01_Log") (some (codes "old") ∷ []) l'))
async_write_log_lem_example =
    async_write_log_lem queued _ (codes "./2024_05_01_Log") (some (codes "old") ∷ []) queued-Keeps
      refl refl (omega arith)

-- A file's name after `init`.
abbrev name_after : Option (Bool × Log) → Option Bytes
name_after r = elim r [ none ↦ none | some (done, l) ↦ l.m_fp ]

init-name :
    name_after (init opens_all first_of_may (codes "./Serverlog") 0 2000 800000 0 new_log)
    ≡ some (codes "./2024_05_01_Serverlog")
unfolding init new_log digits
init-name = refl

-- The files of three lines, and of one on the next day.
abbrev files : Option Log → List Bytes
files r = elim r [ none ↦ [] | some l ↦ map (λ w. w.0) l.disk ]

write_log-files :
    files (
      write_log opens_all first_of_may 0 1 (codes "a") opened >>= λ l.
      write_log opens_all first_of_may 0 1 (codes "b") l >>= λ l.
      write_log opens_all first_of_may 0 1 (codes "c") l >>= λ l.
      write_log opens_all second_of_may 0 1 (codes "d") l)
    ≡ codes "./2024_05_01_Log"
      ∷ codes "./2024_05_01_Log.1"
      ∷ codes "./2024_05_01_Log.1"
      ∷ codes "./2024_05_02_Log"
      ∷ []
unfolding write_log digits
write_log-files = refl

-- A name without a slash is lost on the second day.
init-lost :
    files (elim (init opens_all first_of_may (codes "Log") 0 2000 800000 0 new_log) [
      | none ↦ none
      | some (done, l) ↦ write_log opens_all second_of_may 0 1 (codes "d") l
    ])
    ≡ codes "2024_05_02_" ∷ []
unfolding init new_log write_log digits
init-lost = refl

-- A line that finds the queue full is in the file before the older one that waits.
abbrev then_flushed : Option Log → Option Log
then_flushed r = r >>= λ l. elim (async_write_log l) [ none ↦ none | some r ↦ r ]

abbrev lines : Option Log → List Bytes
lines r = elim r [ none ↦ [] | some l ↦ map (λ w. w.1) l.disk ]

write_log-overtakes :
    lines (then_flushed (write_log opens_all first_of_may 0 1 (codes "new") queued))
    ≡ (codes "2024-05-01 09:05:07.000000 [info]: new" ++ 10 ∷ []) ∷ codes "old" ∷ []
unfolding write_log async_write_log digits
write_log-overtakes = refl

-- A message as long as the buffer is ended behind it.
write_log-overflow :
    write_log opens_all first_of_may 0 1 (codes "a message of more than twenty bytes") opened ≡ none
unfolding write_log digits
write_log-overflow = refl
