-- ===== src/Log/Writes.antt =====
-- A call of `write_log` of log.cpp, from its rotation to its line.
use ai_inference_gateway.Prelude.{ℕ, ◌/◌, List, [], ◌∷◌, ◌++◌, Option, some, Bytes}
use ai_inference_gateway.Log.{Log, Tm, line_head}
use ai_inference_gateway.Log.Lines.{Keeps, IsOut}
use ai_inference_gateway.Log.Files.{IsAt, file_name}

-- The line of a message.
abbrev pub line_of : Tm → ℕ → ℕ → Bytes → Bytes
line_of t usec level message = line_head t usec level ++ message ++ 10 ∷ []

-- What a call of `write_log` leaves; a line that goes to a file goes to that of the day and the count.
pub record Logged (l : Log) (u : Tm) (line : Bytes) (logged : List (Option Bytes)) (l' : Log)
    : Type 0 where
  pub keeps : Keeps l' (some line ∷ logged)
  pub out : IsOut (file_name l' u (l'.m_count / l'.m_split_lines)) line l l'
  pub at : IsAt l' u
