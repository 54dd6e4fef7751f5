-- ===== src/Mysql/Tests.antt =====
-- Runs of the MySQL code on concrete packets.
mod Wire
mod Field
mod Rows
mod Answer
mod Query
mod Auth
use async_ext.Prelude.{ℕ, Bool, true, false, Option, none, List, [], ◌∷◌, length, get_or}
use async_ext.Str.{Memory, Str}
use async_ext.Mysql.Rows.{Library}
use async_ext.Mysql.Client.{Value, Command, ReadState, Response, Client}

-- Memory that holds these bytes, and zeros behind them.
abbrev pub memory : List ℕ → Memory
memory bs i = get_or bs i 0

abbrev pub received : List ℕ → Str
received bs = record { str = memory bs; length = length bs; offset = 0; size = length bs }

abbrev no_response : Response
no_response = record {
  columns = none;
  num_column = 0;
  index_column = 0;
  num_row = 0;
  response_type = 0;
  packet_length = 0;
  packet_number = 0;
  error_code = 0;
  warnings = 0;
  status_code = 0;
  status_msg = [];
  server_msg = 0;
  l_server_msg = 0;
  affected_rows = 0;
  insert_id = 0;
  result_array = none;
}

-- A client that received these bytes in answer to a query.
abbrev pub waiting : List ℕ → Client
waiting bs = record {
  state = ReadState.read_start;
  cmd = Command.query;
  transaction = false;
  connected = true;
  statement = none;
  buffer = received bs;
  response = no_response;
  want_length = 0;
  check_offset = 0;
}

-- An OK packet: one row, insert id 5, status 2, no warning.
abbrev pub ok_packet : List ℕ
ok_packet = 7 ∷ 0 ∷ 0 ∷ 1 ∷ 0 ∷ 1 ∷ 5 ∷ 2 ∷ 0 ∷ 0 ∷ 0 ∷ []

-- An ERR packet: code 1064, state 42000, the message "no".
abbrev pub err_packet : List ℕ
err_packet = 11 ∷ 0 ∷ 0 ∷ 1 ∷ 255 ∷ 40 ∷ 4 ∷ 35 ∷ 52 ∷ 50 ∷ 48 ∷ 48 ∷ 48 ∷ 110 ∷ 111 ∷ []

-- No text is a number.
abbrev pub no_library : Library
no_library = record {
  strtoul = λ _. none;
  strtol = λ _. none;
  strtoull = λ _. none;
  strtoll = λ _. none;
  strtod = λ _. none;
  round_float = λ n. n;
  ulong_safe = λ n. Value.integer n;
}
