-- ===== src/Mysql/Client.antt =====
-- `mysql_client`, `mysql_response_t` and `mysql_statement` of swoole_mysql_async.h.
-- `buffer` is the string that the macro MYSQL_RESPONSE_BUFFER selects: `cmd`, which it looks at,
-- does not change while a response is read.
use async_ext.Prelude.{ℕ, Bool, Option, List}
use async_ext.Str.{Str}
use async_ext.Mysql.Field.{Field}

-- `enum class mysql_opcode`
pub data Opcode : Type 0 where
  error ok wait : Opcode

-- The commands of `enum mysql_command` that the code distinguishes.
pub data Command : Type 0 where
  query stmt_prepare stmt_execute other : Command

-- `enum mysql_read_state`
pub data ReadState : Type 0 where
  query read_start read_field read_row read_param read_end closed : ReadState

-- A value of the result array. Integers and floats stay the text that was converted.
pub data Value : Type 0 where
  null : Value
  text : List ℕ → Value
  integer : ℕ → Value
  float : ℕ → Value

pub record Statement : Type 0 where
  pub id : ℕ
  pub field_count : ℕ
  pub param_count : ℕ
  pub warning_count : ℕ
  pub unreaded_param_count : ℕ

-- `columns` and `result_array` are pointers; a column that is not decoded yet is zeroed memory.
-- `server_msg` is the place in the buffer.
pub record Response : Type 0 where
  pub columns : Option (List (Option Field))
  pub num_column : ℕ
  pub index_column : ℕ
  pub num_row : ℕ
  pub response_type : ℕ
  pub packet_length : ℕ
  pub packet_number : ℕ
  pub error_code : ℕ
  pub warnings : ℕ
  pub status_code : ℕ
  pub status_msg : List ℕ
  pub server_msg : ℕ
  pub l_server_msg : ℕ
  pub affected_rows : ℕ
  pub insert_id : ℕ
  pub result_array : Option (List (List (List ℕ × Value)))

pub record Client : Type 0 where
  pub state : ReadState
  pub cmd : Command
  pub transaction : Bool
  pub connected : Bool
  pub statement : Option Statement
  pub buffer : Str
  pub response : Response
  pub want_length : ℕ
  pub check_offset : ℕ
