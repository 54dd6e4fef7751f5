-- ===== src/Mysql/Response/Total.antt =====
-- mysql_response of swoole_mysql.cc: its loop comes to an end after few rounds.
use async_ext.Prelude.{
  ℕ, zero, suc, ◌<◌, ◌≤◌, ◌≡◌, Bool, true, false, Option, none, some, arith, refl, ltb, Bool-cases,
  inl, inr, ap, ◌∙◌,
}
use native.Mathlib.Decide.{dec_le}
use async_ext.Mysql.Wire.{Coded}
use async_ext.Mysql.Client.{Opcode, ReadState, Statement, Client}
use async_ext.Mysql.Packet.{read_eof, read_err, read_ok, parse_prepare_result, is_prepare}
use async_ext.Mysql.Columns.{Outcome, unread, is_complete, read_columns, read_params}
use async_ext.Mysql.Response.{
  Setting, Round, returns, again, loop_on, start_columns, start_statement, unless_prepared,
  unless_ok, unless_start_eof, unless_start_err, start_packet, start_round, field_round, row_end,
  param_statement, param_round, response_round, response_loop, response, read_rows,
}

-- How many rounds may follow.
abbrev pub rank : ReadState → ℕ
rank ReadState.read_start = 4
rank ReadState.read_param = 3
rank ReadState.read_field = 2
rank ReadState.read_row = 1
rank ReadState.query = 0
rank ReadState.read_end = 0
rank ReadState.closed = 0

-- A round returns, or leaves fewer rounds than `n`.
abbrev Falls : ℕ → Round → Type 0
Falls n (returns o) = Unit {0}
Falls n (again c) = rank c.state < n

start_columns-Falls : (c : Client) (k : ℕ) (r : Option Coded) → Falls 4 (start_columns c k r)
unfolding start_columns
start_columns-Falls c k none = tt
start_columns-Falls c k (some r) = omega arith

start_statement-Falls : (st : Option Statement) (c : Client) → Falls 4 (start_statement st c)
unfolding start_statement
start_statement-Falls none c = tt
start_statement-Falls (some st) c = elim (Bool-cases (ltb 0 st.param_count)) [
  | inl e ↦ rw e (omega arith)
  | inr e ↦ elim (Bool-cases (ltb 0 st.field_count)) [
    | inl f ↦ rw (e, f) (omega arith)
    | inr f ↦ rw (e, f) tt
  ]
]

unless_prepared-Falls : (c : Client) (k : ℕ) (r : Opcode × Client) → Falls 4 (unless_prepared c k r)
unfolding unless_prepared
unless_prepared-Falls c k (Opcode.ok, c') = start_statement-Falls c'.statement c'
unless_prepared-Falls c k (Opcode.error, c') = start_columns-Falls c k _
unless_prepared-Falls c k (Opcode.wait, c') = start_columns-Falls c k _

unless_ok-Falls : (c : Client) (k : ℕ) (r : Opcode × Client) → Falls 4 (unless_ok c k r)
unfolding unless_ok
unless_ok-Falls c k (Opcode.ok, c') = tt
unless_ok-Falls c k (Opcode.error, c') = unless_prepared-Falls c k (parse_prepare_result c k)
unless_ok-Falls c k (Opcode.wait, c') = unless_prepared-Falls c k (parse_prepare_result c k)

unless_start_eof-Falls :
    (c : Client) (k : ℕ) (r : Opcode × Client) → Falls 4 (unless_start_eof c k r)
unfolding unless_start_eof
unless_start_eof-Falls c k (Opcode.ok, c') = tt
unless_start_eof-Falls c k (Opcode.error, c') = unless_ok-Falls c k (read_ok c k (unread c))
unless_start_eof-Falls c k (Opcode.wait, c') = unless_ok-Falls c k (read_ok c k (unread c))

unless_start_err-Falls : (c : Client) (k : ℕ) (r : Bool × Client) → Falls 4 (unless_start_err c k r)
unfolding unless_start_err
unless_start_err-Falls c k (true, c') = tt
unless_start_err-Falls c k (false, c') = unless_start_eof-Falls c k (read_eof c k)

start_round-Falls : (c : Client) → Falls 4 (start_round c)
unfolding start_round
start_round-Falls c = elim (Bool-cases (is_complete c)) [
  | inl e ↦ rw e (
      unless_start_err-Falls (start_packet c) c.buffer.offset
        (read_err (start_packet c) c.buffer.offset))
  | inr e ↦ rw e tt
]

field_round-Falls : (o : Outcome) → Falls 2 (field_round o)
unfolding field_round
field_round-Falls none = tt
field_round-Falls (some (Opcode.ok, c)) = elim (Bool-cases (is_prepare c.cmd)) [
  | inl e ↦ rw e tt
  | inr e ↦ rw e (omega arith)
]
field_round-Falls (some (Opcode.error, c)) = tt
field_round-Falls (some (Opcode.wait, c)) = tt

param_statement-Falls : (st : Option Statement) (c : Client) → Falls 3 (param_statement st c)
unfolding param_statement
param_statement-Falls none c = tt
param_statement-Falls (some st) c = elim (Bool-cases (ltb 0 st.field_count)) [
  | inl e ↦ rw e (omega arith)
  | inr e ↦ rw e tt
]

param_round-Falls : (o : Outcome) → Falls 3 (param_round o)
unfolding param_round
param_round-Falls none = tt
param_round-Falls (some (Opcode.ok, c)) = param_statement-Falls c.statement c
param_round-Falls (some (Opcode.error, c)) = tt
param_round-Falls (some (Opcode.wait, c)) = tt

row_end-Falls : (o : Outcome) → Falls 1 (row_end o)
unfolding row_end
row_end-Falls none = tt
row_end-Falls (some (Opcode.wait, c)) = tt
row_end-Falls (some (Opcode.ok, c)) = tt
row_end-Falls (some (Opcode.error, c)) = tt

response_round-Falls :
    (s : Setting) (st : ReadState) (c : Client) → Falls (rank st) (response_round s st c)
unfolding response_round
response_round-Falls s ReadState.read_start c = start_round-Falls c
response_round-Falls s ReadState.read_field c = field_round-Falls (read_columns c)
response_round-Falls s ReadState.read_row c = row_end-Falls (read_rows s c)
response_round-Falls s ReadState.read_param c = param_round-Falls (read_params c)
response_round-Falls s ReadState.query c = tt
response_round-Falls s ReadState.read_end c = tt
response_round-Falls s ReadState.closed c = tt

-- Where a round leaves fewer rounds than the fuel, another unit of fuel makes no difference.
loop_on-more :
    (fuel : ℕ) (s : Setting) (r : Round)
    → ((c : Client) → rank c.state < fuel → response_loop (suc fuel) s c ≡ response_loop fuel s c)
    → Falls fuel r
    → loop_on (response_loop (suc fuel) s) r ≡ loop_on (response_loop fuel s) r
loop_on-more fuel s (returns o) h f = refl
loop_on-more fuel s (again c) h f = h c f

Falls-mono : (m n : ℕ) (r : Round) → m ≤ n → Falls m r → Falls n r
Falls-mono m n (returns o) h f = tt
Falls-mono m n (again c) h f = omega arith

response_loop-more :
    (fuel : ℕ) (s : Setting) (c : Client)
    → rank c.state < fuel
    → response_loop (suc fuel) s c ≡ response_loop fuel s c
unfolding response_loop
response_loop-more zero s c h = elim h [ ]
response_loop-more (suc fuel) s c h = rw (
    loop_on-more fuel s (response_round s c.state c) (response_loop-more fuel s)
      (Falls-mono (rank c.state) fuel _ (omega arith) (response_round-Falls s c.state c)))

rank_bound : (st : ReadState) → rank st < 5
rank_bound ReadState.read_start = omega arith
rank_bound _ = omega arith

-- The loop of mysql_response needs no sixth round: with five units of fuel or more its outcome
-- does not depend on the fuel.
pub response-rounds :
    (fuel : ℕ) (s : Setting) (c : Client) → 5 ≤ fuel → response_loop fuel s c ≡ response s c
unfolding response
response-rounds zero s c h = elim h [ ]
response-rounds (suc fuel) s c h = elim (dec_le 5 fuel) [
  | yes p ↦
      response_loop-more fuel s c (omega (arith, rank_bound c.state)) ∙ response-rounds fuel s c p
  | no p ↦ ap (λ n. response_loop n s c) {x = suc fuel} {y = 5} (omega arith)
]
