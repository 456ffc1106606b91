-- ===== src/Parser.antt =====
-- src/parser_resp.hpp and src/parser_resp.cpp: the RESP state machine. `parse_and_execute` walks
-- the received bytes; `handle_command` and the state it works on are parameters here, and
-- `Server` puts the program's own in.
pub mod Preserve
pub mod Bulk
pub mod Command
pub mod Stream
pub mod Malformed
mod Tests
use druta_db.Prelude.{
  ℕ, Option, none, some, Bool, not, List, [], ◌∷◌, ◌==◌, if◌then◌else◌, length, snoc, Bytes, ℤ, pos,
  int_of_size, ltb_ℤ, eqb_ℤ, Result, ok, fault, uncaught, ◌>>=◌,
}
use druta_db.Text.{stoi, cr, lf}

pub data ParserState : Type 0 where
  idle reading_array_size reading_bulk_size reading_data : ParserState

pub record RespParser : Type 0 where
  pub state : ParserState
  pub args : List Bytes
  pub array_count : ℤ
  pub current_bulk_len : ℤ
  pub current_buffer : Bytes
  pub data_accumulator : Bytes

-- What `reset` leaves, and a new parser.
abbrev pub reset : RespParser
reset = record {
  state = idle;
  args = [];
  array_count = pos 0;
  current_bulk_len = pos 0;
  current_buffer = [];
  data_accumulator = [];
}

-- case ParserState::IDLE
unfoldable pub step_idle : RespParser → ℕ → RespParser
step_idle p c =
    if c == b'*' then record p { state = reading_array_size; current_buffer = [] } else p

abbrev set_array_count : RespParser → Option ℤ → Result RespParser
set_array_count p none = fault uncaught
set_array_count p (some n) =
    ok (record p { state = reading_bulk_size; array_count = n; current_buffer = [] })

-- case ParserState::READING_ARRAY_SIZE; nothing catches what `std::stoi` throws here
unfoldable pub step_array_size : RespParser → ℕ → Result RespParser
step_array_size p c =
    if c == lf
    then set_array_count p (stoi p.current_buffer)
    else if not (c == cr)
    then ok (record p { current_buffer = snoc p.current_buffer c })
    else ok p

abbrev set_bulk_len : RespParser → Option ℤ → RespParser
set_bulk_len p none = reset
set_bulk_len p (some n) = record p {
  state = reading_data;
  current_bulk_len = n;
  current_buffer = [];
  data_accumulator = [];
}

abbrev end_bulk_size : RespParser → Bytes → RespParser
end_bulk_size p [] = p
end_bulk_size p (c ∷ cs) = set_bulk_len p (stoi (c ∷ cs))

-- case ParserState::READING_BULK_SIZE
unfoldable pub step_bulk_size : RespParser → ℕ → RespParser
step_bulk_size p c =
    if c == b'$'
    then record p { current_buffer = [] }
    else if c == lf
    then end_bulk_size p p.current_buffer
    else if not (c == cr)
    then record p { current_buffer = snoc p.current_buffer c }
    else p

module _ {W : Type 0} (handle_command : List Bytes → W → Result W) where
  -- `args` is complete or waits for its next member.
  unfoldable pub finish_argument : RespParser → W → Result (RespParser × W)
  finish_argument p w =
      if eqb_ℤ (int_of_size (length p.args)) p.array_count
      then (do w' ← handle_command p.args w; ok (reset, w'))
      else ok (record p { state = reading_bulk_size; current_buffer = [] }, w)

  -- case ParserState::READING_DATA
  unfoldable pub step_data : RespParser → ℕ → W → Result (RespParser × W)
  unfolding finish_argument
  step_data p c w =
      if ltb_ℤ (int_of_size (length p.data_accumulator)) p.current_bulk_len
      then ok (record p { data_accumulator = snoc p.data_accumulator c }, w)
      else if c == lf
      then finish_argument (record p { args = snoc p.args p.data_accumulator }) w
      else ok (p, w)

  abbrev dispatch : ParserState → RespParser → ℕ → W → Result (RespParser × W)
  dispatch idle p c w = ok (step_idle p c, w)
  dispatch reading_array_size p c w = do p' ← step_array_size p c; ok (p', w)
  dispatch reading_bulk_size p c w = ok (step_bulk_size p c, w)
  dispatch reading_data p c w = step_data p c w

  -- One round of the loop.
  unfoldable pub step : RespParser → ℕ → W → Result (RespParser × W)
  unfolding step_idle step_array_size step_bulk_size step_data
  step p c w = dispatch p.state p c w

  unfoldable pub parse_and_execute : RespParser → Bytes → W → Result (RespParser × W)
  unfolding step
  parse_and_execute p [] w = ok (p, w)
  parse_and_execute p (c ∷ buffer) w = do (p', w') ← step p c w; parse_and_execute p' buffer w'
