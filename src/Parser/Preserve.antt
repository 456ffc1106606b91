-- ===== src/Parser/Preserve.antt =====
-- What a handler keeps, the parser keeps: it changes the state through the handler alone.
use druta_db.Prelude.{
  Leaves, bind-Leaves, inl, inr, Bool-cases, eqb_ℤ, ltb_ℤ, int_of_size, length, snoc, ◌==◌, List,
  [], ◌∷◌, Bytes, ℕ, Result, ok, fault, ◌>>=◌,
}
use druta_db.Text.{lf}
use druta_db.Parser.{
  ParserState, idle, reading_array_size, reading_bulk_size, reading_data, RespParser, reset,
  step_array_size, finish_argument, step_data, dispatch, step, parse_and_execute,
}

module _ {W : Type 0} (h : List Bytes → W → Result W) (P : W → Type 0)
    (keeps : (args : List Bytes) (w : W) → P w → Leaves P (h args w)) where
  abbrev Q : RespParser × W → Type 0
  Q r = P r.1

  size-Leaves : (w : W) (r : Result RespParser) → P w → Leaves Q (r >>= λ p'. ok (p', w))
  size-Leaves w (ok p') i = i
  size-Leaves w (fault e) i = tt

  finish_argument-Leaves : (p : RespParser) (w : W) → P w → Leaves Q (finish_argument h p w)
  unfolding finish_argument
  finish_argument-Leaves p w i =
      elim (Bool-cases (eqb_ℤ (int_of_size (length p.args)) p.array_count)) [
        | inl e ↦
            rw e
              (bind-Leaves P Q (h p.args w) (λ w'. ok (reset, w')) (keeps p.args w i) (λ w' j. j))
        | inr n ↦ rw n i
      ]

  dispatch-Leaves :
      (s : ParserState) (p : RespParser) (c : ℕ) (w : W) → P w → Leaves Q (dispatch h s p c w)
  unfolding step_data
  dispatch-Leaves idle p c w i = i
  dispatch-Leaves reading_array_size p c w i = size-Leaves w (step_array_size p c) i
  dispatch-Leaves reading_bulk_size p c w i = i
  dispatch-Leaves reading_data p c w i =
      elim (Bool-cases (ltb_ℤ (int_of_size (length p.data_accumulator)) p.current_bulk_len)) [
        | inl e ↦ rw e i
        | inr n ↦ elim (Bool-cases (c == lf)) [
          | inl e ↦
              rw (n, e)
                (finish_argument-Leaves (record p { args = snoc p.args p.data_accumulator }) w i)
          | inr m ↦ rw (n, m) i
        ]
      ]

  pub parse_and_execute-Leaves :
      (p : RespParser) (buffer : Bytes) (w : W) → P w → Leaves Q (parse_and_execute h p buffer w)
  unfolding parse_and_execute step
  parse_and_execute-Leaves p [] w i = i
  parse_and_execute-Leaves p (c ∷ buffer) w i =
      bind-Leaves Q Q (dispatch h p.state p c w) (λ r. parse_and_execute h r.0 buffer r.1)
        (dispatch-Leaves p.state p c w i) (λ r j. parse_and_execute-Leaves r.0 buffer r.1 j)
