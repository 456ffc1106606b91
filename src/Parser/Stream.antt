-- ===== src/Parser/Stream.antt =====
-- Streams of bytes: commands may be pipelined.
use druta_db.Prelude.{
  ◌≡◌, refl, sym, ap, fun_ext, ◌∙◌, List, [], ◌∷◌, ◌++◌, All, Bytes, Result, ok, ◌>>=◌, bind_assoc,
}
use druta_db.Resp.{format_resp_command}
use druta_db.Parser.{reset, parse_and_execute}
use druta_db.Parser.Command.{IsSendable, parse-format}

-- What the file or the socket carries for a list of commands.
unfoldable pub format_all : List (List Bytes) → Bytes
format_all [] = []
format_all (args ∷ cmds) = format_resp_command args ++ format_all cmds

module _ {W : Type 0} (h : List Bytes → W → Result W) where
  -- The handler on each command in turn.
  unfoldable pub run_all : List (List Bytes) → W → Result W
  run_all [] w = ok w
  run_all (args ∷ cmds) w = h args w >>= run_all cmds

  -- The bytes of several commands, one after the other, run exactly these commands in order, and
  -- leave the parser as new.
  pub parse-format_all :
      (cmds : List (List Bytes)) (w : W)
      → All IsSendable cmds
      → parse_and_execute h reset (format_all cmds) w ≡ (run_all cmds w >>= λ w'. ok (reset, w'))
  unfolding format_all run_all
  parse-format_all [] w s = unfold parse_and_execute in refl
  parse-format_all (args ∷ cmds) w s =
      parse-format h args (format_all cmds) w s.0
      ∙ ap (λ k. h args w >>= k) (fun_ext λ w'. parse-format_all cmds w' s.1)
      ∙ sym (bind_assoc (h args w) (run_all cmds) (λ w'. ok (reset, w')))
