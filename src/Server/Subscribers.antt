-- ===== src/Server/Subscribers.antt =====
-- What a client in subscriber mode may do, as `handle_command` of src/commands.cpp decides it.
use druta_db.Prelude.{
  ◌≡◌, refl, sym, subst, inl, inr, Bool, true, false, Bool-cases, List, ◌∷◌, length, leb, arith,
  Bytes, bytes_key, same, same_iff, cmp_bytes, ℤ, Result, ok, Returns, ◌>>=◌ as bind_result,
}
use druta_db.Text.{codes, to_upper}
use druta_db.PubSub.{client, put_client, pubsub_subscribe, pubsub_unsubscribe}
use druta_db.Commands.Strings.{command_ping}
use druta_db.Aof.{Env}
use druta_db.Server.{
  World, send_reply, data_command, run_data, other_command, run_command, log_command, unknown_reply,
  subscriber_refused, is_refused, handle_command,
}

-- The data and the file are as before.
abbrev pub IsUntouched : World → World → Type 0
IsUntouched w w' = (w'.db ≡ w.db) × (w'.aof ≡ w.aof)

abbrev Quiet : World → Result (World × Bool) → Type 0
Quiet w r = Returns r (λ p. IsUntouched w p.0 × (p.1 ≡ false))

module _ (now fd : ℤ) (args : List Bytes) (w : World) where
  ping-Quiet : Quiet w (run_command now fd (codes "PING") args w)
  unfolding run_command data_command run_data same cmp_bytes
  ping-Quiet =
      ((record w { net = send_reply fd command_ping w.net }, false), refl, ((refl, refl), refl))

  subscribe-Quiet : Quiet w (run_command now fd (codes "SUBSCRIBE") args w)
  unfolding run_command data_command other_command same cmp_bytes
  subscribe-Quiet = elim (Bool-cases (leb 2 (length args))) [
    | inl e ↦
        rw e
          ((record w { net = pubsub_subscribe fd args w.net }, false), refl, ((refl, refl), refl))
    | inr n ↦ rw n (
      (record w { net = send_reply fd (unknown_reply (codes "SUBSCRIBE")) w.net }, false),
      refl,
      ((refl, refl), refl),
    )
  ]

  unsubscribe-Quiet : Quiet w (run_command now fd (codes "UNSUBSCRIBE") args w)
  unfolding run_command data_command other_command same cmp_bytes
  unsubscribe-Quiet = elim (Bool-cases (leb 1 (length args))) [
    | inl e ↦
        rw e
          ((record w { net = pubsub_unsubscribe fd args w.net }, false), refl, ((refl, refl), refl))
    | inr n ↦ rw n (
      (record w { net = send_reply fd (unknown_reply (codes "UNSUBSCRIBE")) w.net }, false),
      refl,
      ((refl, refl), refl),
    )
  ]

  -- A command that is not refused is one of the three.
  allowed-Quiet :
      (cmd : Bytes) → is_refused true cmd ≡ false → Quiet w (run_command now fd cmd args w)
  unfolding is_refused
  allowed-Quiet cmd r = elim (Bool-cases (same cmd (codes "PING"))) [
    | inl e ↦
        subst (λ c. Quiet w (run_command now fd c args w)) (sym ((same_iff cmd (codes "PING")).0 e))
          ping-Quiet
    | inr n ↦ elim (Bool-cases (same cmd (codes "SUBSCRIBE"))) [
      | inl e ↦
          subst (λ c. Quiet w (run_command now fd c args w))
            (sym ((same_iff cmd (codes "SUBSCRIBE")).0 e)) subscribe-Quiet
      | inr m ↦ elim (Bool-cases (same cmd (codes "UNSUBSCRIBE"))) [
        | inl e ↦
            subst (λ c. Quiet w (run_command now fd c args w))
              (sym ((same_iff cmd (codes "UNSUBSCRIBE")).0 e)) unsubscribe-Quiet
        | inr o ↦ absurd (ground (arith, r, n, m, o))
      ]
    ]
  ]

log_command-silent :
    (env : Env) (fd : ℤ) (args : List Bytes) (p : World × Bool)
    → p.1 ≡ false
    → log_command env fd args p ≡ ok p.0
unfolding log_command
log_command-silent env fd args (w, success) e = rw e (ground arith)

logged-Quiet :
    (env : Env) (fd : ℤ) (args : List Bytes) (w : World) (r : Result (World × Bool))
    → Quiet w r
    → Returns (bind_result r (log_command env fd args)) (IsUntouched w)
logged-Quiet env fd args w r (p, e, (u, f)) = (p.0, rw e (log_command-silent env fd args p f), u)

-- A command of a client in subscriber mode, whatever it is, ends without a fault and changes neither
-- the data nor the file.
pub handle_command-subscriber :
    (env : Env) (fd : ℤ) (name : Bytes) (rest : List Bytes) (w : World)
    → (client w.net fd).is_subscriber ≡ true
    → Returns (handle_command env fd (name ∷ rest) w) (IsUntouched w)
unfolding handle_command
handle_command-subscriber env fd name rest w s =
    let w' = record w { net = put_client fd (client w.net fd) w.net } in
    elim (Bool-cases (is_refused true (to_upper name))) [
      | inl e ↦
          rw (s, e) (record w { net = send_reply fd subscriber_refused w'.net }, refl, (refl, refl))
      | inr n ↦
          rw (s, n)
            (logged-Quiet env fd (name ∷ rest) w'
              (run_command env.now fd (to_upper name) (name ∷ rest) w')
              (allowed-Quiet env.now fd (name ∷ rest) w' (to_upper name) n))
    ]
