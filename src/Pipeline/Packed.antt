-- ===== src/Pipeline/Packed.antt =====
-- What is written for a pipeline.
use redis_rs.Base.{
  ℕ, zero, suc, ◌+◌, ◌≤◌, ◌≡◌, refl, sym, ap, ◌∙◌, Bool, true, false, Option, List, [], ◌∷◌, ◌++◌,
  append_assoc, append-nil, Bytes, codes, length, arith, to_decimal,
}
use redis_rs.Value.Integer.{i64_max}
use redis_rs.Value.Defs.{Value, array}
use redis_rs.Cmd.{Cmd, simple, new, write_arg, args_iter, args_from, is_empty}
use redis_rs.Cmd.Args.{write_args, args_iter-write_args, new-IsValid}
use redis_rs.Cmd.Pack.{
  write_command, write_packed_command, get_packed_command, cursor_or_zero, item_bytes,
}
use redis_rs.Cmd.Length.{length-write_packed_command}
use redis_rs.Resp.Stream.{Combine, Parsed, done, ◌>>=◌}
use redis_rs.Resp.Parser.{parse_redis_value}
use redis_rs.Resp.RoundTrip.{bulk_strings, Fits, parse_redis_value-get_packed_command}
use redis_rs.Pipeline.{
  Pipeline, named, write_commands, write_pipeline, get_packed_pipeline, commands_len, reserved,
}

-- The commands that are sent for a pipeline.
abbrev pub sent_commands : List Cmd → Bool → List Cmd
sent_commands cmds true = named (codes "MULTI") ∷ cmds ++ named (codes "EXEC") ∷ []
sent_commands cmds false = cmds

module _ (format : ℕ → Bytes) where
  -- Commands that can be written, and read again.
  abbrev pub AllWritable : List Cmd → Type 0
  AllWritable [] = Unit
  AllWritable (c ∷ cs) =
      (is_empty c ≡ false)
      × (length (args_iter c) ≤ i64_max)
      × Fits format (cursor_or_zero c.cursor_value) (args_iter c)
      × AllWritable cs

  -- The arguments of each command, as a server reads them.
  abbrev pub all_arguments : List Cmd → List Value
  all_arguments [] = []
  all_arguments (c ∷ cs) =
      array (bulk_strings format (cursor_or_zero c.cursor_value) (args_iter c)) ∷ all_arguments cs

  abbrev packed : List Cmd → Bytes
  packed [] = []
  packed (c ∷ cs) = get_packed_command format c ++ packed cs

module _ (c : Combine) (parse_f64 : Bytes → Option ℕ) where
  -- A server that reads as many values as there are commands.
  abbrev pub read_values : ℕ → Bytes → Parsed (List Value)
  read_values zero s = done [] s
  read_values (suc n) s = parse_redis_value c parse_f64 s >>= λ v rest.
      read_values n rest >>= λ vs rest'. done (v ∷ vs) rest'

module _ (format : ℕ → Bytes) (decimal : (n : ℕ) → format n ≡ to_decimal n) where
  length-write_commands :
      (out : Bytes) (cmds : List Cmd)
      → length (write_commands format out cmds) ≡ length out + commands_len cmds
  unfolding write_commands commands_len
  length-write_commands out [] = omega arith
  length-write_commands out (c ∷ cs) = omega (
    arith,
    length-write_commands (write_packed_command format out c) cs,
    length-write_packed_command format decimal out c,
  )

  -- What is written for a pipeline, atomic or not, is exactly as long as what was reserved for it.
  pub length-write_pipeline :
      (out : Bytes) (cmds : List Cmd) (transaction : Bool)
      → length (write_pipeline format out cmds transaction) ≡ length out + reserved cmds transaction
  unfolding write_pipeline reserved
  length-write_pipeline out cmds true =
      let multi = named (codes "MULTI") in
      let exec = named (codes "EXEC") in
      let begun = write_packed_command format out multi in
      omega (
        arith,
        length-write_packed_command format decimal out multi,
        length-write_commands begun cmds,
        length-write_packed_command format decimal (write_commands format begun cmds) exec,
      )
  length-write_pipeline out cmds false = length-write_commands out cmds

  write_packed_command-append :
      (out : Bytes) (c : Cmd)
      → is_empty c ≡ false
      → write_packed_command format out c ≡ out ++ get_packed_command format c
  unfolding get_packed_command write_packed_command write_command
  write_packed_command-append out c full = rw full refl

  write_commands-packed :
      (out : Bytes) (cmds : List Cmd)
      → AllWritable format cmds
      → write_commands format out cmds ≡ out ++ packed format cmds
  unfolding write_commands
  write_commands-packed out [] w = sym (append-nil out)
  write_commands-packed out (c ∷ cs) w =
      write_commands-packed (write_packed_command format out c) cs w.3
      ∙ (ap (λ b. b ++ packed format cs) (write_packed_command-append out c w.0)
          ∙ append_assoc out (get_packed_command format c) (packed format cs))

  module _ (c : Combine) (parse_f64 : Bytes → Option ℕ) where
    read_values-packed :
        (cmds : List Cmd) (rest : Bytes)
        → AllWritable format cmds
        → read_values c parse_f64 (length cmds) (packed format cmds ++ rest)
          ≡ done (all_arguments format cmds) rest
    read_values-packed [] rest w = refl
    read_values-packed (cmd ∷ cmds) rest w =
        rw
          (
            append_assoc (get_packed_command format cmd) (packed format cmds) rest,
            parse_redis_value-get_packed_command c parse_f64 format decimal cmd
                (packed format cmds ++ rest) w.0 w.1 w.2,
            read_values-packed cmds rest w.3,
          )
          refl

    AllWritable-append :
        (cs ds : List Cmd)
        → AllWritable format cs
        → AllWritable format ds
        → AllWritable format (cs ++ ds)
    AllWritable-append [] ds w v = v
    AllWritable-append (c ∷ cs) ds w v = (w.0, w.1, w.2, AllWritable-append cs ds w.3 v)

    named-args_iter : (name : Bytes) → args_iter (named name) ≡ simple name ∷ []
    unfolding named args_iter args_from new
    named-args_iter name = unfold write_args in args_iter-write_args new (name ∷ []) new-IsValid

    named-AllWritable :
        (name : Bytes) → length name ≤ i64_max → AllWritable format (named name ∷ [])
    unfolding named write_arg is_empty item_bytes new
    named-AllWritable name h =
        (refl, rw (named-args_iter name) (omega arith), rw (named-args_iter name) (h, tt), tt)

    sent_commands-AllWritable :
        (cmds : List Cmd) (transaction : Bool)
        → AllWritable format cmds
        → AllWritable format (sent_commands cmds transaction)
    sent_commands-AllWritable cmds false w = w
    sent_commands-AllWritable cmds true w =
        let multi = named-AllWritable (codes "MULTI") (omega arith) in
        (
          multi.0,
          multi.1,
          multi.2,
          AllWritable-append cmds (named (codes "EXEC") ∷ []) w
              (named-AllWritable (codes "EXEC") (omega arith)),
        )

    write_commands-append :
        (out : Bytes) (cs ds : List Cmd)
        → write_commands format out (cs ++ ds)
          ≡ write_commands format (write_commands format out cs) ds
    unfolding write_commands
    write_commands-append out [] ds = refl
    write_commands-append out (c ∷ cs) ds =
        write_commands-append (write_packed_command format out c) cs ds

    write_pipeline-sent_commands :
        (cmds : List Cmd) (transaction : Bool)
        → write_pipeline format [] cmds transaction
          ≡ write_commands format [] (sent_commands cmds transaction)
    unfolding write_pipeline write_commands
    write_pipeline-sent_commands cmds false = refl
    write_pipeline-sent_commands cmds true =
        sym (write_commands-append _ cmds (named (codes "EXEC") ∷ []))

    write_pipeline-packed :
        (cmds : List Cmd) (transaction : Bool)
        → AllWritable format cmds
        → write_pipeline format [] cmds transaction ≡ packed format (sent_commands cmds transaction)
    write_pipeline-packed cmds transaction w =
        write_pipeline-sent_commands cmds transaction
        ∙ write_commands-packed [] (sent_commands cmds transaction)
            (sent_commands-AllWritable cmds transaction w)

    -- A server reads from what is written for a pipeline, and from nothing behind it, its commands with
    -- their arguments one by one, between MULTI and EXEC if it is atomic. No command is empty, and the
    -- number and lengths of each one's arguments are within `i64`.
    pub read_values-get_packed_pipeline :
        (p : Pipeline) (rest : Bytes)
        → AllWritable format p.commands
        → read_values c parse_f64
            (length (sent_commands p.commands p.transaction_mode))
            (get_packed_pipeline format p ++ rest)
          ≡ done (all_arguments format (sent_commands p.commands p.transaction_mode)) rest
    unfolding get_packed_pipeline
    read_values-get_packed_pipeline p rest w =
        rw (write_pipeline-packed p.commands p.transaction_mode w) (
          read_values-packed (sent_commands p.commands p.transaction_mode) rest
            (sent_commands-AllWritable p.commands p.transaction_mode w))
