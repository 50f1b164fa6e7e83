-- ===== src/Text/Serve.antt =====
-- serv/network.c: the server answers a command line, and what the client reads from the answer.
use mathlib.Core.List.{append_assoc}
use gsconferencing.Base.{
  ℕ, zero, suc, ◌+◌, ◌<◌, ◌≡◌, refl, sym, ap, ◌∙◌, List, [], ◌∷◌, ◌++◌, true, false, ◌==◌,
  if◌then◌else◌, if-true, if-false, arith, length, length-append, ltb, ℤ, pos, negsuc, ◌≢◌,
}
use gsconferencing.Text.{
  atoi, Bytes, is_blank, print_int, fail_word, args_size, err_parse, Cmd, Parsed, parsed, failed,
  undefined, parse_rest, parse_tokens, parse_cmd,
}
use gsconferencing.Text.Tokens.{IsWord, strtok-word}
use gsconferencing.Text.Commands.{
  args_text, line_of, Words, parse_cmd-line_of, print_int-blank-IsWord, atoi_word,
}

abbrev pub err_bad_cmd : ℕ
err_bad_cmd = 2

-- `if (rep[cmdl-1] == '\n') rep[--cmdl] = 0;`
unfoldable pub strip_newline : Bytes → Bytes
strip_newline [] = []
strip_newline (c ∷ []) = if c == 10 then [] else c ∷ []
strip_newline (c ∷ d ∷ s) = c ∷ strip_newline (d ∷ s)

-- `sprintf(rep, "FAIL %d <text>\n", code)`
unfoldable pub fail_reply : ℕ → Bytes → Bytes
fail_reply code text = fail_word ++ (b' ' ∷ (print_int code ++ (b' ' ∷ (text ++ (10 ∷ [])))))

-- "parse error", "invalid cmd" and "handling cmd error"
abbrev pub parse_error : Bytes
parse_error = b'p' ∷ b'a' ∷ b'r' ∷ b's' ∷ b'e' ∷ b' ' ∷ b'e' ∷ b'r' ∷ b'r' ∷ b'o' ∷ b'r' ∷ []

abbrev pub invalid_cmd : Bytes
invalid_cmd = b'i' ∷ b'n' ∷ b'v' ∷ b'a' ∷ b'l' ∷ b'i' ∷ b'd' ∷ b' ' ∷ b'c' ∷ b'm' ∷ b'd' ∷ []

abbrev pub handling_error : Bytes
handling_error =
    b'h' ∷ b'a' ∷ b'n' ∷ b'd' ∷ b'l' ∷ b'i' ∷ b'n' ∷ b'g' ∷ b' ' ∷ b'c' ∷ b'm' ∷ b'd' ∷ b' ' ∷ b'e'
    ∷ b'r' ∷ b'r' ∷ b'o' ∷ b'r' ∷ []

-- What the connection does: it answers, or its behaviour is undefined.
pub data Reaction : Type 0 where
  answered : Bytes → Reaction
  crashed : Reaction

-- After `handle_cmd`: its result, and the words that the handler adds to the command by `REP_ADD`
-- before `REP_END`.
unfoldable pub answer : Bytes → ℤ × List Bytes → Bytes
answer rep (negsuc i, ws) = fail_reply err_bad_cmd invalid_cmd
answer rep (pos zero, ws) = rep ++ args_text false ws
answer rep (pos (suc i), ws) = fail_reply (suc i) handling_error

module _ (handle_cmd : Cmd → ℤ × List Bytes) where
  unfoldable pub serve_parsed : Bytes → Parsed → Reaction
  serve_parsed line (parsed c) = answered (answer (strip_newline line) (handle_cmd c))
  serve_parsed line (failed e) = answered (fail_reply err_parse parse_error)
  serve_parsed line undefined = crashed

  -- One command of a connection.
  unfoldable pub serve : Bytes → Reaction
  serve line = serve_parsed line (parse_cmd line)

-- What a client makes of an answer.
unfoldable pub read_answer : Reaction → Parsed
read_answer (answered s) = parse_cmd s
read_answer crashed = undefined

-- The client's view of the result: the command with the words added to it, or the error.
unfoldable pub expected_answer : Cmd → ℤ × List Bytes → Parsed
expected_answer c (negsuc i, ws) = failed err_bad_cmd
expected_answer c (pos zero, ws) = parsed (record c { args = c.args ++ ws })
expected_answer c (pos (suc i), ws) = failed (suc i)

fail_word-IsWord : IsWord is_blank fail_word
fail_word-IsWord = record { clean = (refl, (refl, (refl, (refl, tt)))); some_bytes = omega arith }

-- An error is read back.
parse_cmd-fail_reply :
    (code : ℕ) (text : Bytes) → code ≢ 0 → parse_cmd (fail_reply code text) ≡ failed code
unfolding parse_cmd fail_reply
parse_cmd-fail_reply code text some_code =
    let told : (atoi (print_int code) == 0) ≡ false = ground (arith, atoi_word code, some_code) in
    ap parse_tokens (
      strtok-word is_blank fail_word b' ' _ fail_word-IsWord refl
      ∙ ap (λ (l : List Bytes). fail_word ∷ l)
          (strtok-word is_blank (print_int code) b' ' (text ++ (10 ∷ []))
            (print_int-blank-IsWord code) refl))
    ∙ (unfold parse_tokens parse_rest in (if-false _ told ∙ ap failed (atoi_word code)))

strip_snoc : (s : Bytes) → strip_newline (s ++ (10 ∷ [])) ≡ s
unfolding strip_newline
strip_snoc [] = refl
strip_snoc (c ∷ []) = refl
strip_snoc (c ∷ d ∷ s) = ap (λ (t : Bytes). c ∷ t) (strip_snoc (d ∷ s))

-- The words of a line without its end.
unfoldable pub plain : List Bytes → Bytes
plain [] = []
plain (w ∷ ws) = b' ' ∷ (w ++ plain ws)

args_text-plain : (ws : List Bytes) → args_text false ws ≡ plain ws ++ (10 ∷ [])
unfolding args_text plain
args_text-plain [] = refl
args_text-plain (w ∷ ws) =
    ap (λ (s : Bytes). b' ' ∷ s)
      (ap (λ (s : Bytes). w ++ s) (args_text-plain ws) ∙ sym (append_assoc w (plain ws) (10 ∷ [])))

args_text-append :
    (ws vs : List Bytes) → plain ws ++ args_text false vs ≡ args_text false (ws ++ vs)
unfolding args_text plain
args_text-append [] vs = refl
args_text-append (w ∷ ws) vs =
    ap (λ (s : Bytes). b' ' ∷ s)
      (append_assoc w (plain ws) (args_text false vs)
        ∙ ap (λ (s : Bytes). w ++ s) (args_text-append ws vs))

-- The handler's words follow those of the command.
strip-line_of :
    (c : Cmd) (ws : List Bytes)
    → strip_newline (line_of false c) ++ args_text false ws
      ≡ line_of false (record c { args = c.args ++ ws })
unfolding line_of
strip-line_of c ws =
    let id : Bytes = print_int c.device_id in
    let words : List Bytes = c.name ∷ c.args in
    ap (λ (s : Bytes). strip_newline (id ++ s) ++ args_text false ws) (args_text-plain words)
    ∙ ap (λ (s : Bytes). strip_newline s ++ args_text false ws)
        (sym (append_assoc id (plain words) (10 ∷ [])))
    ∙ ap (λ (s : Bytes). s ++ args_text false ws) (strip_snoc (id ++ plain words))
    ∙ append_assoc id (plain words) (args_text false ws)
    ∙ ap (λ (s : Bytes). id ++ s) (args_text-append words ws)

Words-append : (ws vs : List Bytes) → Words ws → Words vs → Words (ws ++ vs)
Words-append [] vs all more = more
Words-append (w ∷ ws) vs (word, all) more = (word, Words-append ws vs all more)

answer_lem :
    (c : Cmd) (r : ℤ × List Bytes)
    → Words (c.name ∷ c.args)
    → Words r.1
    → length c.args + length r.1 < args_size
    → parse_cmd (answer (strip_newline (line_of false c)) r) ≡ expected_answer c r
unfolding answer expected_answer
answer_lem c (negsuc i, ws) all more fits =
    parse_cmd-fail_reply err_bad_cmd invalid_cmd (λ e. absurd (omega arith))
answer_lem c (pos zero, ws) (word, all) more fits =
    let room : ltb (length (c.args ++ ws)) args_size ≡ true =
      ground (arith, fits, length-append c.args ws) in
    ap parse_cmd (strip-line_of c ws)
    ∙ parse_cmd-line_of false (record c { args = c.args ++ ws })
        (word, Words-append c.args ws all more)
    ∙ if-true _ room
answer_lem c (pos (suc i), ws) all more fits =
    parse_cmd-fail_reply (suc i) handling_error (λ e. absurd (omega arith))

-- Whatever the handler returns: a client that sends a command of words without blanks, and has room
-- for its arguments and the words that the handler adds, reads the same command with these words if
-- the handler returns 0, the handler's error if it is positive, and ERR_BAD_CMD if it is negative.
pub serve-read_answer :
    (handle_cmd : Cmd → ℤ × List Bytes) (c : Cmd)
    → Words (c.name ∷ c.args)
    → Words (handle_cmd c).1
    → length c.args + length (handle_cmd c).1 < args_size
    → read_answer (serve handle_cmd (line_of false c)) ≡ expected_answer c (handle_cmd c)
unfolding serve read_answer
serve-read_answer handle_cmd c all more fits =
    let room : ltb (length c.args) args_size ≡ true = ground (arith, fits) in
    let understood : parse_cmd (line_of false c) ≡ parsed c =
      parse_cmd-line_of false c all ∙ if-true _ room in
    ap (λ (p : Parsed). read_answer (serve_parsed handle_cmd (line_of false c) p)) understood
    ∙ (unfold serve_parsed in answer_lem c (handle_cmd c) all more fits)
