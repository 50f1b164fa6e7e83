-- ===== src/Text/Commands.antt =====
-- Cmd lines, and the replies that tell an error, are parsed as they were printed.
use mathlib.Core.List.{append-nil}
use gsconferencing.Base.{
  ℕ, ◌≡◌, refl, sym, ap, ◌∙◌, List, [], ◌∷◌, ◌++◌, Bool, true, false, if◌then◌else◌, if-false,
  arith, length, ltb,
}
use gsconferencing.Text.{
  Bytes, is_blank, print_int, atoi, strtok, strtok_from, same_bytes, fail_word, args_size, Cmd,
  parsed, undefined, parse_rest, parse_tokens, parse_cmd,
}
use gsconferencing.Text.Numbers.{atoi-print_int, print_int-Begins}
use gsconferencing.Text.Tokens.{IsWord, strtok-word, strtok-skip}
use gsconferencing.Text.IdLists.{print_int-IsWord}

-- A line ends with "\r\n" or "\n".
abbrev pub line_end : Bool → Bytes
line_end true = 13 ∷ 10 ∷ []
line_end false = 10 ∷ []

-- Arguments, each behind a blank, and the end of the line.
unfoldable pub args_text : Bool → List Bytes → Bytes
args_text crlf [] = line_end crlf
args_text crlf (w ∷ ws) = b' ' ∷ (w ++ args_text crlf ws)

-- The line "device_id command_name arg1 arg2 ...".
unfoldable pub line_of : Bool → Cmd → Bytes
line_of crlf c = print_int c.device_id ++ args_text crlf (c.name ∷ c.args)

-- Words to be separated by blanks.
abbrev pub Words : List Bytes → Type 0
Words [] = Unit
Words (w ∷ ws) = IsWord is_blank w × Words ws

pub strtok-behind :
    (crlf : Bool) (w : Bytes) (ws : List Bytes)
    → IsWord is_blank w
    → strtok is_blank (w ++ args_text crlf ws) ≡ w ∷ strtok is_blank (args_text crlf ws)
unfolding args_text strtok_from
strtok-behind true w [] word = strtok-word is_blank w 13 (10 ∷ []) word refl
strtok-behind false w [] word = strtok-word is_blank w 10 [] word refl
strtok-behind crlf w (x ∷ ws) word =
    strtok-word is_blank w b' ' (x ++ args_text crlf ws) word refl
    ∙ ap (λ (l : List Bytes). w ∷ l) (sym (strtok-skip is_blank b' ' (x ++ args_text crlf ws) refl))

strtok-args_text :
    (crlf : Bool) (ws : List Bytes) → Words ws → strtok is_blank (args_text crlf ws) ≡ ws
unfolding args_text strtok_from
strtok-args_text true [] all = refl
strtok-args_text false [] all = refl
strtok-args_text crlf (w ∷ ws) (word, all) =
    strtok-skip is_blank b' ' (w ++ args_text crlf ws) refl
    ∙ strtok-behind crlf w ws word
    ∙ ap (λ (l : List Bytes). w ∷ l) (strtok-args_text crlf ws all)

pub print_int-blank-IsWord : (n : ℕ) → IsWord is_blank (print_int n)
print_int-blank-IsWord n = print_int-IsWord is_blank n (λ c d. ground (arith, d))

not_fail : (n : ℕ) → same_bytes (print_int n) fail_word ≡ false
not_fail n = let (c, cs, e, d) = print_int-Begins n in rw e (ground (arith, d))

pub atoi_word : (n : ℕ) → atoi (print_int n) ≡ n
atoi_word n = ap atoi (sym (append-nil (print_int n))) ∙ atoi-print_int n [] tt

-- A command line of words without blanks is parsed as the command that it was made of, whether it
-- ends with "\r\n" or "\n", if it has at most 31 arguments; with more, `args` overflows.
pub parse_cmd-line_of :
    (crlf : Bool) (c : Cmd)
    → Words (c.name ∷ c.args)
    → parse_cmd (line_of crlf c) ≡ (if ltb (length c.args) args_size then parsed c else undefined)
unfolding parse_cmd line_of
parse_cmd-line_of crlf c all =
    let words : strtok is_blank (print_int c.device_id ++ args_text crlf (c.name ∷ c.args))
        ≡ print_int c.device_id ∷ c.name ∷ c.args =
      strtok-behind crlf (print_int c.device_id) (c.name ∷ c.args)
        (print_int-blank-IsWord c.device_id)
      ∙ ap (λ (l : List Bytes). print_int c.device_id ∷ l)
          (strtok-args_text crlf (c.name ∷ c.args) all) in
    ap parse_tokens words
    ∙ (unfold parse_tokens parse_rest in
        if-false _ (not_fail c.device_id)
        ∙ ap
            (λ (i : ℕ).
              if ltb (length c.args) args_size
              then parsed (record { device_id = i; name = c.name; args = c.args })
              else undefined)
            (atoi_word c.device_id))
