-- ===== src/Text/Tests.antt =====
-- Witnesses and tests of `Text`.
use gsconferencing.Base.{
  ◌≡◌, refl, List, [], ◌∷◌, true, false, if◌then◌else◌, arith, map, length, ltb, ℤ, pos,
}
use gsconferencing.Text.{
  Bytes, Cmd, parsed, undefined, atoi, foreach_id, str_to_ints, array_to_numlist, list_to_numlist,
  int_list_to_str, parse_cmd, args_size, print_int, put_digits, is_blank, parse_tokens, strtok_from,
}
use gsconferencing.Text.Tokens.{IsWord}
use gsconferencing.Text.IdLists.{id_list_lem}
use gsconferencing.Text.Commands.{line_of, Words, parse_cmd-line_of}
use gsconferencing.Text.Serve.{serve, read_answer, expected_answer, serve-read_answer}

print_305 : print_int 305 ≡ b'3' ∷ b'0' ∷ b'5' ∷ []
unfolding print_int put_digits
print_305 = refl

id_list_example :
    (map atoi (foreach_id (int_list_to_str (12 ∷ 7 ∷ 305 ∷ 0 ∷ []))) ≡ 12 ∷ 7 ∷ 305 ∷ [])
    × (str_to_ints (array_to_numlist (12 ∷ 7 ∷ 305 ∷ [])) ≡ 12 ∷ 7 ∷ 305 ∷ [])
    × (str_to_ints (list_to_numlist (12 ∷ 7 ∷ 305 ∷ [])) ≡ 12 ∷ 7 ∷ 305 ∷ [])
    × (int_list_to_str (12 ∷ 7 ∷ 305 ∷ 0 ∷ []) ≡ array_to_numlist (12 ∷ 7 ∷ 305 ∷ []))
    × (str_to_ints (array_to_numlist []) ≡ 0 ∷ [])
    × (str_to_ints (list_to_numlist []) ≡ [])
id_list_example =
    id_list_lem 12 (7 ∷ 305 ∷ []) (
      (λ e. absurd (omega arith)),
      ((λ e. absurd (omega arith)), ((λ e. absurd (omega arith)), tt)),
    )

-- "103 sub -2"
abbrev sub_word : Bytes
sub_word = b's' ∷ b'u' ∷ b'b' ∷ []

abbrev tag_word : Bytes
tag_word = b'-' ∷ b'2' ∷ []

abbrev command : Cmd
command = record { device_id = 103; name = sub_word; args = tag_word ∷ [] }

sub_word-IsWord : IsWord is_blank sub_word
sub_word-IsWord = record { clean = (refl, (refl, (refl, tt))); some_bytes = omega arith }

tag_word-IsWord : IsWord is_blank tag_word
tag_word-IsWord = record { clean = (refl, (refl, tt)); some_bytes = omega arith }

reply-IsWord : IsWord is_blank (b'O' ∷ b'K' ∷ [])
reply-IsWord = record { clean = (refl, (refl, tt)); some_bytes = omega arith }

command-Words : Words (sub_word ∷ tag_word ∷ [])
command-Words = (sub_word-IsWord, (tag_word-IsWord, tt))

parse_cmd-line_of_example :
    parse_cmd (line_of true command)
    ≡ (if ltb (length command.args) args_size then parsed command else undefined)
parse_cmd-line_of_example = parse_cmd-line_of true command command-Words

abbrev handler : Cmd → ℤ × List Bytes
handler c = (pos 0, (b'O' ∷ b'K' ∷ []) ∷ [])

serve-read_answer_example :
    read_answer (serve handler (line_of false command)) ≡ expected_answer command (handler command)
serve-read_answer_example =
    serve-read_answer handler command command-Words (reply-IsWord, tt) (omega arith)

-- A line without a word.
blank_line : parse_cmd (b' ' ∷ 10 ∷ []) ≡ undefined
unfolding parse_cmd parse_tokens strtok_from
blank_line = refl
