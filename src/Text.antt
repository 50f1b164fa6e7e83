-- ===== src/Text.antt =====
-- The text of commands: serv/strutil.h and serv/cmd_handler.h, which print lists of ids, the lists of
-- client/client.c, and the parser of cmd/cmd.h. A string is the list of its bytes before the NUL.
-- `sprintf("%d")`, `atoi`, `strtok` and `strchr` are the C library's: numbers are not negative, and
-- `atoi` is given strings that begin with a digit, or else returns 0.
pub mod Numbers
pub mod Tokens
pub mod IdLists
pub mod Commands
pub mod Serve
mod Tests
use gsconferencing.Base.{
  ℕ, zero, suc, ◌+◌, ◌-◌, ◌*◌, ◌/◌, ◌%◌, Option, none, some, List, [], ◌∷◌, ◌++◌, Bool, true, false,
  not, ◌&&◌, ◌||◌, ◌==◌, if◌then◌else◌, ltb, leb, length, map,
}

abbrev pub Bytes : Type 0
Bytes = List ℕ

abbrev pub is_digit : ℕ → Bool
is_digit c = leb b'0' c && leb c b'9'

-- The digits of `n` in front of `out`; the first argument bounds their number.
unfoldable pub put_digits : ℕ → ℕ → Bytes → Bytes
put_digits zero n out = out
put_digits (suc k) n out =
    let rest = put_digits k (n / 10) ((b'0' + n % 10) ∷ out) in
    if ltb n 10 then (b'0' + n % 10) ∷ out else rest

-- `sprintf("%d", n)`
unfoldable pub print_int : ℕ → Bytes
print_int n = put_digits (suc n) n []

unfoldable pub read_digits : ℕ → Bytes → ℕ
read_digits n [] = n
read_digits n (c ∷ cs) =
    let rest = read_digits (n * 10 + (c - b'0')) cs in if is_digit c then rest else n

unfoldable pub atoi : Bytes → ℕ
atoi s = read_digits 0 s

-- A token that is not empty.
abbrev pub flush : Bytes → List Bytes
flush [] = []
flush (c ∷ cs) = (c ∷ cs) ∷ []

-- What `strtok` returns until it returns NULL, with `token` read already.
unfoldable pub strtok_from : (ℕ → Bool) → Bytes → Bytes → List Bytes
strtok_from delim token [] = flush token
strtok_from delim token (c ∷ cs) =
    if delim c
    then flush token ++ strtok_from delim [] cs
    else strtok_from delim (token ++ (c ∷ [])) cs

abbrev pub strtok : (ℕ → Bool) → Bytes → List Bytes
strtok delim s = strtok_from delim [] s

abbrev pub is_comma : ℕ → Bool
is_comma c = c == b','

-- `LIST_ADD_NUM`, where `l` is the length of the string.
unfoldable pub list_add_num : Bytes → ℕ → Bytes
list_add_num s n = if length s == 0 then print_int n else s ++ (b',' ∷ print_int n)

unfoldable pub add_nums : Bytes → List ℕ → Bytes
add_nums s [] = s
add_nums s (n ∷ ns) = add_nums (list_add_num s n) ns

-- `list_TO_NUMLIST`, for the ids of a list.
unfoldable pub list_to_numlist : List ℕ → Bytes
list_to_numlist ns = add_nums [] ns

-- `ARRAY_TO_NUMLIST`: the "0" that it starts from is overwritten by the first number.
unfoldable pub array_to_numlist : List ℕ → Bytes
array_to_numlist [] = b'0' ∷ []
array_to_numlist (n ∷ ns) = add_nums [] (n ∷ ns)

-- The places where `FOREACH_ID` stops behind the first: behind every comma.
unfoldable pub behind_commas : Bytes → List Bytes
behind_commas [] = []
behind_commas (c ∷ cs) = if is_comma c then cs ∷ behind_commas cs else behind_commas cs

unfoldable pub foreach_id : Bytes → List Bytes
foreach_id s = s ∷ behind_commas s

-- `_str_to_ints` of client/client.c
unfoldable pub str_to_ints : Bytes → List ℕ
str_to_ints s = map atoi (strtok is_comma s)

-- `int_in_str`, of a string with a token.
unfoldable pub int_in_tokens : ℕ → List Bytes → Bool
int_in_tokens i [] = false
int_in_tokens i (w ∷ ws) = if atoi w == i then true else int_in_tokens i ws

unfoldable pub int_in_str : ℕ → Bytes → Bool
int_in_str i s = int_in_tokens i (strtok is_comma s)

-- The loop of `int_list_to_str`, up to the 0 that ends the list.
unfoldable pub put_ints : List ℕ → Bytes
put_ints [] = []
put_ints (n ∷ ns) = if n == 0 then [] else print_int n ++ (b',' ∷ put_ints ns)

-- `s[l>0? l-1:0] = 0`
abbrev pub drop_last : Bytes → Bytes
drop_last [] = []
drop_last (c ∷ []) = []
drop_last (c ∷ d ∷ cs) = c ∷ drop_last (d ∷ cs)

unfoldable pub int_list_to_str : List ℕ → Bytes
int_list_to_str ns = drop_last (put_ints ns)

-- The delimiters of cmd/cmd.h, " \r\n".
abbrev pub is_blank : ℕ → Bool
is_blank c = c == b' ' || c == 13 || c == 10

abbrev pub same_bytes : Bytes → Bytes → Bool
same_bytes [] [] = true
same_bytes [] (d ∷ ds) = false
same_bytes (c ∷ cs) [] = false
same_bytes (c ∷ cs) (d ∷ ds) = c == d && same_bytes cs ds

abbrev pub fail_word : Bytes
fail_word = b'F' ∷ b'A' ∷ b'I' ∷ b'L' ∷ []

abbrev pub err_parse : ℕ
err_parse = 1

-- The entries of `args`, the NULL at their end included.
abbrev pub args_size : ℕ
args_size = 32

-- The part of `struct cmd` that is parsed.
pub record Cmd : Type 0 where
  pub device_id : ℕ
  pub name : Bytes
  pub args : List Bytes

-- `parse_cmd` returns 0 with a command, or an error; without a token it compares NULL, more
-- arguments than `args` has room for are written behind it, and with "FAIL 0" it returns 0 and
-- leaves the command unset.
pub data Parsed : Type 0 where
  parsed : Cmd → Parsed
  failed : ℕ → Parsed
  undefined : Parsed

-- With the first two tokens.
unfoldable pub parse_rest : Bytes → Bytes → List Bytes → Parsed
parse_rest first second args =
    if same_bytes first fail_word
    then (if atoi second == 0 then undefined else failed (atoi second))
    else if ltb (length args) args_size
    then parsed (record { device_id = atoi first; name = second; args = args })
    else undefined

unfoldable pub parse_tokens : List Bytes → Parsed
parse_tokens [] = undefined
parse_tokens (first ∷ []) = failed err_parse
parse_tokens (first ∷ second ∷ args) = parse_rest first second args

unfoldable pub parse_cmd : Bytes → Parsed
parse_cmd line = parse_tokens (strtok is_blank line)
