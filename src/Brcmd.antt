-- ===== src/Brcmd.antt =====
-- serv/brcmd.c and the receiving end in client/client.c: commands that are broadcast to all, to a
-- tag or to a list of devices. A command is the list of its bytes, the ending NUL included; an
-- `int` in a packet is its four bytes in the hosts' order. Each packet is on the air several times
-- (`REPEAT`), or until it is stopped; here it is listed once, when it is handed to the threads.
pub mod Ints
pub mod Split
pub mod Fresh
pub mod Places
pub mod Reach
mod Tests
use gsconferencing.Base.{
  ℕ, zero, suc, ◌+◌, ◌-◌, ◌*◌, ◌/◌, ◌%◌, ◌^◌, Option, none, some, List, [], ◌∷◌, ◌++◌, Bool, true,
  false, not, ◌==◌, if◌then◌else◌, ltb, leb, length, take, drop,
}
use gsconferencing.Recent.{Recent, recent_test}

pub data Mode : Type 0 where
  all : Mode
  to_tag : ℕ → Mode
  multi : Mode

-- `struct pack_ucmd` of a broadcast command.
pub record Ucmd : Type 0 where
  pub seq : ℕ  -- 16 bits
  pub mode : Mode
  pub data_ : List ℕ

abbrev pub cmd_max : ℕ
cmd_max = 10240

-- `offsetof(struct pack_ucmd, data)`
abbrev pub head_len : ℕ
head_len = 12

pub record Air : Type 0 where
  pub seq : ℕ  -- the static `seq`
  pub sent : List Ucmd  -- handed to `run_brcast`, latest last

-- `async_brcast`: a packet that is too long is dropped.
unfoldable pub async_brcast : Air → Ucmd → Air
async_brcast a u =
    if ltb (cmd_max - 100) (head_len + length u.data_)
    then a
    else record a { sent = a.sent ++ (u ∷ []) }

-- `++ seq`, which the packet keeps in 16 bits.
abbrev pub seq_of : Air → ℕ
seq_of a = (a.seq + 1) % 2 ^ 16

abbrev pub bump_seq : Air → Air
bump_seq a = record a { seq = a.seq + 1 }

unfoldable pub brcast_data_to_all : Air → List ℕ → Air
unfolding async_brcast
brcast_data_to_all a data_ =
    async_brcast (bump_seq a) (record { seq = seq_of a; mode = all; data_ = data_ })

unfoldable pub brcast_cmd_to_tag_all : Air → List ℕ → ℕ → Air
unfolding async_brcast
brcast_cmd_to_tag_all a rep tagid =
    async_brcast (bump_seq a)
      (record { seq = seq_of a; mode = to_tag (tagid % 2 ^ 8); data_ = rep })

unfoldable pub int_bytes : ℕ → List ℕ
int_bytes n = n % 256 ∷ n / 256 % 256 ∷ n / 65536 % 256 ∷ n / 16777216 % 256 ∷ []

unfoldable pub ints_bytes : List ℕ → List ℕ
unfolding int_bytes
ints_bytes [] = []
ints_bytes (i ∷ is) = int_bytes i ++ ints_bytes is

unfoldable pub make_brcmd_multi : Air → List ℕ → List ℕ → Ucmd
unfolding int_bytes ints_bytes
make_brcmd_multi a rep ids = record {
  seq = seq_of a;
  mode = multi;
  data_ = int_bytes (length ids) ++ ints_bytes ids ++ rep;
}

unfoldable pub send_multi : Air → List ℕ → List ℕ → Air
unfolding async_brcast make_brcmd_multi
send_multi a rep ids = async_brcast (bump_seq a) (make_brcmd_multi a rep ids)

abbrev pub chunk : ℕ
chunk = 256

-- The loop over the `m` whole chunks, and the rest: the state and the ids behind the last of them.
unfoldable pub send_chunks : Air → List ℕ → List ℕ → ℕ → Air × List ℕ
send_chunks a rep ids zero = (a, ids)
send_chunks a rep ids (suc m) =
    send_chunks (send_multi a rep (take chunk ids)) rep (drop chunk ids) m

unfoldable pub brcast_cmd_to_multi : Air → List ℕ → List ℕ → Air
brcast_cmd_to_multi a rep ids =
    let (a1, rest) = send_chunks a rep ids (length ids / chunk) in
    if length ids % chunk == 0 then a1 else send_multi a1 rep (take (length ids % chunk) rest)

-- The client that receives: its id, its tag, and the commands given to `__handle_cmd`.
pub record Listener : Type 0 where
  pub id : ℕ
  pub tag_id : ℕ
  pub recent : Recent
  pub handled : List (List ℕ)

unfoldable pub read_word : List ℕ → Option ℕ
read_word (a ∷ b ∷ c ∷ d ∷ rest) = some (a + 256 * b + 65536 * c + 16777216 * d)
read_word _ = none

-- `p[i]`; `none` is a read behind the packet's data.
unfoldable pub read_int : List ℕ → ℕ → Option ℕ
unfolding read_word
read_int data_ zero = read_word data_
read_int data_ (suc i) = read_int (drop 4 data_) i

-- The loop `for( i=1 ; i<=n ; i++ )` from `i`, `left` to go: whether the id is listed.
unfoldable pub find_id : List ℕ → ℕ → ℕ → ℕ → Option Bool
find_id data_ id zero i = some false
find_id data_ id (suc left) i =
    let rest = find_id data_ id left (i + 1) in
    elim (read_int data_ i) [ none ↦ none | some x ↦ if x == id then some true else rest ]

abbrev pub hand : Listener → List ℕ → Listener
hand l text = record l { handled = l.handled ++ (text ∷ []) }

-- The number of ids is an `int`: nothing is looked for when it is negative.
unfoldable pub handle_multi : Listener → List ℕ → Option Listener
handle_multi l data_ = elim (read_int data_ 0) [
  | none ↦ none
  | some n ↦ elim (find_id data_ l.id (if leb (2 ^ 31) n then 0 else n) 1) [
    | none ↦ none
    | some found ↦ some (if found then hand l (drop ((1 + n) * 4) data_) else l)
  ]
]

unfoldable pub handle_mode : Listener → Ucmd → Mode → Option Listener
handle_mode l u all = some (hand l u.data_)
handle_mode l u (to_tag t) = some (if t == l.tag_id then hand l u.data_ else l)
handle_mode l u multi = handle_multi l u.data_

-- `handle_brcast_cmd`
unfoldable pub handle_brcast_cmd : Listener → Ucmd → Option Listener
handle_brcast_cmd l u =
    let (seen, recent) = recent_test l.recent u.seq in
    if seen then some l else handle_mode (record l { recent = recent }) u u.mode
