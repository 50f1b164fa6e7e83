-- ===== src/Text/IdLists.antt =====
-- The server and the client read each other's lists of ids.
use mathlib.Core.List.{append_assoc, append-nil}
use gsconferencing.Base.{
  ℕ, suc, ◌≡◌, ◌≢◌, refl, sym, ap, ap₂, ◌∙◌, List, [], ◌∷◌, ◌++◌, Bool, true, false, ◌==◌, arith,
  length, map,
}
use gsconferencing.Text.{
  Bytes, is_digit, is_comma, print_int, atoi, strtok, list_add_num, add_nums, list_to_numlist,
  array_to_numlist, behind_commas, foreach_id, str_to_ints, put_ints, drop_last, int_list_to_str,
  strtok_from, read_digits,
}
use gsconferencing.Text.Numbers.{Stops, Avoids, atoi-print_int, print_int-Avoids, print_int-Begins}
use gsconferencing.Text.Tokens.{IsWord, strtok-word, strtok-last}

-- Ids as the client's lists have them, without 0.
abbrev pub Positive : List ℕ → Type 0
Positive [] = Unit
Positive (n ∷ ns) = (n ≢ 0) × Positive ns

no_comma : (n : ℕ) → Avoids is_comma (print_int n)
no_comma n = print_int-Avoids is_comma n (λ c d. ground (arith, d))

-- The numbers behind the first, each with its comma.
unfoldable pub joined : List ℕ → Bytes
joined [] = []
joined (n ∷ ns) = b',' ∷ (print_int n ++ joined ns)

-- The list "<n>,<n>,...".
abbrev pub comma_list : ℕ → List ℕ → Bytes
comma_list n ns = print_int n ++ joined ns

joined-Stops : (ns : List ℕ) → Stops (joined ns)
unfolding joined
joined-Stops [] = tt
joined-Stops (n ∷ ns) = refl

add_nums-joined : (c : ℕ) (cs : Bytes) (ns : List ℕ) → add_nums (c ∷ cs) ns ≡ (c ∷ cs) ++ joined ns
unfolding add_nums list_add_num joined
add_nums-joined c cs [] = sym (append-nil (c ∷ cs))
add_nums-joined c cs (n ∷ ns) =
    let more : (suc (length cs) == 0) ≡ false = ground arith in
    rw more (
      add_nums-joined c (cs ++ (b',' ∷ print_int n)) ns
      ∙ ap (λ (s : Bytes). c ∷ s) (append_assoc cs (b',' ∷ print_int n) (joined ns)))

-- What the server prints.
pub add_nums-comma_list : (n : ℕ) (ns : List ℕ) → add_nums [] (n ∷ ns) ≡ comma_list n ns
unfolding add_nums list_add_num
add_nums-comma_list n ns = let (c, cs, e, d) = print_int-Begins n in rw e (add_nums-joined c cs ns)

behind_commas-word : (w s : Bytes) → Avoids is_comma w → behind_commas (w ++ s) ≡ behind_commas s
unfolding behind_commas
behind_commas-word [] s clean = refl
behind_commas-word (c ∷ cs) s (other, clean) = rw other (behind_commas-word cs s clean)

foreach_id-joined : (ns : List ℕ) → map atoi (behind_commas (joined ns)) ≡ ns
unfolding behind_commas joined
foreach_id-joined [] = refl
foreach_id-joined (n ∷ ns) = ap₂ ◌∷◌ (atoi-print_int n (joined ns) (joined-Stops ns)) (
    ap (map atoi) (behind_commas-word (print_int n) (joined ns) (no_comma n))
    ∙ foreach_id-joined ns)

-- `FOREACH_ID` and `atoi` read the list.
foreach_id-comma_list : (n : ℕ) (ns : List ℕ) → map atoi (foreach_id (comma_list n ns)) ≡ n ∷ ns
unfolding foreach_id
foreach_id-comma_list n ns = ap₂ ◌∷◌ (atoi-print_int n (joined ns) (joined-Stops ns)) (
    ap (map atoi) (behind_commas-word (print_int n) (joined ns) (no_comma n))
    ∙ foreach_id-joined ns)

pub print_int-IsWord :
    (delim : ℕ → Bool) (n : ℕ)
    → ((c : ℕ) → is_digit c ≡ true → delim c ≡ false)
    → IsWord delim (print_int n)
print_int-IsWord delim n digits =
    let (c, cs, e, d) = print_int-Begins n in
    record { clean = print_int-Avoids delim n digits; some_bytes = omega (arith, ap length e) }

comma-IsWord : (n : ℕ) → IsWord is_comma (print_int n)
comma-IsWord n = print_int-IsWord is_comma n (λ c d. ground (arith, d))

atoi_whole : (n : ℕ) → atoi (print_int n) ≡ n
atoi_whole n = ap atoi (sym (append-nil (print_int n))) ∙ atoi-print_int n [] tt

-- The same with `strtok`.
str_to_ints-comma_list : (n : ℕ) (ns : List ℕ) → str_to_ints (comma_list n ns) ≡ n ∷ ns
unfolding str_to_ints joined
str_to_ints-comma_list n [] =
    ap (λ (s : Bytes). map atoi (strtok is_comma s)) (append-nil (print_int n))
    ∙ ap (map atoi) (strtok-last is_comma (print_int n) (comma-IsWord n))
    ∙ ap (λ (k : ℕ). k ∷ []) (atoi_whole n)
str_to_ints-comma_list n (m ∷ ms) =
    ap (map atoi) (strtok-word is_comma (print_int n) b',' (comma_list m ms) (comma-IsWord n) refl)
    ∙ ap₂ ◌∷◌ (atoi_whole n) (str_to_ints-comma_list m ms)

-- The client prints a list, which ends at the first 0, like the server.
put_ints-comma_list :
    (n : ℕ) (ns : List ℕ)
    → Positive (n ∷ ns)
    → put_ints ((n ∷ ns) ++ (0 ∷ [])) ≡ comma_list n ns ++ (b',' ∷ [])
unfolding put_ints joined
put_ints-comma_list n [] (pos, none) =
    let some_id : (n == 0) ≡ false = ground (arith, pos) in
    rw some_id (ap (λ (s : Bytes). s ++ (b',' ∷ [])) (sym (append-nil (print_int n))))
put_ints-comma_list n (m ∷ ms) (pos, all) =
    let some_id : (n == 0) ≡ false = ground (arith, pos) in
    rw some_id (
      ap (λ (s : Bytes). print_int n ++ (b',' ∷ s)) (put_ints-comma_list m ms all)
      ∙ sym (append_assoc (print_int n) (b',' ∷ comma_list m ms) (b',' ∷ [])))

drop_last-snoc : (s : Bytes) (c : ℕ) → drop_last (s ++ (c ∷ [])) ≡ s
drop_last-snoc [] c = refl
drop_last-snoc (d ∷ []) c = refl
drop_last-snoc (d ∷ e ∷ s) c = ap (λ (t : Bytes). d ∷ t) (drop_last-snoc (e ∷ s) c)

-- A list of some ids, none of them 0, is the same string in the server and in the client, and each
-- reads from it the ids that the other has printed, in their order; the server prints a list
-- without ids as the id 0, or as the empty string.
pub id_list_lem :
    (n : ℕ) (ns : List ℕ)
    → Positive (n ∷ ns)
    → (map atoi (foreach_id (int_list_to_str ((n ∷ ns) ++ (0 ∷ [])))) ≡ n ∷ ns)
      × (str_to_ints (array_to_numlist (n ∷ ns)) ≡ n ∷ ns)
      × (str_to_ints (list_to_numlist (n ∷ ns)) ≡ n ∷ ns)
      × (int_list_to_str ((n ∷ ns) ++ (0 ∷ [])) ≡ array_to_numlist (n ∷ ns))
      × (str_to_ints (array_to_numlist []) ≡ 0 ∷ [])
      × (str_to_ints (list_to_numlist []) ≡ [])
unfolding array_to_numlist list_to_numlist int_list_to_str
id_list_lem n ns pos =
    let printed : drop_last (put_ints ((n ∷ ns) ++ (0 ∷ []))) ≡ comma_list n ns =
      ap drop_last (put_ints-comma_list n ns pos) ∙ drop_last-snoc (comma_list n ns) b',' in
    let served = add_nums-comma_list n ns in
    let read = ap str_to_ints served ∙ str_to_ints-comma_list n ns in
    (
      ap (λ (s : Bytes). map atoi (foreach_id s)) printed ∙ foreach_id-comma_list n ns,
      read,
      read,
      printed ∙ sym served,
      unfold str_to_ints strtok_from atoi read_digits in refl,
      unfold str_to_ints strtok_from add_nums in refl,
    )
