-- ===== src/Session/Tests.antt =====
-- Witness and tests of `Session`: a discussion of the members 4 and 7 is chosen.
use mathlib.Core.Path.{subst}
use gsconferencing.Base.{
  ℕ, ◌≡◌, ◌≢◌, refl, ◌∙◌, sym, Option, none, some, List, [], ◌∷◌, true, false, arith, pos,
}
use gsconferencing.Device.{soft_mixer}
use gsconferencing.Recover.{tag_create}
use gsconferencing.Session.{
  Discussion, Session, Subcommand, setmode, setmax, ask_names, choose, disable, run, handle,
  group_create, set_mode, set_maxuser, query, select, select_entry, select_discuss,
  group_setup_discuss, disable_all,
}
use gsconferencing.Session.Kept.{IsKept, Restarted, Finds, run-Restarted}
use gsconferencing.Fixtures.{hall, device}

abbrev discussion : Discussion
discussion = record { id = 5; name = b'A' ∷ []; members = b'4' ∷ b',' ∷ b'7' ∷ [] }

abbrev idle : Session
idle = record {
  room = hall;
  current = none;
  curr_num = 0;
  memberids = [];
  chairman = none;
  disabled = pos 0;
  db = [];
  saved = record { discuss_mode = pos 1; discuss_maxuser = pos 2; discuss_id = 0 };
  chairs = λ _. false;
  told = [];
}

abbrev subcommands : List (ℕ × Subcommand)
subcommands =
    (2, setmode (pos 0))
    ∷ (2, ask_names (discussion ∷ []))
    ∷ (2, setmax (pos 0))
    ∷ (2, choose (pos 0))
    ∷ (2, disable (pos 1))
    ∷ []

abbrev from_some : Session → Option Session → Session
from_some s none = s
from_some s (some s1) = s1

abbrev chosen : Session
chosen = from_some idle (run (λ i. some i) idle subcommands)

idle-IsKept : IsKept idle
idle-IsKept = record {
  modes = refl;
  maxusers = refl;
  ids = refl;
  members = λ c e. absurd (let none_is : none ≡ some c = e in cc);
}

chosen_is : run (λ i. some i) idle subcommands ≡ some chosen
unfolding run handle set_mode set_maxuser query select select_entry disable_all
chosen_is = refl

chosen_current : chosen.current ≡ some discussion
unfolding run handle set_mode set_maxuser query select select_entry select_discuss
    group_setup_discuss disable_all
chosen_current = refl

chosen-Finds : Finds (λ _. some discussion) chosen
chosen-Finds c e =
    let both : some discussion ≡ some c = sym chosen_current ∙ e in
    let same : discussion ≡ c = cc in
    subst (λ (x : Discussion). (x.id ≢ 0) × (some discussion ≡ some x)) same
      ((λ z. absurd (omega arith)), refl)

run-Restarted_example : Restarted chosen (
    group_create
      (λ _. some discussion)
      (tag_create soft_mixer
        (λ _. true)
        device
        chosen.saved.discuss_mode
        chosen.saved.discuss_maxuser)
      chosen.chairs
      chosen.saved)
run-Restarted_example =
    run-Restarted (λ i. some i) subcommands idle chosen (λ _. some discussion) soft_mixer
      (λ _. true) device idle-IsKept chosen_is chosen-Finds
