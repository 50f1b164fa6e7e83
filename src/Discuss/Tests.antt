-- ===== src/Discuss/Tests.antt =====
-- A hall where two may speak, and device 5 does.
use gsconferencing.Base.{◌≡◌, ◌≤◌, refl, none, true, arith, inr, pos}
use gsconferencing.Discuss.{Room, request, put_through, admit, find_kick, post, add_open}
use gsconferencing.Cfifo
use gsconferencing.Device.{put_dev, mix_open_dev}
use gsconferencing.Tag.{add_outstanding, take_entry, find_free}
use gsconferencing.Ptc.{member, unlink}
use gsconferencing.Discuss.Open.{IsValid}
use gsconferencing.Discuss.Capacity.{open_speakers}
use gsconferencing.Discuss.Outcomes.{is_defined, request-is_defined}
use gsconferencing.Discuss.Request.{request-IsValid, request-speakers}
use gsconferencing.Fixtures.{hall, directory, hall-IsValid}

abbrev first : Room
first = put_through directory hall 5

request-IsValid_example : IsValid first
unfolding request admit post put_through add_open find_kick add_outstanding take_entry put_dev
    mix_open_dev find_free Cfifo.init member unlink
request-IsValid_example =
    request-IsValid directory 1 none 5 true (pos 1) (inr (refl, refl)) hall-IsValid refl

request-speakers_example : open_speakers first ≤ 2
unfolding request admit post put_through add_open find_kick add_outstanding take_entry put_dev
    mix_open_dev find_free Cfifo.init member unlink
request-speakers_example =
    request-speakers directory 1 none 5 2 true (pos 1) (inr (refl, refl)) hall-IsValid refl
      (omega arith) refl

request-is_defined_example : is_defined (request directory 1 none hall 7 (pos 1)) ≡ true
request-is_defined_example =
    request-is_defined directory 1 none 7 true (pos 1) (inr (refl, refl)) hall-IsValid refl
