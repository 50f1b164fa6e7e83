-- ===== src/Video/Tests.antt =====
-- Witnesses and tests of `Video`.
use mathlib.Core.List.{Permᴰ}
use gsconferencing.Base.{ℕ, refl, List, [], ◌∷◌, some, arith, replicate}
use gsconferencing.Video.{
  Datagram, Viewer, Casters, fragment, frag_size, send_frags, send_video, cast_video,
  video_recved_all,
}
use gsconferencing.Video.Reassembly.{Complete}
use gsconferencing.Video.RoundTrip.{relay, send_video-video_recved}

abbrev viewer : Viewer
viewer = record { frame = λ _. 0; fsize = 0; flen = 7; fseq = some 255; events = [] }

abbrev casters : Casters
casters = record { video_head = 4 ∷ 9 ∷ []; bcast_dev = some 4 }

abbrev image : List ℕ
image = replicate 1402 77

-- The first packet after the number 255 has the number 0; the rest of 2 bytes comes first.
swapped : List Datagram
swapped = fragment 4 0 image 1400 2 ∷ fragment 4 0 image 0 1400 ∷ []

send_video-video_recved_example : Complete viewer image (video_recved_all viewer swapped)
unfolding swapped relay send_video send_frags cast_video frag_size
send_video-video_recved_example =
    send_video-video_recved 4 255 image casters 4 swapped viewer refl (Permᴰ.swap refl refl)
      (omega arith) refl
