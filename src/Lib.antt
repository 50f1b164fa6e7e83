-- ===== src/Lib.antt =====
-- GSConferencing: the server of a conference system, where microphones ("devices") send audio
-- packets, the server mixes what the open ones say and casts it to the subscribers.
--
-- The parts, and the files that model them:
--   Base, Base/*: shared names, Boolean tests, lists over native numbers, 32-bit words, exclusive or,
--     stores as functions, and the integers of a C `int`.
--   Cfifo, Cfifo/*: include/cfifo.h, the circular fifo between one writer and one reader.
--     Cfifo/Queue is what its client sees; Cfifo/Refine relates both.
--   Device: serv/dev.h, serv/tag.h, serv/net_mixer.c, serv/mix.h: records of a device and a tag,
--     and the resources that the net mixer gives to open devices.
--   Tag, Tag/*: serv/tag.c, the entries of the mix (`tag_add_outstanding`, `tag_rm_outstanding`),
--     the packet queues, their timeouts and flushing, and the wait for all queues.
--   Blend, Blend/*: serv/tag.c, `tag_mix_audio`, which takes packets from the queues of Tag and mixes
--     them by Pcm; Blend/Step and Blend/Gather are about the loop, Blend/Account
--     about what becomes of each packet.
--   Ptc, Ptc/*: serv/ptc.c, cameras that follow the device opened last.
--   Interp: serv/interp.c and serv/cmd_interp.c, replication of a tag while nobody interprets.
--   Discuss, Discuss/*: serv/cmd_discctrl.c, the request for the microphone: it opens and closes
--     devices in Tag, moves the cameras of Ptc and sets the replication of Interp.
--   Session, Session/*: serv/cmd_discctrl.c, its other subcommands, over the room of Discuss and the lists
--     of ids of Text; Session/Kept is about what the database keeps of a discussion.
--   Recover, Recover/*: serv/recover.c, with the making of a tag in serv/tag.c and of a group in
--     serv/group.c (`group_create` of Session): a server that starts anew.
--   Cast, Cast/*: serv/cast.c, the numbering and sending of mixed packets, the ring of the latest 16
--     and the repeat requests; Cast/Ring and Cast/Repeat hold their theorems.
--   Subscribe, Subscribe/*: serv/cast.c, `dev_subscribe` and `dev_unsubscribe`: the lists of listeners to
--     which Cast sends; Subscribe/Delivery is about both together.
--   Packet, Packet/*: serv/packet.c and serv/block.c, the cache and the pool of packets.
--   Regist, Regist/*: serv/cmd_regist.c, who is present at a session.
--   Vote, Vote/*: serv/cmd_votectrl.c, votes and their results; a vote whose list of devices is torn
--     apart by a later one is marked in `torn`.
--   Rbudp, Rbudp/*: client/rbudp.c, broadcasts over UDP with repairs: Rbudp/Repair is about the sender,
--     Rbudp/Receive and Rbudp/Gap about the receiver, Rbudp/Stream about both.
--   Crypt, Crypt/*: include/encode.h, the encoding of stored data.
--   Recent, Recent/*: `recent_test` of client/client.c, the ring of the latest sequence numbers.
--   Brcmd, Brcmd/*: serv/brcmd.c, commands that the server broadcasts, and `handle_brcast_cmd` of
--     client/client.c, which receives them by means of Recent. Brcmd/Ints is about one packet,
--     Brcmd/Split about the packets of a call, Brcmd/Fresh about the client's ring when they come in
--     any order, Brcmd/Places about what a client hears of a call, and Brcmd/Reach about both ends
--     together.
--   Heartbeat, Heartbeat/*: serv/hbeat.c and the activation of serv/devctl.c, over the room of Discuss:
--     Heartbeat/Counts and Heartbeat/Events are about the counters, Heartbeat/Rounds about each device.
--   ClientMix, ClientMix/*: client/mix.c, the queues of packets that the client mixes, over Cfifo and
--     Recent.
--   Listen, Listen/*: client/client.c, `queue_audio_pack`: the audio packets that come are put in the
--     order of their numbers, over Cfifo. Listen/Keeping and Listen/Taking are about what becomes of
--     each packet, Listen/Rounds about the loop, Listen/Asking about the requests, and Listen/Gap and
--     Listen/Stream about losses that are repaired by what Cast sends, a packet or a notice.
--   Video, Video/*: client/client.c and serv/cmd_video.c, frames of video that are cut into packets,
--     relayed by the server and put together; Video/Casting is about the devices that may send.
--   Text, Text/*: serv/strutil.h, serv/cmd_handler.h, cmd/cmd.h and the lists of client/client.c: the
--     text of commands. Text/IdLists is about lists of ids, Text/Commands about command lines, and
--     Text/Serve, after serv/network.c, about the server's answers.
--   Pcm, Pcm/*: serv/pcm.c, the mix of sound samples and the test for silence.
--   Playback, Playback/*: client/pcm.c, one and two channels of sound, and include/cksum.h, the printed
--     check sum: both rewrite a buffer in place, which Playback/Spread is about.
--   Fixtures: test data; the modules named Tests hold examples.
--
-- How it is modelled. A pointer is a number that names a device, a packet or a tag, with `none` for
-- NULL; `Channel` keeps the devices' records in a function. A list of include/list.h is a List;
-- `request` of Discuss and `start` of Vote are undefined where they would put an element into a list
-- that it is in, or take one off that is not in it. An
-- `unsigned int` wraps at 2 ^ 32; a C `int` that may go below 0 is an integer, and its overflow
-- (undefined in C) is not modelled. Locks are left out: a function is one critical section, or runs
-- in one thread; where it releases the lock to sleep, what other threads do is a parameter. Loops
-- over the 8 entries of `mix_devs` and the 32 known cameras recurse on the entries left. The loop of
-- `tag_repeats` runs `cfifo_len` rounds: no request comes in meanwhile. The loop of
-- `wait_all_queues` recurses on the rounds left of its 50, and that of `wait_any_queue` on those of
-- the 12 in which it sleeps 11610 microseconds. Loops over lists and counted loops recurse on what
-- is left of them. The loop of `queue_audio_pack` has one round more than packets wait, and a
-- number `n` has at most `n + 1` digits. Memory that buffers share is a function from addresses.
--
-- Not modelled: sockets, threads, the database, the codecs and the copies of other projects'
-- libraries; lists of names in replies and negative numbers in text; `wait_ref_queue`, whose wait
-- has no bound that does not depend on the other threads.
pub mod Base
pub mod Blend
pub mod Brcmd
pub mod Cast
pub mod Cfifo
pub mod ClientMix
pub mod Crypt
pub mod Device
pub mod Discuss
pub mod Fixtures
pub mod Heartbeat
pub mod Interp
pub mod Listen
pub mod Packet
pub mod Pcm
pub mod Playback
pub mod Ptc
pub mod Rbudp
pub mod Recent
pub mod Recover
pub mod Regist
pub mod Session
pub mod Subscribe
pub mod Tag
pub mod Text
pub mod Video
pub mod Vote
