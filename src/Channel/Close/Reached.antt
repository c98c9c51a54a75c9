-- ===== src/Channel/Close/Reached.antt =====
-- What the wait for flying messages (`WaitForFinAndFlyingMsg` of link/transport/channel.cc) says about
-- the messages that arrived.
use yacl_r.Segments
use yacl_r.Channel.State
use yacl_r.Channel.State.{Channel}
