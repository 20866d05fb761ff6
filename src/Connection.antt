-- ===== src/Connection.antt =====
-- connection.rs, and the handle of channel 0 in io_loop/channel_handle.rs and
-- io_loop/io_loop_handle.rs: what a client does with a whole connection.
pub mod Closing
pub mod Opening
pub mod Allocated
mod Tests
use amiquip.Prelude.{
  ℕ, ◌-◌, ◌^◌, ◌*◌, String, Bool, true, false, Option, none, some, ◌==◌, ltb, if◌then◌else◌,
}
use amiquip.Errors.{
  Result, Error, ok, err, panicked, out_of_fuel, event_loop_dropped, io_thread_panic,
}
use amiquip.Exec.{Exec, then_call}
use amiquip.Protocol.{Amqp, AmqpClass, ConnectionMethod, ChannelMethod, Close}
use amiquip.Serialize.{Codec}
use amiquip.Serialize.Conversions.{Value, channel_open_ok, connection_close_ok}
use amiquip.ChannelHandle
use amiquip.ChannelHandle.{
  IoLoopHandle, Peer, HandleCall, call_connection_close, check_recv_for_error,
}
use amiquip.Channel
use amiquip.Channel.{Channel}

pub record ConnectionTuning : Type 0 where
  pub mem_channel_bound : ℕ
  pub buffered_writes_high_water : ℕ
  pub buffered_writes_low_water : ℕ

-- `16 << 20`
unfoldable pub default : ConnectionTuning
default = record {
  mem_channel_bound = 16;
  buffered_writes_high_water = 16 * 2 ^ 20;
  buffered_writes_low_water = 0;
}

abbrev pub frame_overhead : ℕ
frame_overhead = 8

abbrev pub usize_max : ℕ
usize_max = 2 ^ 64 - 1

-- The queue for new senders is left out: it is what `set_blocked_tx` says.
pub record Channel0Handle : Type 0 where
  pub handle : IoLoopHandle
  pub frame_max : ℕ

-- The subtraction panics where it would wrap around, as a debug build has it.
unfoldable pub new : IoLoopHandle → ℕ → Result Channel0Handle
new handle frame_max =
    let limit = if frame_max == 0 then usize_max else frame_max in
    if handle.channel_id == 0
    then if ltb limit frame_overhead
      then panicked
      else ok (record { handle = handle; frame_max = limit - frame_overhead })
    else panicked

-- The handle is what joining the I/O thread comes to: a thread may have panicked.
pub record Connection : Type 0 where
  pub join_handle : Option (Result (Unit {0}))
  pub channel0 : Channel0Handle

module _ (A : Amqp) (C : Codec A) (peer : Peer A) where
  abbrev pub on_handle : {B : Type 0} → HandleCall A C peer B → Exec Channel0Handle B
  on_handle m self = let (r, h) = m self.handle in (r, record self { handle = h })

  -- Whether the queue of the I/O thread takes the sender.
  unfoldable pub set_blocked_tx : Bool → Exec Channel0Handle (Unit {0})
  set_blocked_tx takes self =
      if takes then (ok tt, self) else on_handle (check_recv_for_error A C peer) self

  -- What the I/O thread makes of a request for a channel, by the id that is asked for, if any: it
  -- may take no request, or end without a reply.
  abbrev pub Allocating : Type 0
  Allocating = Option ℕ → Option (Option (Result IoLoopHandle))

  abbrev pub handle_of : Option (Option (Result IoLoopHandle)) → Exec Channel0Handle IoLoopHandle
  handle_of none self = on_handle (check_recv_for_error A C peer) self
  handle_of (some none) self = (err event_loop_dropped, self)
  handle_of (some (some reply)) self = (reply, self)

  unfoldable pub allocate_channel : Allocating → Option ℕ → Exec Channel0Handle IoLoopHandle
  allocate_channel thread channel_id = handle_of (thread channel_id)

  unfoldable pub opened : ℕ → Result (Value A channel_open_ok) × IoLoopHandle → Result Channel
  unfolding Channel.new
  opened frame_max (ok open_ok, h) = ok (Channel.new h frame_max)
  opened frame_max (err e, h) = err e
  opened frame_max (panicked, h) = panicked
  opened frame_max (out_of_fuel, h) = out_of_fuel

  abbrev pub open_class : AmqpClass A
  open_class = AmqpClass.channel (ChannelMethod.open_ "")

  unfoldable pub open_channel : Allocating → Option ℕ → Exec Channel0Handle Channel
  unfolding allocate_channel opened
  open_channel thread channel_id self =
      then_call (allocate_channel thread channel_id self) (λ handle self'. (
        opened self'.frame_max (ChannelHandle.call A C peer channel_open_ok open_class handle),
        self',
      ))

  -- `REPLY_SUCCESS` of amq-protocol is an argument.
  module _ (reply_success : ℕ) where
    abbrev pub goodbye : Close
    goodbye = record {
      reply_code = reply_success;
      reply_text = "goodbye";
      class_id = 0;
      method_id = 0;
    }

    unfoldable pub close_connection : Exec Channel0Handle (Unit {0})
    unfolding call_connection_close
    close_connection = on_handle (call_connection_close A C peer goodbye)

    -- The end of the thread comes before the result of the close.
    unfoldable pub joined : Result (Unit {0}) → Result (Unit {0}) → Result (Unit {0})
    joined (ok _) close_result = close_result
    joined (err e) close_result = err e
    joined panicked close_result = err io_thread_panic
    joined out_of_fuel close_result = out_of_fuel

    -- `close`, and `drop`, which throws the result away.
    unfoldable pub close_impl : Exec Connection (Unit {0})
    unfolding close_connection joined
    close_impl self = elim self.join_handle [
      | none ↦ (ok tt, self)
      | some thread ↦
          let (close_result, channel0) = close_connection self.channel0 in
          (joined thread close_result, record { join_handle = none; channel0 = channel0 })
    ]
