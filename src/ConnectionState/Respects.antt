-- ===== src/ConnectionState/Respects.antt =====
-- What every primitive call respects, every message of a channel to its clients respects.
pub mod Methods
use amiquip.Prelude.{
  ℕ, String, Bool, true, false, List, [], ◌∷◌, Option, none, some, string_discrete, if◌then◌else◌,
}
use amiquip.HashMap
use amiquip.ChannelSlots
use amiquip.Errors.{Result, ok, err, panicked, out_of_fuel}
use amiquip.Exec.{Exec, pure, ◌>>=◌}
use amiquip.Exec.Keeps.{Keeps, bind-Keeps}
use amiquip.IndexSet.{IndexSet}
use amiquip.Protocol.{
  Amqp, AmqpClass, Close, Cancel, ChannelMethod, BasicMethod, ConfirmMethod, ContentHeader,
}
use amiquip.Content.{Return, Delivery}
use amiquip.Confirm.{Confirm}
use amiquip.ContentCollector.{ContentCollector, CollectorResult}
use amiquip.Serialize.{Codec}
use amiquip.Inner.{
  SendOutcome, sent, full, disconnected, ChannelMessage, ConsumerMessage, Event, ChannelSlot, Env,
  Io, make_sender, slot_get, slot_put, slot_remove, push_method, try_send, send, sent_or_error,
  slot_or_bogus,
}
use amiquip.ConnectionState.{
  Step, try_handler, try_send_return, try_send_confirm, client_exception, send_consumers, send_slot,
  unhandled, illegal, forward, server_close, close_found, server_close_ok, channel_method,
  consume_ok, send_some, server_cancel, client_cancel, collecting, hand_over, content_header,
  content_body, begin_content, confirmed, get_empty, basic_method, answer, method_frame,
  consume_found, deliver_to,
}

module _ (A : Amqp) (I : IndexSet) (C : Codec A) (env : Env A) where
  pub record Respects (R : Io A I → Io A I → Type 0) : Type 0 where
    pub refl_R : (io : Io A I) → R io io
    pub trans_R : (a b c : Io A I) → R a b → R b c → R a c
    pub try_send_R : (e : Event A) → Keeps R (try_send A I env e)

  -- The calls on behalf of channel `n`.
  pub record RespectsChannel (R : Io A I → Io A I → Type 0) (n : ℕ) : Type 0 where
    pub respects : Respects R
    pub make_sender_R : Keeps R (make_sender A I)
    pub slot_put_R : (slot : ChannelSlot A) → Keeps R (slot_put A I n slot)
    pub slot_remove_R : Keeps R (slot_remove A I n)
    pub push_method_R : (class : AmqpClass A) → Keeps R (push_method A I C n class)
    pub client_exception_R :
        (code : ℕ) (text : String) → Keeps R (client_exception A I C env code text)

  module _ {R : Io A I → Io A I → Type 0} (K : Respects R) where
    open K use {refl_R, trans_R, try_send_R}

    -- A call that only returns.
    pub still : {B : Type 0} (r : Result B) → Keeps R (λ io. (r, io))
    unfolding Keeps
    still r = refl_R

    module _ {X Y : Type 0} where
      pub then_R :
          (m : Exec (Io A I) X) (f : X → Exec (Io A I) Y)
          → Keeps R m
          → ((a : X) → Keeps R (f a))
          → Keeps R (m >>= f)
      then_R = bind-Keeps R trans_R

    sent_or_error-Keeps : (o : SendOutcome) → Keeps R (sent_or_error A I env o)
    unfolding sent_or_error
    sent_or_error-Keeps sent = still _
    sent_or_error-Keeps full = still _
    sent_or_error-Keeps disconnected = still _

    pub send-Keeps : (e : Event A) → Keeps R (send A I env e)
    unfolding send
    send-Keeps e = then_R _ _ (try_send_R e) sent_or_error-Keeps

    pub send_some-Keeps :
        (tx : Option ℕ) (message : ConsumerMessage A) → Keeps R (send_some A I C env tx message)
    send_some-Keeps none message = still _
    send_some-Keeps (some tx) message = send-Keeps (Event.to_consumer tx message)

    pub send_consumers-Keeps :
        (message : ConsumerMessage A) (consumers : List (String × ℕ))
        → Keeps R (send_consumers A I C env message consumers)
    unfolding send_consumers
    send_consumers-Keeps message [] = still _
    send_consumers-Keeps message ((tag, tx) ∷ consumers) =
        then_R _ _ (send-Keeps (Event.to_consumer tx message))
          (λ _. send_consumers-Keeps message consumers)

    pub send_slot-Keeps :
        (reply : Result (ChannelMessage A)) (message : ConsumerMessage A) (slot : ChannelSlot A)
        → Keeps R (send_slot A I C env reply message slot)
    unfolding send_slot
    send_slot-Keeps reply message slot =
        then_R _ _ (send-Keeps (Event.to_client slot.tx reply))
          (λ _. send_consumers-Keeps message slot.consumers.entries)

    pub try_handler-Keeps :
        (event : ℕ → Event A) (handler : Option ℕ) (give_up : Step A I C env)
        → Keeps R give_up
        → Keeps R (try_handler A I C env event handler give_up)
    unfolding try_handler
    try_handler-Keeps event none give_up keeps = still _
    try_handler-Keeps event (some tx) give_up keeps =
        then_R _ _ (try_send_R (event tx))
          (elim [ sent ↦ still _ | full ↦ keeps | disconnected ↦ keeps ])

    found-Keeps : (n : ℕ) (found : Option (ChannelSlot A)) → Keeps R (slot_or_bogus A I n found)
    unfolding slot_or_bogus
    found-Keeps n none = still _
    found-Keeps n (some slot) = still _

    pub slot_get-Keeps : (n : ℕ) → Keeps R (slot_get A I n)
    unfolding slot_get Keeps
    slot_get-Keeps n io =
        found-Keeps n (ChannelSlots.get I (ChannelSlot A) io.inner.chan_slots n) io
