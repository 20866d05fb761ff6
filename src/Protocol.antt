-- ===== src/Protocol.antt =====
-- The frames and methods of amq-protocol that the client handles.
mod Arguments
pub use Arguments.*
use amiquip.Prelude.{ℕ, String, List, Bool}

module _ (A : Amqp) where
  open A use {Payload}

  pub data ConnectionMethod : Type 0 where
    start : Start A → ConnectionMethod
    start_ok : StartOk A → ConnectionMethod
    secure secure_ok : Payload → ConnectionMethod
    tune tune_ok : Tune → ConnectionMethod
    open_ : Open A → ConnectionMethod
    open_ok : Payload → ConnectionMethod
    close : Close → ConnectionMethod
    close_ok : ConnectionMethod
    blocked : String → ConnectionMethod
    unblocked : ConnectionMethod

  pub data ChannelMethod : Type 0 where
    open_ : String → ChannelMethod
    open_ok flow flow_ok : Payload → ChannelMethod
    close : Close → ChannelMethod
    close_ok : ChannelMethod

  pub data BasicMethod : Type 0 where
    qos : Qos → BasicMethod
    consume : Consume A → BasicMethod
    publish : AmqpPublish → BasicMethod
    get : AmqpGet → BasicMethod
    reject : Rejected → BasicMethod
    recover recover_async : Bool → BasicMethod
    qos_ok recover_ok : Payload → BasicMethod
    consume_ok cancel_ok : String → BasicMethod
    cancel : Cancel → BasicMethod
    return_ : AmqpReturn → BasicMethod
    deliver : Deliver → BasicMethod
    get_ok : GetOk → BasicMethod
    get_empty : BasicMethod
    ack : Acked → BasicMethod
    nack : Nacked → BasicMethod

  pub data ExchangeMethod : Type 0 where
    declare : ExchangeDeclare A → ExchangeMethod
    delete : ExchangeDelete → ExchangeMethod
    bind unbind : ExchangeBind A → ExchangeMethod
    declare_ok delete_ok bind_ok unbind_ok : Payload → ExchangeMethod

  pub data QueueMethod : Type 0 where
    declare : QueueDeclare A → QueueMethod
    declare_ok : QueueDeclareOk → QueueMethod
    bind : QueueBind A → QueueMethod
    unbind : QueueUnbind A → QueueMethod
    purge : QueuePurge → QueueMethod
    delete : QueueDelete → QueueMethod
    -- with the number of messages
    purge_ok delete_ok : ℕ → QueueMethod
    bind_ok unbind_ok : Payload → QueueMethod

  pub data ConfirmMethod : Type 0 where
    -- with `nowait`
    select : Bool → ConfirmMethod
    select_ok : Payload → ConfirmMethod

  pub data AmqpClass : Type 0 where
    connection : ConnectionMethod → AmqpClass
    channel : ChannelMethod → AmqpClass
    access tx : Payload → AmqpClass
    exchange : ExchangeMethod → AmqpClass
    queue : QueueMethod → AmqpClass
    basic : BasicMethod → AmqpClass
    confirm : ConfirmMethod → AmqpClass

  pub data AmqpFrame : Type 0 where
    protocol_header : AmqpFrame
    heartbeat : ℕ → AmqpFrame
    method : ℕ → AmqpClass → AmqpFrame
    header : ℕ → ℕ → ContentHeader A → AmqpFrame
    body : ℕ → List ℕ → AmqpFrame
