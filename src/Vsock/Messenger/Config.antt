-- ===== src/Vsock/Messenger/Config.antt =====
-- `Validate` and `Send` of vsock/messenger.go.
use poprocks.Prelude.{
  ℕ, ◌==◌, refl, inr, Option-cases, if◌then◌else◌, lookup, insert, nat_eq, lookup-insert, ◌≢◌, ◌%◌,
  ◌^◌, ◌<◌, ◌≡◌, ◌⊎◌, ◌↔◌, inl, false, none, some, [], ◌++◌, arith, length, take, take-length,
  Bytes,
}
use poprocks.Prelude.Int.{pos, ◌≤ℤ◌, ◌<ℤ◌}
use poprocks.Vsock.Errors.{ok}
use poprocks.Vsock.Io.{Stream, content, bytes_reader}
use poprocks.Vsock.Io.Laws.{content-bytes_reader}
use poprocks.Vsock.Wire.{put_header}
use poprocks.Vsock.Message
use poprocks.Vsock.Message.{Message}
use poprocks.Vsock.Link.{Link}
use poprocks.Vsock.Ack.{Acks, should_await_acknowledge}
use poprocks.Vsock.Send.{Reader, MessengerConfig}
use poprocks.Vsock.Send.WithId.{send_stream_with_id_clean}
use poprocks.Vsock.Messenger.{
  absolute_max_message_size, default_messenger_config, validate, send, Handler, Handlers,
  on_receive,
}

-- The bounds of a configuration.
pub record IsConfig (c : MessengerConfig) : Type 0 where
  pub retries : pos 0 ≤ℤ c.max_retries
  pub size_low : pos 0 ≤ℤ c.max_message_size
  pub size_high : c.max_message_size ≤ℤ pos absolute_max_message_size
  pub received_low : pos 0 ≤ℤ c.max_message_size_received
  pub received_high : c.max_message_size_received ≤ℤ pos absolute_max_message_size
  pub waits : (c.require_acknowledge ≡ false) ⊎ (pos 0 <ℤ c.timeout)

-- `(*MessengerConfig).Validate` lets exactly the configurations through whose retries are not
-- negative, whose two size limits are between 0 and 64 MiB, and which have a positive timeout if
-- they require acknowledgements.
pub messenger_validate_iff : (c : MessengerConfig) → (validate c ≡ none) ↔ IsConfig c
unfolding validate
messenger_validate_iff c = (
  λ e. record {
    retries = ground arith;
    size_low = ground arith;
    size_high = ground arith;
    received_low = ground arith;
    received_high = ground arith;
    waits = ground arith;
  },
  λ v.
      let w = v.waits in
      ground (arith, v.retries, v.size_low, v.size_high, v.received_low, v.received_high),
)

-- A handler that `OnReceive` takes is the one of its type from then on, and it had none before; the
-- other types keep theirs.
pub on_receive_registers {ℓ} :
    {S : Type ℓ} (t u : ℕ) (f : Handler S) (d d' : Handlers S)
    → on_receive t (some f) d ≡ (none, d')
    → (lookup t d.receivers ≡ none)
      × (lookup u d'.receivers ≡ (if t == u then some f else lookup u d.receivers))
unfolding on_receive
on_receive_registers t u f d d' e = elim (Option-cases (lookup t d.receivers)) [
  | inl n ↦ (n, ground (arith, lookup-insert t u f d.receivers))
  | inr (g, n) ↦ (ground arith, ground arith)
]

-- `DefaultMessengerConfig` is within the bounds.
pub default_messenger_config-IsConfig : IsConfig default_messenger_config
default_messenger_config-IsConfig = record {
  retries = omega arith;
  size_low = omega arith;
  size_high = omega arith;
  received_low = omega arith;
  received_high = omega arith;
  waits = inl refl;
}

-- When `Send` returns nil, without awaiting an acknowledgement, its message's header and payload
-- are what went out, if the payload can be read and is shorter than 4 GiB, and `MaxRetries` is
-- not negative.
pub send_whole :
    (c : MessengerConfig) (l : Link) (a : Acks) (m : Message) (conn : Stream) (p : Bytes)
    → pos 0 ≤ℤ c.max_retries
    → should_await_acknowledge c.require_acknowledge m.msg_type ≡ false
    → (Message.read_all m conn).0 ≡ ok p
    → length p < 2 ^ 32
    → (send c l a m conn).0 ≡ none
    → (send c l a m conn).1.sent
      ≡ l.sent ++ (put_header (record { id = m.id; msg_type = m.msg_type; length = length p }) ++ p)
unfolding send
send_whole c l a m conn p v w r b e =
    let reader : Reader = record { stream = bytes_reader p; seeker = some [] } in
    let size : length p % 2 ^ 32 ≡ length p = omega arith in
    let whole : take (length p) (content (bytes_reader p)) ≡ p =
      rw (content-bytes_reader p) (take-length (length p) p (omega arith)) in
    let sent = send_stream_with_id_clean c l a m.id m.msg_type (length p) reader v (inl w) in
    ground arith

-- It leaves the receiver of unknown messages as it is.
pub on_receive_unknown {ℓ} :
    {S : Type ℓ} (t : ℕ) (f : Handler S) (d d' : Handlers S)
    → on_receive t (some f) d ≡ (none, d')
    → d'.unknown ≡ d.unknown
unfolding on_receive
on_receive_unknown t f d d' e = elim (Option-cases (lookup t d.receivers)) [
  | inl n ↦ ground arith
  | inr (g, n) ↦ ground arith
]

-- A type that is free is taken.
pub on_receive_free {ℓ} :
    {S : Type ℓ} (t : ℕ) (f : Handler S) (d : Handlers S)
    → t ≢ 0
    → lookup t d.receivers ≡ none
    → on_receive t (some f) d ≡ (none, record d { receivers = insert t f d.receivers })
unfolding on_receive
on_receive_free t f d z n = ground arith
