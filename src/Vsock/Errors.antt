-- ===== src/Vsock/Errors.antt =====
-- vsock/errors.go, the errors that the package makes by `fmt.Errorf` and `errors.New`, and those of
-- the standard library that its code tests for.
use poprocks.Prelude.{ℕ, ◌≡◌, refl, ◌⊎◌, inl, inr, Bool, true, false, Option, none, some}

pub data Error : Type 0 where
  invalid_type_id invalid_codec_type invalid_vsock_port nil_transport nil_codec : Error
  nil_handler nil_message : Error
  handler_already_registered unhandled_message_type duplicate_message_id : Error
  -- message.go
  id_required id_too_large length_mismatch header_too_short writer_required : Error
  -- stream.go
  reader_required message_too_large received_too_large payload_required not_a_stream_source : Error
  -- ack.go
  ack_channel_required ack_timeout : Error
  -- protocol/common
  no_such_transfer body_already_written file_closed file_too_large not_regular transfer_rejected
        transfer_failed :
      Error
  -- codec.go
  type_mismatch stream_codec_unsupported unsupported_codec cannot_decode_stream : Error
  -- messenger.go
  negative_retries negative_size size_over_limit timeout_required : Error
  -- io, net, context; `other` is any error that the code does not look into.
  eof unexpected_eof net_closed canceled deadline_exceeded : Error
  other : ℕ → Error
  -- No Go value: a loop of the model ran out of rounds.
  stalled : Error
  -- No Go value: reflection goes through a nil pointer, and panics.
  reflect_panic : Error

-- `errors.Is(err, io.EOF)`
abbrev pub is_eof : Error → Bool
is_eof eof = true
is_eof _ = false

-- Go's `(value, error)` pair, of which callers use the value only when the error is nil.
pub data Result {ℓ} (A : Type ℓ) : Type ℓ where
  ok : A → Result A
  err : Error → Result A

-- The pair as it comes back from a call that gives both.
abbrev pub or_err {ℓ} : {A : Type ℓ} → Option Error → A → Result A
or_err none a = ok a
or_err (some e) a = err e

pub Result-cases {ℓ} :
    {A : Type ℓ} (r : Result A) → ((e : Error) × (r ≡ err e)) ⊎ ((a : A) × (r ≡ ok a))
Result-cases (ok a) = inr (a, refl)
Result-cases (err e) = inl (e, refl)
