-- ===== src/Vsock/Messenger/Create.antt =====
-- `NewMessenger`, `NewMessengerWithConfig` and `newMessenger` of vsock/messenger.go.
use poprocks.Prelude.{◌≡◌, inl, inr, none, some, Option-cases, [], nat_eq, lookup, arith}
use mathlib.Core.Path.{subst}
use poprocks.Vsock.Errors.{Result, ok, err}
use poprocks.Vsock.Send.{MessengerConfig}
use poprocks.Vsock.Request.Laws.{IsFresh}
use poprocks.Vsock.Messenger.{Handlers, State, validate, default_messenger_config}
use poprocks.Vsock.Messenger.Config.{
  IsConfig, messenger_validate_iff, default_messenger_config-IsConfig,
}
use poprocks.Vsock.Messenger.Serve.{AreRespectful}

-- `Messenger`, without its connection.
pub record Messenger {ℓ} (S : Type ℓ) : Type ℓ where
  pub config : MessengerConfig
  pub handlers : Handlers S
  pub state : State S

module _ {ℓ} {S : Type ℓ} (user : S) where
  -- `newMessenger`, by the state that its handlers will change.
  unfoldable pub new_messenger_of : MessengerConfig → Messenger S
  new_messenger_of c = record {
    config = c;
    handlers = record { receivers = []; unknown = none };
    state = record {
      user = user;
      acks = record { pending_acks = []; next_chan = 0; closed = [] };
      requests = record { pending_responses = []; next_chan = 0; delivered = [] };
      acknowledging = [];
    };
  }

  -- `NewMessenger`
  unfoldable pub new_messenger : Messenger S
  unfolding new_messenger_of
  new_messenger = new_messenger_of default_messenger_config

  -- `NewMessengerWithConfig`
  unfoldable pub new_messenger_with_config : MessengerConfig → Result (Messenger S)
  unfolding validate new_messenger_of
  new_messenger_with_config c = elim (validate c) [
    | some e ↦ err e
    | none ↦ ok (new_messenger_of c)
  ]

  -- What holds of a messenger before anything happens to it.
  pub record IsReady (m : Messenger S) : Type ℓ where
    pub configured : IsConfig m.config
    pub respectful : AreRespectful m.handlers
    pub fresh : IsFresh m.state.requests

  new_messenger_of-IsReady : (c : MessengerConfig) → IsConfig c → IsReady (new_messenger_of c)
  unfolding new_messenger_of lookup
  new_messenger_of-IsReady c k = record {
    configured = k;
    respectful = record { of_type = λ t f e. ground arith; of_unknown = λ f e. ground arith };
    fresh = record { entries = λ j p e. ground arith; channels = λ ch m e. ground arith };
  }

  pub new_messenger-IsReady : IsReady new_messenger
  unfolding new_messenger
  new_messenger-IsReady =
      new_messenger_of-IsReady default_messenger_config default_messenger_config-IsConfig

  -- A messenger that was made is ready.
  pub new_messenger_with_config-IsReady :
      (c : MessengerConfig) (m : Messenger S) → new_messenger_with_config c ≡ ok m → IsReady m
  unfolding new_messenger_with_config
  new_messenger_with_config-IsReady c m e = elim (Option-cases (validate c)) [
    | inl n ↦
        subst IsReady (ground arith) (new_messenger_of-IsReady c ((messenger_validate_iff c).0 n))
    | inr (x, n) ↦ ground arith
  ]
