-- ===== src/Server/Outbox/Transport.antt =====
-- crates/snaca-server/src/outbox.rs: which errors of a call are worth another try.
use snaca.Base.{String, true, false, ◌≡◌, refl}
use snaca.Server.Channel.{
  ChannelError, io, protocol, plugin, handshake, disconnected, timeout, send_closed, auth_failed,
  invalid_params, serde, other,
}
use snaca.Server.Outbox.{is_retryable}

-- The errors of transport and process: those that a respawned plugin may get over.
pub data IsTransport : ChannelError → Type 0 where
  is_disconnected : IsTransport disconnected
  is_timeout : IsTransport timeout
  is_send_closed : IsTransport send_closed
  is_io : (e : String) → IsTransport (io e)

pub is_retryable-IsTransport : (e : ChannelError) → is_retryable e ≡ true → IsTransport e
is_retryable-IsTransport disconnected h = is_disconnected
is_retryable-IsTransport timeout h = is_timeout
is_retryable-IsTransport send_closed h = is_send_closed
is_retryable-IsTransport (io e) h = is_io e
is_retryable-IsTransport (protocol e) h = absurd (cc h)
is_retryable-IsTransport (plugin c e) h = absurd (cc h)
is_retryable-IsTransport (handshake e) h = absurd (cc h)
is_retryable-IsTransport auth_failed h = absurd (cc h)
is_retryable-IsTransport (invalid_params c e) h = absurd (cc h)
is_retryable-IsTransport (serde e) h = absurd (cc h)
is_retryable-IsTransport (other e) h = absurd (cc h)

transport_retryable : (e : ChannelError) → IsTransport e → is_retryable e ≡ true
transport_retryable _ is_disconnected = refl
transport_retryable _ is_timeout = refl
transport_retryable _ is_send_closed = refl
transport_retryable _ (is_io e) = refl

pub not_retryable : (e : ChannelError) → is_retryable e ≡ false → ¬ IsTransport e
not_retryable e h t = cc (transport_retryable e t, h)
