-- ===== src/Codec/Connections.antt =====
-- ulordcenter/ulordcenter.cc, the constructor: one codec serves all connections of the TCP server.
-- Each connection has an input buffer of its own, which muduo hands to `onMessage` with the
-- connection; the callback works on the state that the connections share. Calls come one after the
-- other, in any order of the connections.
pub mod Tagged
pub mod Isolation
use uctool.Common.{
  ℕ, zero, suc, ◌≡◌, ◌≢◌, refl, sym, ap, subst, ◌∙◌, List, [], ◌∷◌, ◌++◌, map, foldl, Bytes, ◌==◌,
  if◌then◌else◌, arith, All, append-nil, append_assoc, true, false, Bool-cases, inl, inr, ◌⊎◌,
}
use mathlib.Core.List.{foldl-append, foldl-map}
use mathlib.Core.Path.{ap₂}
use uctool.Net.{BufferApi}
use uctool.Codec.{Verdict, header_len, Turn, stop, deliver, turn, Outcome, message_loop, on_message}
use uctool.Codec.Wire.{concat, IsSendable}
use uctool.Codec.Delivery.{sent, start, receive, receive_all, receive_all-sent}

module _ (api : BufferApi) where
  open api use {Buffer, empty, append}

  -- The connections' input buffers and what the connections share.
  pub record Network {ℓ} (S : Type ℓ) : Type ℓ where
    pub buffers : ℕ → Buffer
    pub shared : S

  abbrev pub fresh {ℓ} : {S : Type ℓ} → S → Network S
  fresh s = record { buffers = λ k. empty; shared = s }

  module _ {ℓ} {S : Type ℓ} (handle : S → ℕ × Bytes → S) where
    -- Bytes arrive at a connection.
    unfoldable pub arrive : Network S → ℕ × Bytes → Network S
    arrive w (id, piece) =
        let o = on_message api (λ s m. handle s (id, m)) (append (w.buffers id) piece) w.shared in
        record { buffers = λ k. if id == k then o.buffer else w.buffers k; shared = o.state }
