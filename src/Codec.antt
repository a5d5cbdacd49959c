-- ===== src/Codec.antt =====
-- ulordcenter/codec.h: `LengthHeaderCodec`, frames with a four-byte length header over a stream.
-- The buffer is muduo's, a parameter (Net). The message callback is a state change of its owner.
pub mod Stream
pub mod Wire
pub mod Delivery
pub mod Connections
use uctool.Common.{
  ℕ, zero, suc, ◌+◌, ◌%◌, ◌^◌, Bool, ◌||◌, Bytes, length, ltb, leb, ◌==◌, if◌then◌else◌, signed32,
  pos, ltb_ℤ, pos_part,
}
use uctool.Net.{BufferApi}

abbrev pub header_len : ℕ
header_len = 4

abbrev pub max_len : ℕ
max_len = 65536

-- Why the loop ended: it waits for more bytes, it asked the connection to shut down, or the two
-- readings of the header differ (the fatal log ends the process).
pub data Verdict : Type 0 where
  waiting shut_down fatal out_of_fuel : Verdict

-- What one round of the loop decides, from the header.
pub data Turn : Type 0 where
  stop : Verdict → Turn
  deliver : ℕ → Turn

-- The tests of the loop on a header that both readings agree on. `w` is the `int32_t` pattern.
unfoldable pub judge : ℕ → ℕ → Turn
judge readable w =
    let len = signed32 w in
    if ltb_ℤ (pos max_len) len || ltb_ℤ len (pos 0)
    then stop shut_down
    else if leb (pos_part len + header_len) readable
    then deliver (pos_part len)
    else stop waiting

module _ (api : BufferApi) where
  open api use {
    Buffer, empty, readable_bytes, peek, peek_int32, retrieve, append, prepend, load32, store32,
    network_to_host32, host_to_network32,
  }

  unfoldable pub turn : Buffer → Turn
  turn buf =
      if leb header_len (readable_bytes buf)
      then (let len = network_to_host32 (load32 (peek buf header_len)) in
          if len == peek_int32 buf then judge (readable_bytes buf) len else stop fatal)
      else stop waiting

  pub record Outcome {ℓ} (S : Type ℓ) : Type ℓ where
    pub buffer : Buffer
    pub state : S
    pub verdict : Verdict

  module _ {ℓ} {S : Type ℓ} (callback : S → Bytes → S) where
    -- The `while` loop. Each round that goes on takes at least the header away.
    unfoldable pub message_loop : ℕ → Buffer → S → Outcome S
    message_loop zero buf s = record { buffer = buf; state = s; verdict = out_of_fuel }
    message_loop (suc fuel) buf s = elim (turn buf) [
      | stop v ↦ record { buffer = buf; state = s; verdict = v }
      | deliver len ↦
          let body = retrieve buf header_len in
          let s' = callback s (peek body len) in message_loop fuel (retrieve body len) s'
    ]

    -- `onMessage`: the loop over the bytes that have arrived.
    unfoldable pub on_message : Buffer → S → Outcome S
    unfolding message_loop
    on_message buf s = message_loop (suc (readable_bytes buf)) buf s

  -- `send`: the buffer that goes to the connection. The size is cast to `int32_t`.
  unfoldable pub send : Bytes → Buffer
  send message =
      let buf = append empty message in
      let len = length message % 2 ^ 32 in prepend buf (store32 (host_to_network32 len))
