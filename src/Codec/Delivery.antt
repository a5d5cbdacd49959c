-- ===== src/Codec/Delivery.antt =====
-- codec.h end to end: `send` on one side, `onMessage` for each piece that arrives on the other.
use uctool.Common.{
  ◌^◌, ◌<◌, ◌≡◌, refl, sym, ap, ◌∙◌, ◌⊎◌, List, [], ◌∷◌, ◌++◌, map, foldl, Bytes, All, length,
  arith, append-nil, append_assoc,
}
use mathlib.Core.Path.{ap₂}
use native.Mathlib.Nat.{mod-eq_of_lt}
use uctool.Net.{BufferApi, be_bytes}
use uctool.Codec.{waiting, shut_down, Outcome, on_message, send, max_len}
use uctool.Codec.Stream.{halt, Scans-unique, Scans-append, RunsTo, on_message-RunsTo}
use uctool.Codec.Wire.{
  frame, frames, concat, IsSendable, IsBytes, Scans-frames, Scans-oversize, Scans-keeps, Scans-ends,
  Scans-reads,
}

module _ (api : BufferApi) where
  open api use {Buffer, contents, empty, append, contents-empty, contents-append, contents-prepend}
  open api use {store32_lem, prepend, store32, host_to_network32}

  -- What `send` puts on the wire.
  abbrev pub sent : Bytes → Bytes
  sent message = contents (send api message)

  pub sent-frame : (m : Bytes) → length m < 2 ^ 32 → sent m ≡ frame m
  unfolding send
  sent-frame m h =
      ap (λ w. contents (prepend (append empty m) (store32 (host_to_network32 w)))) (mod-eq_of_lt h)
      ∙ ap (λ header. contents (prepend (append empty m) header)) (store32_lem (length m) h)
      ∙ contents-prepend (be_bytes (length m)) m (omega arith)

  sent-frames : (ms : List Bytes) → All IsSendable ms → concat (map sent ms) ≡ frames ms
  sent-frames [] a = refl
  sent-frames (m ∷ ms) a = rw (sent-frame m (omega arith), sent-frames ms a.1)

  module _ {ℓ} {S : Type ℓ} (callback : S → Bytes → S) where
    -- A connection that has received nothing.
    abbrev pub start : S → Outcome api S
    start s = record { buffer = empty; state = s; verdict = waiting }

    -- A piece arrives: it is appended to the input buffer, and the callback of the server runs.
    abbrev pub receive : Outcome api S → Bytes → Outcome api S
    receive o piece = on_message api callback (append o.buffer piece) o.state

    abbrev pub receive_all : Outcome api S → List Bytes → Outcome api S
    receive_all o [] = o
    receive_all o (p ∷ ps) = receive_all (receive o p) ps

    receive_all-RunsTo :
        (ps : List Bytes) (bs : Bytes) (s : S) (o : Outcome api S)
        → RunsTo callback api bs s o
        → RunsTo callback api (bs ++ concat ps) s (receive_all o ps)
    receive_all-RunsTo [] bs s o run = rw append-nil run
    receive_all-RunsTo (p ∷ ps) bs s o run = rw (← append_assoc bs p (concat ps)) (
        receive_all-RunsTo ps (bs ++ p) s (receive o p) (
          Scans-append callback p run (
            rw (contents-append o.buffer p) at
              (on_message-RunsTo callback api (append o.buffer p) o.state))))

    start-RunsTo : (s : S) → RunsTo callback api [] s (start s)
    start-RunsTo s = halt refl contents-empty refl

    received :
        (ps : List Bytes) (s : S) → RunsTo callback api (concat ps) s (receive_all (start s) ps)
    received ps s = receive_all-RunsTo ps [] s (start s) (start-RunsTo s)

    -- However the network cuts the stream of sent messages, each at most 65536 bytes long, into
    -- pieces: the callback has run once for each message, in order and unchanged, no byte is left in
    -- the buffer, and the connection stays open.
    pub receive_all-sent :
        (ms pieces : List Bytes) (s : S)
        → All IsSendable ms
        → concat pieces ≡ concat (map sent ms)
        → let o = receive_all (start s) pieces in
          (o.state ≡ foldl callback s ms) × (contents o.buffer ≡ []) × (o.verdict ≡ waiting)
    receive_all-sent ms pieces s a e =
        let whole = e ∙ sent-frames ms a ∙ sym (append-nil (frames ms)) in
        let run = rw whole at (received pieces s) in
        let (x, y, z) = Scans-unique callback run (
          Scans-frames callback ms [] [] s (foldl callback s ms) waiting a (halt refl refl refl)) in
        (y, x, z)

    -- The same bytes in other pieces leave the same state, the same unread bytes and the same
    -- verdict, whatever the bytes are.
    pub receive_all-pieces :
        (ps qs : List Bytes) (s : S)
        → concat ps ≡ concat qs
        → let o = receive_all (start s) ps in
          let o' = receive_all (start s) qs in
          (o.state ≡ o'.state) × (contents o.buffer ≡ contents o'.buffer) × (o.verdict ≡ o'.verdict)
    receive_all-pieces ps qs s e =
        let run = rw e at (received ps s) in
        let (x, y, z) = Scans-unique callback run (received qs s) in (y, x, z)

    -- A message beyond 65536 bytes is sent all the same. Behind any messages within the limit it
    -- makes the receiver shut the connection down: the earlier messages are delivered, this one and
    -- what follows it are not, and stay in the buffer.
    pub receive_all-oversize :
        (ms : List Bytes) (m rest : Bytes) (pieces : List Bytes) (s : S)
        → All IsSendable ms
        → max_len < length m
        → length m < 2 ^ 32
        → concat pieces ≡ concat (map sent ms) ++ sent m ++ rest
        → let o = receive_all (start s) pieces in
          (o.state ≡ foldl callback s ms)
          × (contents o.buffer ≡ frame m ++ rest)
          × (o.verdict ≡ shut_down)
    receive_all-oversize ms m rest pieces s a big fits e =
        let stream : concat pieces ≡ frames ms ++ (frame m ++ rest) =
          e
          ∙ ap₂ (λ x y. x ++ y ++ rest) (sent-frames ms a) (sent-frame m fits)
          ∙ append_assoc (frames ms) (frame m) rest in
        let run = rw stream at (received pieces s) in
        let (x, y, z) = Scans-unique callback run (
          Scans-frames callback ms _ _ s _ _ a
            (Scans-oversize callback m rest (foldl callback s ms) big fits)) in
        (y, x, z)

    -- Every call of `onMessage` ends by its own tests, waiting or shutting down, never by the fatal
    -- check of the two header readings; and a property of the server's state that the callback keeps
    -- for messages of at most 65536 bytes still holds.
    pub on_message-keeps {κ} :
        (P : S → Type κ) (buf : Buffer) (s : S)
        → ((u : S) (m : Bytes) → IsSendable m → P u → P (callback u m))
        → P s
        → let o = on_message api callback buf s in
          P o.state × ((o.verdict ≡ waiting) ⊎ (o.verdict ≡ shut_down))
    on_message-keeps P buf s keep p =
        let run = on_message-RunsTo callback api buf s in
        (Scans-keeps callback P keep run p, Scans-ends callback run)

    -- Nothing is made up and nothing is lost: what `onMessage` took from the buffer is exactly the
    -- frames of the messages that the callback was called with, in order, each within the limit.
    pub on_message-frames :
        (buf : Buffer) (s : S)
        → IsBytes (contents buf)
        → let o = on_message api callback buf s in
          (ms : List Bytes) × (contents buf ≡ frames ms ++ contents o.buffer)
          × (o.state ≡ foldl callback s ms)
          × All IsSendable ms
    on_message-frames buf s a = Scans-reads callback a (on_message-RunsTo callback api buf s)
