-- ===== src/Codec/Connections/Isolation.antt =====
-- What becomes of each connection of `Codec.Connections` when bytes arrive in any order.
use uctool.Common.{
  ℕ, zero, suc, ◌≡◌, refl, sym, ap, subst, ◌∙◌, List, [], ◌∷◌, ◌++◌, map, foldl, Bytes, ◌==◌, arith,
  All, append-nil, append_assoc, true, false, Bool-cases, inl, inr, ◌⊎◌,
}
use mathlib.Core.List.{foldl-append}
use mathlib.Core.Path.{ap₂}
use uctool.Net.{BufferApi}
use uctool.Codec.{Verdict, header_len, Turn, stop, deliver, turn, Outcome, message_loop, on_message}
use uctool.Codec.Wire.{concat, IsSendable}
use uctool.Codec.Delivery.{sent, start, receive, receive_all, receive_all-sent}
use uctool.Codec.Connections.Tagged.{
  from, snoc, from-append, from-own, from-other, foldl-tagged, foldl-snoc,
}
use uctool.Codec.Connections.{Network, fresh, arrive}

Turn-cases : (t : Turn) → ((v : Verdict) × (t ≡ stop v)) ⊎ ((len : ℕ) × (t ≡ deliver len))
Turn-cases (stop v) = inl (v, refl)
Turn-cases (deliver len) = inr (len, refl)

module _ (api : BufferApi) where
  open api use {Buffer, contents, empty, append}

  -- What `onMessage` delivers does not depend on the callback.
  -- The messages of one call, and its effect on any state.
  abbrev Agrees {ℓ} :
      {S : Type ℓ} → (S → Bytes → S) → S → Outcome api S → Outcome api (List Bytes) → Type ℓ
  Agrees callback s o logged =
      (o.buffer ≡ logged.buffer)
      × (o.state ≡ foldl callback s logged.state)
      × (o.verdict ≡ logged.verdict)

  message_loop-log {ℓ} :
      {S : Type ℓ} (callback : S → Bytes → S) (fuel : ℕ) (buf : Buffer) (s : S) (l : List Bytes)
      → Agrees callback s
          (message_loop api callback fuel buf (foldl callback s l))
          (message_loop api snoc fuel buf l)
  unfolding message_loop
  message_loop-log callback zero buf s l = (refl, refl, refl)
  message_loop-log callback (suc fuel) buf s l = elim (Turn-cases (turn api buf)) [
    | inl (v, e) ↦ rw (e, message_loop) (refl, refl, refl)
    | inr (len, e) ↦
        let body = api.retrieve buf header_len in
        let m : Bytes = api.peek body len in
        let once : foldl callback s (snoc l m) ≡ callback (foldl callback s l) m =
          foldl-append callback s l (m ∷ []) in
        rw (e, message_loop, ← once)
          (message_loop-log callback fuel (api.retrieve body len) s (snoc l m))
  ]

  -- The messages that `onMessage` delivers from a buffer.
  abbrev pub delivered : Buffer → Outcome api (List Bytes)
  delivered buf = on_message api snoc buf []

  on_message-delivered {ℓ} :
      {S : Type ℓ} (callback : S → Bytes → S) (buf : Buffer) (s : S)
      → Agrees callback s (on_message api callback buf s) (delivered buf)
  unfolding on_message
  on_message-delivered callback buf s =
      message_loop-log callback (suc (api.readable_bytes buf)) buf s []

  module _ {ℓ} {S : Type ℓ} (handle : S → ℕ × Bytes → S) where
    -- What a connection has had delivered, had it been alone.
    abbrev alone : ℕ → List (ℕ × Bytes) → Outcome api (List Bytes)
    alone k es = receive_all api snoc (start api snoc []) (from k es)

    receive_all-snoc :
        (o : Outcome api (List Bytes)) (ps : List Bytes) (p : Bytes)
        → receive_all api snoc o (snoc ps p)
          ≡ on_message api snoc
              (append (receive_all api snoc o ps).buffer p)
              (receive_all api snoc o ps).state
    receive_all-snoc o [] p = refl
    receive_all-snoc o (q ∷ ps) p = receive_all-snoc (receive api snoc o q) ps p

    -- Connection `k` is where it would be alone, and its part of `log` too.
    abbrev Behaves : List (ℕ × Bytes) → List (ℕ × Bytes) → Network api S → ℕ → Type 0
    Behaves es log w k = (w.buffers k ≡ (alone k es).buffer) × (from k log ≡ (alone k es).state)

    -- The log behind an arrival.
    abbrev logged : List (ℕ × Bytes) → Network api S → ℕ → Bytes → List (ℕ × Bytes)
    logged log w id piece =
        log ++ map (λ m. (id, m)) (delivered (append (w.buffers id) piece)).state

    alone-more :
        (es : List (ℕ × Bytes)) (id : ℕ) (piece : Bytes)
        → let o = alone id es in
          let d = delivered (append o.buffer piece) in
          ((alone id (snoc es (id, piece))).buffer ≡ d.buffer)
          × ((alone id (snoc es (id, piece))).state ≡ o.state ++ d.state)
    alone-more es id piece =
        let o = alone id es in
        let more : from id (snoc es (id, piece)) ≡ snoc (from id es) piece =
          from-append id es ((id, piece) ∷ [])
          ∙ ap (λ l. from id es ++ l) (from-own id (piece ∷ [])) in
        let (b, st, _) = on_message-delivered snoc (append o.buffer piece) o.state in
        rw (more, receive_all-snoc (start api snoc []) (from id es) piece)
          (b, st ∙ foldl-snoc o.state (delivered (append o.buffer piece)).state)

    arrive-own :
        (es log : List (ℕ × Bytes)) (w : Network api S) (id : ℕ) (piece : Bytes)
        → Behaves es log w id
        → Behaves (snoc es (id, piece)) (logged log w id piece) (arrive api handle w (id, piece)) id
    unfolding arrive
    arrive-own es log w id piece (b, l) =
        let o = alone id es in
        let same : (id == id) ≡ true = ground arith in
        let (ob, ol) = alone-more es id piece in
        let (mb, _, _) =
          on_message-delivered (λ u m. handle u (id, m)) (append (w.buffers id) piece) w.shared in
        (
          rw (same) (mb ∙ ap (λ x. (delivered (append x piece)).buffer) b ∙ sym ob),
          from-append id log _
              ∙ ap₂ (λ x y. x ++ y) l (from-own id _)
              ∙ ap (λ x. o.state ++ (delivered (append x piece)).state) b
              ∙ sym ol,
        )

    arrive-other :
        (es log : List (ℕ × Bytes)) (w : Network api S) (id : ℕ) (piece : Bytes) (k : ℕ)
        → (id == k) ≡ false
        → Behaves es log w k
        → Behaves (snoc es (id, piece)) (logged log w id piece) (arrive api handle w (id, piece)) k
    unfolding arrive
    arrive-other es log w id piece k other (b, l) =
        let none_of : from k (snoc es (id, piece)) ≡ from k es =
          from-append k es ((id, piece) ∷ [])
          ∙ ap (λ x. from k es ++ x) (from-other id k (piece ∷ []) other)
          ∙ append-nil (from k es) in
        (
          rw (other, none_of) b,
          from-append k log _
              ∙ ap (λ x. from k log ++ x) (from-other id k _ other)
              ∙ append-nil (from k log)
              ∙ l
              ∙ ap (λ x. (receive_all api snoc (start api snoc []) x).state) (sym none_of),
        )

    -- `log` is what the callback has been called with.
    abbrev IsRun : S → List (ℕ × Bytes) → List (ℕ × Bytes) → Network api S → Type ℓ
    IsRun s es log w = (w.shared ≡ foldl handle s log) × ((k : ℕ) → Behaves es log w k)

    arrive-IsRun :
        (s : S) (es log : List (ℕ × Bytes)) (w : Network api S) (id : ℕ) (piece : Bytes)
        → IsRun s es log w
        → IsRun s (snoc es (id, piece)) (logged log w id piece) (arrive api handle w (id, piece))
    unfolding arrive
    arrive-IsRun s es log w id piece (e, h) =
        let buf = append (w.buffers id) piece in
        let ms = (delivered buf).state in
        let (_, st, _) = on_message-delivered (λ u m. handle u (id, m)) buf w.shared in
        (
          st
              ∙ sym (foldl-tagged handle id w.shared ms)
              ∙ ap (λ u. foldl handle u (map (λ m. (id, m)) ms)) e
              ∙ sym (foldl-append handle s log (map (λ m. (id, m)) ms)),
          λ k. elim (Bool-cases (id == k)) [
            | inl same ↦
                let is : id ≡ k = ground (arith, same) in
                subst
                  (Behaves (snoc es (id, piece)) (logged log w id piece)
                    (arrive api handle w (id, piece)))
                  is (arrive-own es log w id piece (h id))
            | inr other ↦ arrive-other es log w id piece k other (h k)
          ],
        )

    arrivals-IsRun :
        (s : S) (later es log : List (ℕ × Bytes)) (w : Network api S)
        → IsRun s es log w
        → (all : List (ℕ × Bytes)) × IsRun s (es ++ later) all (foldl (arrive api handle) w later)
    arrivals-IsRun s [] es log w h = (log, subst (λ x. IsRun s x log w) (sym (append-nil es)) h)
    arrivals-IsRun s ((id, piece) ∷ later) es log w h =
        let (all, run) =
          arrivals-IsRun s later (snoc es (id, piece)) (logged log w id piece)
            (arrive api handle w (id, piece)) (arrive-IsRun s es log w id piece h) in
        (
          all,
          subst (λ x. IsRun s x all (foldl (arrive api handle) w ((id, piece) ∷ later)))
              (append_assoc es ((id, piece) ∷ []) later) run,
        )

    -- Connections do not disturb one another. Bytes, any bytes, arrive at the connections in any
    -- order. The callback has then been called with some sequence of messages, each with its
    -- connection; of that sequence, every connection's part is what `onMessage` would have delivered
    -- from that connection's bytes alone, and its input buffer is what would be left of them.
    pub arrivals_isolated :
        (s : S) (es : List (ℕ × Bytes))
        → let w = foldl (arrive api handle) (fresh api s) es in
          (log : List (ℕ × Bytes)) × (w.shared ≡ foldl handle s log)
          × ((k : ℕ)
              → let o = receive_all api snoc (start api snoc []) (from k es) in
                (from k log ≡ o.state) × (w.buffers k ≡ o.buffer))
    unfolding from
    arrivals_isolated s es =
        let (log, (e, h)) = arrivals-IsRun s es [] [] (fresh api s) (refl, λ k. (refl, refl)) in
        (log, e, λ k. ((h k).1, (h k).0))

    -- The same of well-formed streams.
    pub arrivals-sent :
        (s : S) (es : List (ℕ × Bytes)) (requests : ℕ → List Bytes)
        → ((k : ℕ) → All IsSendable (requests k))
        → ((k : ℕ) → concat (from k es) ≡ concat (map (sent api) (requests k)))
        → let w = foldl (arrive api handle) (fresh api s) es in
          (log : List (ℕ × Bytes)) × (w.shared ≡ foldl handle s log)
          × ((k : ℕ) → (from k log ≡ requests k) × (contents (w.buffers k) ≡ []))
    arrivals-sent s es requests sendable whole =
        let (log, e, h) = arrivals_isolated s es in
        (
          log,
          e,
          λ k.
              let (state, empty_now, _) =
                receive_all-sent api snoc (requests k) (from k es) [] (sendable k) (whole k) in
              ((h k).0 ∙ state ∙ foldl-snoc [] (requests k), ap contents (h k).1 ∙ empty_now),
        )
