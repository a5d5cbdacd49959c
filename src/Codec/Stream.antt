-- ===== src/Codec/Stream.antt =====
-- The receiving loop of codec.h on the bytes of the stream: what a run over some bytes does, as a
-- relation, and that `onMessage` runs it to its end, whatever the buffer's implementation.
use uctool.Common.{
  ℕ, zero, suc, ◌+◌, ◌≤◌, ◌<◌, ◌≡◌, refl, sym, ap, subst, ◌∙◌, ◌⊎◌, ◌++◌, Bytes, length, take, drop,
  arith, leb, if◌then◌else◌, length-take, length-drop, length-append, take-append_of_le,
  drop-append_of_le,
}
use mathlib.Core.Path.{subst₂}
use uctool.Net.{BufferApi, be32}
use uctool.Codec.{
  Turn, stop, deliver, Verdict, waiting, shut_down, judge, turn, Outcome, message_loop, on_message,
  header_len, max_len,
}

-- The decision of a round, from the bytes at hand.
abbrev pub turn_of : Bytes → Turn
turn_of bs =
    if leb header_len (length bs)
    then judge (length bs) (be32 (take header_len bs))
    else stop waiting

-- What the body of the first frame is, and what stands behind it.
abbrev pub body : ℕ → Bytes → Bytes
body len bs = take len (drop header_len bs)

abbrev pub behind : ℕ → Bytes → Bytes
behind len bs = drop len (drop header_len bs)

-- A message is delivered only if it is complete and within the limit.
pub deliver_bounds :
    (bs : Bytes) (len : ℕ)
    → turn_of bs ≡ deliver len
    → (len + header_len ≤ length bs) × (len ≤ max_len)
unfolding judge
deliver_bounds bs len h = ground arith

-- The loop stops by waiting or by a shutdown.
pub stop_verdicts :
    (bs : Bytes) (v : Verdict) → turn_of bs ≡ stop v → (v ≡ waiting) ⊎ (v ≡ shut_down)
unfolding judge
stop_verdicts bs v h = ground arith

pub length-take_header : (bs : Bytes) → 4 ≤ length bs → length (take 4 bs) ≡ 4
length-take_header bs h = omega (arith, length-take {0} 4 bs)

-- More bytes behind a complete frame change nothing about it.
pub turn_of-append :
    (bs ys : Bytes) (len : ℕ) → turn_of bs ≡ deliver len → turn_of (bs ++ ys) ≡ deliver len
unfolding judge
turn_of-append bs ys len h =
    let (fits, _) = deliver_bounds bs len h in
    ground (arith, length-append bs ys, take-append_of_le 4 bs ys (omega arith))

module _ {ℓ} {S : Type ℓ} (callback : S → Bytes → S) where
  -- A run of the loop over `bs` from state `s`: the bytes left, the state and the verdict.
  pub data Scans : Bytes → S → Bytes → S → Verdict → Type ℓ where
    halt :
        {bs rest : Bytes} {s t : S} {v : Verdict}
        → turn_of bs ≡ stop v
        → rest ≡ bs
        → t ≡ s
        → Scans bs s rest t v
    more :
        {bs rest : Bytes} {s t : S} {v : Verdict} (len : ℕ)
        → turn_of bs ≡ deliver len
        → Scans (behind len bs) (callback s (body len bs)) rest t v
        → Scans bs s rest t v

  -- The run is determined by the bytes and the state.
  pub Scans-unique :
      {bs r₁ r₂ : Bytes} {s t₁ t₂ : S} {v₁ v₂ : Verdict}
      → Scans bs s r₁ t₁ v₁
      → Scans bs s r₂ t₂ v₂
      → (r₁ ≡ r₂) × (t₁ ≡ t₂) × (v₁ ≡ v₂)
  Scans-unique (halt h a b) (halt k c d) = (a ∙ sym c, b ∙ sym d, ground arith)
  Scans-unique (halt h a b) (more len k m) = absurd (ground arith)
  Scans-unique (more len k m) (halt h a b) = absurd (ground arith)
  Scans-unique {r₂ = r₂} {t₂ = t₂} {v₂ = v₂} (more {bs = bs} {s = s} len h m) (more len' k n) =
      Scans-unique m
        (subst (λ j. Scans (behind j bs) (callback s (body j bs)) r₂ t₂ v₂) (same (sym k ∙ h)) n)
    where
      same : deliver len' ≡ deliver len → len' ≡ len
      same e = ground arith

  -- Bytes that come later only continue the run.
  pub Scans-append :
      {bs rest final : Bytes} {s t u : S} {v w : Verdict} (ys : Bytes)
      → Scans bs s rest t v
      → Scans (rest ++ ys) t final u w
      → Scans (bs ++ ys) s final u w
  Scans-append {final = final} {u = u} {w = w} ys (halt h a b) next =
      subst₂ (λ x y. Scans (x ++ ys) y final u w) a b next
  Scans-append {final = final} {u = u} {w = w} ys (more {bs = bs} {s = s} len h m) next =
      let (fits, _) = deliver_bounds bs len h in
      more len (turn_of-append bs ys len h) (
        rw
          (
            drop-append_of_le 4 bs ys (omega arith),
            drop-append_of_le len (drop 4 bs) ys (omega (arith, length-drop {0} 4 bs)),
            take-append_of_le len (drop 4 bs) ys (omega (arith, length-drop {0} 4 bs)),
          )
          (Scans-append ys m next))

  module _ (api : BufferApi) where
    open api use {
      Buffer, contents, readable_bytes, retrieve, peek, readable_bytes_lem, peek_lem,
      peek_int32_lem, contents-retrieve, load32_lem,
    }

    turn_lem : (buf : Buffer) → turn api buf ≡ turn_of (contents buf)
    unfolding turn
    turn_lem buf = ground (
      arith,
      readable_bytes_lem buf,
      peek_lem buf 4,
      peek_int32_lem buf,
      load32_lem (take 4 (contents buf)),
      length-take_header (contents buf),
    )

    abbrev pub RunsTo : Bytes → S → Outcome api S → Type ℓ
    RunsTo bs s o = Scans bs s (contents o.buffer) o.state o.verdict

    -- The buffer behind a complete frame, and the bytes that the callback is given.
    deliver_parts :
        (buf : Buffer) (len : ℕ)
        → turn_of (contents buf) ≡ deliver len
        → (contents (retrieve (retrieve buf 4) len) ≡ behind len (contents buf))
          × (peek (retrieve buf 4) len ≡ body len (contents buf))
    deliver_parts buf len h =
        let (fits, _) = deliver_bounds (contents buf) len h in
        let first : contents (retrieve buf 4) ≡ drop 4 (contents buf) =
          contents-retrieve buf 4 (omega arith) in
        let room : len ≤ length (contents (retrieve buf 4)) =
          rw first (omega (arith, length-drop {0} 4 (contents buf))) in
        (
          contents-retrieve (retrieve buf 4) len room ∙ ap (drop len) first,
          peek_lem (retrieve buf 4) len room ∙ ap (take len) first,
        )

    message_loop-RunsTo :
        (fuel : ℕ) (buf : Buffer) (s : S)
        → length (contents buf) < fuel
        → RunsTo (contents buf) s (message_loop api callback fuel buf s)
    unfolding message_loop
    message_loop-RunsTo zero buf s h = absurd (omega arith)
    message_loop-RunsTo (suc fuel) buf s h =
        go (message_loop-RunsTo fuel) (turn_of (contents buf)) refl
      where
        go :
            ((b : Buffer) (t : S)
              → length (contents b) < fuel
              → RunsTo (contents b) t (message_loop api callback fuel b t))
            → (t : Turn) → turn_of (contents buf) ≡ t
            → RunsTo (contents buf) s (message_loop api callback (suc fuel) buf s)
        go again (stop v) e = rw (turn_lem buf, e, message_loop) (halt e refl refl)
        go again (deliver len) e =
            let next : Buffer = retrieve (retrieve buf 4) len in
            let state : S = callback s (peek (retrieve buf 4) len) in
            let (left, given) = deliver_parts buf len e in
            let (fits, _) = deliver_bounds (contents buf) len e in
            let shorter : length (contents next) < fuel = rw left (
              omega (
                arith,
                length-drop {0} len (drop 4 (contents buf)),
                length-drop {0} 4 (contents buf),
              )) in
            rw (turn_lem buf, e, message_loop)
              (more len e (
                subst₂ (λ x y. RunsTo x (callback s y) (message_loop api callback fuel next state))
                  left given (again next state shorter)))

    -- `onMessage` never runs out of rounds: it runs over the bytes of its buffer to the end.
    pub on_message-RunsTo :
        (buf : Buffer) (s : S) → RunsTo (contents buf) s (on_message api callback buf s)
    unfolding on_message
    on_message-RunsTo buf s =
        message_loop-RunsTo (suc (readable_bytes buf)) buf s (omega (arith, readable_bytes_lem buf))
