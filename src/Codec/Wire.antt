-- ===== src/Codec/Wire.antt =====
-- What codec.h promises over the wire: frames that `send` builds come out of `onMessage` as they
-- went in, however the network cuts the stream.
use uctool.Common.{
  ℕ, zero, suc, ◌^◌, ◌≤◌, ◌<◌, ◌≡◌, refl, sym, ap, subst, ◌∙◌, ◌⊎◌, List, [], ◌∷◌, ◌++◌, foldl,
  Bytes, All, length, take, drop, arith, length-append, take-length_append, drop-length_append,
  append_assoc, take-append-drop, length-take, length-drop,
}
use uctool.Net.{be32, be_bytes}
use uctool.Codec.{Verdict, waiting, shut_down, stop, deliver, judge, max_len}
use uctool.Codec.Stream.{turn_of, body, behind, Scans, halt, more, deliver_bounds, stop_verdicts}

-- A message behind its length in network order.
abbrev pub frame : Bytes → Bytes
frame message = be_bytes (length message) ++ message

abbrev pub frames : List Bytes → Bytes
frames [] = []
frames (m ∷ ms) = frame m ++ frames ms

abbrev pub concat : List Bytes → Bytes
concat [] = []
concat (c ∷ cs) = c ++ concat cs

abbrev pub IsSendable : Bytes → Type 0
IsSendable message = length message ≤ max_len

turn_of-frame : (m rest : Bytes) → IsSendable m → turn_of (frame m ++ rest) ≡ deliver (length m)
unfolding judge
turn_of-frame m rest h = ground (arith, length-append m rest)

turn_of-oversize :
    (m rest : Bytes)
    → max_len < length m
    → length m < 2 ^ 32
    → turn_of (frame m ++ rest) ≡ stop shut_down
unfolding judge
turn_of-oversize m rest h k = ground (arith, length-append m rest)

abbrev pub IsBytes : Bytes → Type 0
IsBytes bs = All (λ x. x < 256) bs

All-drop : (n : ℕ) (bs : Bytes) → IsBytes bs → IsBytes (drop n bs)
All-drop zero bs a = a
All-drop (suc n) [] a = a
All-drop (suc n) (b ∷ bs) a = All-drop n bs a.1

body-IsSendable : (bs : Bytes) (len : ℕ) → turn_of bs ≡ deliver len → IsSendable (body len bs)
body-IsSendable bs len h =
    let (fits, small) = deliver_bounds bs len h in omega (arith, length-take {0} len (drop 4 bs))

length-body : (bs : Bytes) (len : ℕ) → turn_of bs ≡ deliver len → length (body len bs) ≡ len
length-body bs len h =
    let (fits, small) = deliver_bounds bs len h in
    omega (arith, length-take {0} len (drop 4 bs), length-drop {0} 4 bs)

header_value : (bs : Bytes) (len : ℕ) → turn_of bs ≡ deliver len → be32 (take 4 bs) ≡ len
unfolding judge
header_value bs len h = ground arith

header_bytes : (bs : Bytes) → IsBytes bs → 4 ≤ length bs → be_bytes (be32 (take 4 bs)) ≡ take 4 bs
header_bytes (a ∷ b ∷ c ∷ d ∷ rest) h k = ground arith
header_bytes _ h k = absurd (omega arith)

-- The bytes of a complete frame are the frame of its body, and what stands behind it.
split_frame :
    (bs : Bytes) (len : ℕ)
    → IsBytes bs
    → turn_of bs ≡ deliver len
    → frame (body len bs) ++ behind len bs ≡ bs
split_frame bs len a h =
    let (fits, small) = deliver_bounds bs len h in
    let head : be_bytes (length (body len bs)) ≡ take 4 bs =
      ap be_bytes (length-body bs len h ∙ sym (header_value bs len h))
      ∙ header_bytes bs a (omega arith) in
    ap (λ x. (x ++ body len bs) ++ behind len bs) head
    ∙ append_assoc (take 4 bs) (body len bs) (behind len bs)
    ∙ ap (λ x. take 4 bs ++ x) (take-append-drop len (drop 4 bs))
    ∙ take-append-drop 4 bs

module _ {ℓ} {S : Type ℓ} (callback : S → Bytes → S) where
  pub Scans-frames :
      (ms : List Bytes) (rest left : Bytes) (s t : S) (v : Verdict)
      → All IsSendable ms
      → Scans callback rest (foldl callback s ms) left t v
      → Scans callback (frames ms ++ rest) s left t v
  Scans-frames [] rest left s t v a run = run
  Scans-frames (m ∷ ms) rest left s t v a run = rw (append_assoc (frame m) (frames ms) rest) (
      more (length m) (turn_of-frame m (frames ms ++ rest) a.0) (
        rw (drop-length_append m (frames ms ++ rest), take-length_append m (frames ms ++ rest))
          (Scans-frames ms rest left (callback s m) t v a.1 run)))

  -- A frame beyond the limit stops the loop, and stays in front of the buffer.
  pub Scans-oversize :
      (m rest : Bytes) (s : S)
      → max_len < length m
      → length m < 2 ^ 32
      → Scans callback (frame m ++ rest) s (frame m ++ rest) s shut_down
  Scans-oversize m rest s h k = halt (turn_of-oversize m rest h k) refl refl

  -- A property of the state that messages within the limit keep.
  pub Scans-keeps {κ} :
      (P : S → Type κ) {bs left : Bytes} {s t : S} {v : Verdict}
      → ((u : S) (m : Bytes) → IsSendable m → P u → P (callback u m))
      → Scans callback bs s left t v
      → P s
      → P t
  Scans-keeps P keep (halt h a b) p = subst P (sym b) p
  Scans-keeps P keep (more {bs = bs} {s = s} len h m) p =
      let (fits, small) = deliver_bounds bs len h in
      Scans-keeps P keep m (keep s (body len bs) (omega (arith, length-take {0} len (drop 4 bs))) p)

  pub Scans-ends :
      {bs left : Bytes} {s t : S} {v : Verdict}
      → Scans callback bs s left t v
      → (v ≡ waiting) ⊎ (v ≡ shut_down)
  Scans-ends (halt {bs = bs} {v = v} h a b) = stop_verdicts bs v h
  Scans-ends (more len h m) = Scans-ends m

  -- What a run takes away is a row of frames, one for each call of the callback.
  pub Scans-reads :
      {bs left : Bytes} {s t : S} {v : Verdict}
      → IsBytes bs
      → Scans callback bs s left t v
      → (ms : List Bytes) × (bs ≡ frames ms ++ left) × (t ≡ foldl callback s ms) × All IsSendable ms
  Scans-reads a (halt h x y) = ([], sym x, y, tt)
  Scans-reads a (more {bs = bs} len h m) =
      let (ms, x, y, z) = Scans-reads (All-drop len (drop 4 bs) (All-drop 4 bs a)) m in
      (
        body len bs ∷ ms,
        sym (split_frame bs len a h)
            ∙ ap (λ r. frame (body len bs) ++ r) x
            ∙ sym (append_assoc (frame (body len bs)) (frames ms) _),
        y,
        (body-IsSendable bs len h, z),
      )
