-- ===== src/Formatting.antt =====
-- common/utils.cc: `Strings::Format` and `Strings::Append` over the C library's `vsnprintf`. The
-- format and its arguments stay the same between the two calls; they are part of the interface.
use uctool.Common.{
  ℕ, zero, suc, ◌-◌, ◌^◌, ◌<◌, ◌≡◌, refl, ap, ◌∙◌, sym, inl, inr, [], ◌∷◌, ◌++◌, Option, none, some,
  Bytes, length, take, ltb, false, if◌then◌else◌, ℤ, pos, negsuc, arith, Bool-cases, append-nil,
  take-length_append, ◌≤◌,
}

-- What `vsnprintf` of these arguments puts into memory of `size` bytes, and what it returns.
pub record PrintfApi : Type 0 where
  pub vsnprintf : ℕ → Bytes × ℤ

-- `append(ptr, len)` of `std::string` from memory that begins with `memory`: none is the exception
-- on a length that was negative.
abbrev append_from : Bytes → Bytes × ℤ → Option Bytes
append_from dest (memory, pos len) = some (dest ++ take len memory)
append_from dest (memory, negsuc n) = none

-- `Strings::Append`
unfoldable pub append_format : PrintfApi → Bytes → Option Bytes
append_format api dest = elim (api.vsnprintf 512).1 [
  | negsuc n ↦ append_from dest (api.vsnprintf 512)
  | pos len ↦
      if ltb 511 len
      then append_from dest (api.vsnprintf (suc len))
      else append_from dest (api.vsnprintf 512)
]

-- `Strings::Format`
unfoldable pub format : PrintfApi → Option Bytes
unfolding append_format
format api = append_format api []

-- The documented behaviour for arguments that print as `text`, whose length an `int` counts: the text
-- is cut to fit with a NUL behind it, and the length that is returned is that of the whole text.
abbrev pub Prints : PrintfApi → Bytes → Type 0
Prints api text =
    (length text < 2 ^ 31 - 1)
    × ((size : ℕ)
        → (junk : Bytes) × (api.vsnprintf (suc size)
            ≡ (take size text ++ 0 ∷ junk, pos (length text))))

take-length : (xs : Bytes) → take (length xs) xs ≡ xs
take-length xs = ap (take (length xs)) (sym (append-nil xs)) ∙ take-length_append xs []

take_longer : (n : ℕ) (xs ys : Bytes) → length xs ≤ n → take (length xs) (take n xs ++ ys) ≡ xs
take_longer n [] ys h = refl
take_longer zero (x ∷ xs) ys h = absurd (omega arith)
take_longer (suc n) (x ∷ xs) ys h = ap (λ l. x ∷ l) (take_longer n xs ys (omega arith))

fits : (n : ℕ) → ltb 511 n ≡ false → n ≤ 511
fits n h = ground arith

-- A text of any length is appended as a whole, whether it fits the 512 bytes on the stack or needs a
-- second call; `Format` gives just the text.
pub append_format-Prints :
    (api : PrintfApi) (dest text : Bytes)
    → Prints api text
    → (append_format api dest ≡ some (dest ++ text)) × (format api ≡ some text)
unfolding format append_format
append_format-Prints api dest text (small, prints) =
    let appended : (d : Bytes) → append_format api d ≡ some (d ++ text) = λ d.
      let (junk, first) = prints 511 in
      let (junk', second) = prints (length text) in
      let reads_all : take (length text) (take (length text) text ++ 0 ∷ junk') ≡ text =
        take_longer (length text) text (0 ∷ junk') (omega arith) in
      elim (Bool-cases (ltb 511 (length text))) [
        | inl long ↦ rw (first, append_format, long, second, reads_all) refl
        | inr short ↦
            let reads : take (length text) (take 511 text ++ 0 ∷ junk) ≡ text =
              take_longer 511 text (0 ∷ junk) (fits (length text) short) in
            rw (first, append_format, short, first, reads) refl
      ] in
    (appended dest, appended [])
