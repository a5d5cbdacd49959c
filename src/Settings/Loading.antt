-- ===== src/Settings/Loading.antt =====
-- What `LoadConfigFile` leaves in the two maps.
use uctool.Common.{
  ℕ, ◌≡◌, refl, sym, ap, subst, ◌∙◌, inl, inr, true, false, not, List, [], ◌∷◌, ◌++◌, foldl, Option,
  none, some, Bytes, codes, length, ltb, append-nil, append_assoc, bytes_eq, bytes_eq_iff,
  bytes_eq_refl, Bool-cases, Option-cases, if◌then◌else◌, arith, ◌==◌, ◌&&◌,
}
use uctool.Numbers.{atoi, skip_space, after_sign, is_space, leading, is_digit}
use uctool.StdMap.{StdMap, find}
use uctool.StdMap.Laws.{IsSorted, insert-IsSorted, find-insert, find-insert_other}
use uctool.Settings.{
  Settings, interpret_bool, interpret_negative_setting, values_of, keep_first, add_setting,
  load_entry, load_config_file,
}

-- The value that a line gives to `k`, if any.
abbrev given_by : Bytes → Bytes × Bytes → List Bytes
given_by k (key, value) = if bytes_eq key k then value ∷ [] else []

-- What a line sets: -X, but for a key "noX", which sets -X to "0" where its value is true and to "1"
-- where it is not.
abbrev pub sets : Bytes → Bytes → Bytes × Bytes
sets [] value = (45 ∷ [], value)
sets (a ∷ []) value = (45 ∷ a ∷ [], value)
sets (a ∷ b ∷ []) value = (45 ∷ a ∷ b ∷ [], value)
sets (a ∷ b ∷ c ∷ name) value =
    if a == 110 && b == 111
    then (45 ∷ c ∷ name, if interpret_bool value then codes "0" else codes "1")
    else (45 ∷ a ∷ b ∷ c ∷ name, value)

interpret_negative_setting-sets :
    (key value : Bytes) → interpret_negative_setting (45 ∷ key, value) ≡ sets key value
unfolding interpret_negative_setting
interpret_negative_setting-sets [] value = refl
interpret_negative_setting-sets (a ∷ []) value = refl
interpret_negative_setting-sets (a ∷ b ∷ []) value = refl
interpret_negative_setting-sets (a ∷ b ∷ c ∷ name) value =
    let long : ltb 3 (length (45 ∷ a ∷ b ∷ c ∷ name)) ≡ true = ground arith in rw (long) refl

-- The values that the lines give to `k`, in order.
abbrev pub given : Bytes → List (Bytes × Bytes) → List Bytes
given k [] = []
given k ((string_key, value) ∷ rest) = given_by k (sets string_key value) ++ given k rest

-- What was there before, or else the first value.
abbrev pub or_first : Option Bytes → List Bytes → Option Bytes
or_first (some v) vs = some v
or_first none [] = none
or_first none (v ∷ vs) = some v

or_first-append :
    (o : Option Bytes) (xs ys : List Bytes) → or_first (or_first o xs) ys ≡ or_first o (xs ++ ys)
or_first-append (some v) xs ys = refl
or_first-append none [] ys = refl
or_first-append none (x ∷ xs) ys = refl

abbrev pub BothSorted : Settings → Type 0
BothSorted s = IsSorted s.settings × IsSorted s.multi_settings

or_none : (o : Option Bytes) → o ≡ or_first o []
or_none none = refl
or_none (some v) = refl

-- What values for `k` do to the settings.
abbrev Loads : Bytes → Settings → List Bytes → Settings → Type 0
Loads k s vs s' =
    (find k s'.settings ≡ or_first (find k s.settings) vs)
    × (values_of (find k s'.multi_settings) ≡ values_of (find k s.multi_settings) ++ vs)

keep_first-find :
    (k value : Bytes) (m : StdMap Bytes)
    → IsSorted m
    → IsSorted (keep_first k value m)
      × (find k (keep_first k value m) ≡ or_first (find k m) (value ∷ []))
      × ((i : Bytes) → bytes_eq k i ≡ false → find i (keep_first k value m) ≡ find i m)
unfolding keep_first
keep_first-find k value m h = elim (Option-cases (find k m)) [
  | inl e ↦
      rw (e, keep_first)
        (
          (insert-IsSorted k value m h).1,
          (find-insert k value m h).1,
          λ i other. (find-insert_other i k value m other).1,
        )
  | inr (there, e) ↦ rw (e, keep_first) (h, e, λ i other. refl)
]

add_setting-Loads :
    (k : Bytes) (s : Settings) (line : Bytes × Bytes)
    → BothSorted s
    → BothSorted (add_setting s line) × Loads k s (given_by k line) (add_setting s line)
unfolding add_setting
add_setting-Loads k s (key, value) h =
    let vs = values_of (find key s.multi_settings) ++ value ∷ [] in
    let (one, own, others) = keep_first-find key value s.settings h.0 in
    let many = (insert-IsSorted key vs s.multi_settings h.1).1 in
    let own_many = (find-insert key vs s.multi_settings h.1).1 in
    (
      (one, many),
      elim (Bool-cases (bytes_eq key k)) [
        | inl e ↦
            let is : key ≡ k = (bytes_eq_iff key k).0 e in
            subst (λ x. Loads x s (given_by x (key, value)) (add_setting s (key, value))) is
              (rw (bytes_eq_refl key) (own, ap values_of own_many))
        | inr other ↦ rw (other) (
          others k other ∙ or_none (find k s.settings),
          ap values_of (find-insert_other k key vs s.multi_settings other).1
              ∙ sym (append-nil (values_of (find k s.multi_settings))),
        )
      ],
    )

-- A key and the same key with "no" at its front: the line -noX sets -X, to the opposite.
pub negative_setting-opposite :
    (c : ℕ) (name value : Bytes)
    → let (key, v) = interpret_negative_setting (codes "-no" ++ (c ∷ name), value) in
      (key ≡ 45 ∷ c ∷ name) × (interpret_bool v ≡ not (interpret_bool value))
unfolding interpret_negative_setting interpret_bool atoi skip_space after_sign is_space leading
    is_digit
negative_setting-opposite c name value =
    let long : ltb 3 (length (codes "-no" ++ (c ∷ name))) ≡ true = ground arith in
    rw (long)
      (refl, elim (Bool-cases (interpret_bool value)) [ inl e ↦ rw (e) refl | inr e ↦ rw (e) refl ])

load_entry-sets :
    (s : Settings) (key value : Bytes) → load_entry s (key, value) ≡ add_setting s (sets key value)
unfolding load_entry
load_entry-sets s key value = ap (add_setting s) (interpret_negative_setting-sets key value)

load_all-Loads :
    (k : Bytes) (s : Settings) (lines : List (Bytes × Bytes))
    → BothSorted s
    → BothSorted (foldl load_entry s lines) × Loads k s (given k lines) (foldl load_entry s lines)
load_all-Loads k s [] h = (h, (or_none (find k s.settings), sym (append-nil _)))
load_all-Loads k s ((string_key, value) ∷ lines) h =
    let line = sets string_key value in
    let here = given_by k line in
    let (kept, (one, many)) = add_setting-Loads k s line h in
    let (still, (first, rest)) = load_all-Loads k (add_setting s line) lines kept in
    subst
      (λ x.
        BothSorted (foldl load_entry x lines)
        × Loads k s (here ++ given k lines) (foldl load_entry x lines))
      (sym (load_entry-sets s string_key value))
      (
        still,
        (
          first
              ∙ ap (λ o. or_first o (given k lines)) one
              ∙ or_first-append (find k s.settings) here (given k lines),
          rest
              ∙ ap (λ vs. vs ++ given k lines) many
              ∙ append_assoc (values_of (find k s.multi_settings)) here (given k lines),
        ),
      )

-- Behind `LoadConfigFile`, a key has the value that it had before, from the command line, or else the
-- first that the file gives it; and of several values it has all, those from before first and then
-- the file's in their order. A line noX, for a name X of at least one letter, counts as one of -X with
-- the opposite of its value, "0" or "1". Both maps stay in order.
pub load_config_file-Loads :
    (s : Settings) (lines : List (Bytes × Bytes)) (k : Bytes)
    → BothSorted s
    → let s' = load_config_file s (some lines) in
      (find k s'.settings ≡ or_first (find k s.settings) (given k lines))
      × (values_of (find k s'.multi_settings)
          ≡ values_of (find k s.multi_settings) ++ given k lines)
      × BothSorted s'
unfolding load_config_file
load_config_file-Loads s lines k h =
    let (sorted, (one, many)) = load_all-Loads k s lines h in (one, many, sorted)
