-- ===== src/KeyRing/Loading.antt =====
-- What the key loop loads.
use uctool.Common.{
  ℕ, zero, suc, ◌+◌, ◌≤◌, ◌<◌, ◌≡◌, ◌≢◌, refl, sym, subst, ◌∙◌, ◌⊎◌, inl, inr, false, List, [], ◌∷◌,
  ◌++◌, none, some, Bytes, bytes_eq, bytes_eq_iff, arith, Bool-cases, Option-cases, append-nil,
  append_assoc,
}
use native.Mathlib.Nat.{le_refl}
use uctool.Chain.{ChainApi}
use uctool.KeyRing.{
  Loaded, loaded, invalid_key, out_of_fuel, read_key, load_keys, init_keys, accept,
}

module _ (chain : ChainApi) (arg : ℕ → Bytes) where
  -- The keys from version `v` on, each as the configuration has it, and no entry behind the last.
  pub data Chained : ℕ → List (ℕ × Bytes) → Type 0 where
    ends : {v : ℕ} {keys : List (ℕ × Bytes)} → keys ≡ [] → arg v ≡ [] → Chained v keys
    entry :
        {v : ℕ} {keys : List (ℕ × Bytes)} (key : Bytes) (rest : List (ℕ × Bytes))
        → keys ≡ (v, key) ∷ rest
        → read_key chain arg v ≡ some key
        → Chained (suc v) rest
        → Chained v keys

  -- From version `v` on: the new keys are chained, or some key cannot be read.
  abbrev Loads : ℕ → List (ℕ × Bytes) → Loaded → Type 0
  Loads v keys (loaded all) = (new : List (ℕ × Bytes)) × (all ≡ keys ++ new) × Chained v new
  Loads v keys invalid_key = (n : ℕ) × (v ≤ n) × (arg n ≢ []) × (read_key chain arg n ≡ none)
  Loads v keys out_of_fuel = ⊥

  differ : (n : ℕ) → bytes_eq (arg n) [] ≡ false → arg n ≢ []
  differ n h e = ground (arith, bytes_eq_iff (arg n) [])

  Loads-step :
      (v : ℕ) (key : Bytes) (keys : List (ℕ × Bytes)) (r : Loaded)
      → read_key chain arg v ≡ some key
      → Loads (suc v) (keys ++ (v, key) ∷ []) r
      → Loads v keys r
  Loads-step v key keys (loaded all) good (new, e, c) =
      ((v, key) ∷ new, e ∙ append_assoc keys ((v, key) ∷ []) new, entry key new refl good c)
  Loads-step v key keys invalid_key good (n, le, ne, bad) = (n, omega arith, ne, bad)
  Loads-step v key keys out_of_fuel good h = absurd h

  Chained-nil : {v : ℕ} {keys : List (ℕ × Bytes)} → Chained v keys → keys ≡ [] → arg v ≡ []
  Chained-nil (ends e last) h = last
  Chained-nil (entry key rest e good c) h = absurd (ground arith)

  outcome :
      (r : Loaded)
      → Loads 1 [] r
      → ((keys : List (ℕ × Bytes)) × (accept r ≡ some keys) × (keys ≢ []) × Chained 1 keys)
        ⊎ ((accept r ≡ none)
            × ((arg 1 ≡ []) ⊎ ((n : ℕ) × (1 ≤ n) × (arg n ≢ []) × (read_key chain arg n ≡ none))))
  outcome (loaded []) (new, e, c) = inr (refl, inl (Chained-nil c (sym e)))
  outcome (loaded (k ∷ ks)) (new, e, c) =
      inl (k ∷ ks, refl, λ nil. absurd (ground arith), subst (Chained 1) (sym e) c)
  outcome invalid_key bad = inr (refl, inr bad)
  outcome out_of_fuel h = absurd h

  load_keys-Loads :
      (fuel v gap : ℕ) (keys : List (ℕ × Bytes))
      → gap < fuel
      → arg (gap + v) ≡ []
      → Loads v keys (load_keys chain arg fuel v keys)
  unfolding load_keys
  load_keys-Loads zero v gap keys h e = absurd (omega arith)
  load_keys-Loads (suc fuel) v zero keys h e =
      let here : arg v ≡ [] = subst (λ n. arg n ≡ []) (omega arith) e in
      rw ((bytes_eq_iff (arg v) []).1 here) ([], sym (append-nil keys), ends refl here)
  load_keys-Loads (suc fuel) v (suc gap) keys h e = elim (Bool-cases (bytes_eq (arg v) [])) [
    | inl last ↦ rw last ([], sym (append-nil keys), ends refl ((bytes_eq_iff (arg v) []).0 last))
    | inr more ↦ elim (Option-cases (read_key chain arg v)) [
      | inl bad ↦ rw (more, bad) (v, le_refl v, λ nil. differ v more nil, bad)
      | inr (key, good) ↦
          rw (more, good)
            (Loads-step v key keys (load_keys chain arg fuel (suc v) (keys ++ (v, key) ∷ [])) good (
              load_keys-Loads fuel (suc v) gap (keys ++ (v, key) ∷ []) (omega arith)
                (subst (λ n. arg n ≡ []) (omega arith) e)))
    ]
  ]

  -- Where the configuration has no key of some version, the loop ends before it. It gives the keys of
  -- the versions 1, 2, … up to the first that is not configured, each as the configuration has it;
  -- or it stops at a configured key that cannot be read. A server starts on the first outcome only,
  -- and only with one key at least.
  pub init_keys-Chained :
      (gap fuel : ℕ)
      → gap < fuel
      → arg (gap + 1) ≡ []
      → ((keys : List (ℕ × Bytes)) × (init_keys chain arg fuel ≡ some keys)
          × (keys ≢ [])
          × Chained 1 keys)
        ⊎ ((init_keys chain arg fuel ≡ none)
            × ((arg 1 ≡ []) ⊎ ((n : ℕ) × (1 ≤ n) × (arg n ≢ []) × (read_key chain arg n ≡ none))))
  unfolding init_keys
  init_keys-Chained gap fuel h e =
      outcome (load_keys chain arg fuel 1 []) (load_keys-Loads fuel 1 gap [] h e)
