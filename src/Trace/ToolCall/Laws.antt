-- ===== src/Trace/ToolCall/Laws.antt =====
-- What a projected tool call is, and that it is projected to itself.
use intelligent_workflow_app.Prelude.{
  ◌≡◌, refl, ap, ◌∙◌, ℕ, zero, suc, ◌*◌, ◌/◌, ◌≤◌, Bool, true, false, Option, none, some, ltb,
  string_eq, arith, Bool-cases, Option-cases, OfSome, subst, inl, inr,
}
use intelligent_workflow_app.Prelude.Int.{pos, negsuc}
use intelligent_workflow_app.Value.{
  Value, null, boolean, num, real, text, sequence, mapping, Fields, get,
}
use intelligent_workflow_app.Trace.Markers.{redacted_field}
use intelligent_workflow_app.Trace.Tokens.{is_count}
use intelligent_workflow_app.Trace.ToolCall.{
  Encoder, magnitude, bounded_size, Signals, read_back, derive, call_form, tokens_or_flag,
  was_projected, safe_tool_call, kept_size, content_size, bounded_arity, result_of, len_at,
  resolved_tool_name,
}

magnitude_pos : (f n : ℕ) → 1 ≤ magnitude f n
unfolding magnitude
magnitude_pos zero n = omega arith
magnitude_pos (suc f) n = ground (arith, magnitude_pos f (n / 10))

magnitude_le : (f n : ℕ) → 1 ≤ n → magnitude f n ≤ n
unfolding magnitude
magnitude_le zero n h = h
magnitude_le (suc f) n h = ground (arith, magnitude_le f (n / 10))

magnitude_same : (f g n : ℕ) → magnitude f n ≤ g → magnitude g (magnitude f n) ≡ magnitude f n
unfolding magnitude
magnitude_same zero zero n h = absurd (omega arith)
magnitude_same zero (suc g) n h = refl
magnitude_same (suc f) zero n h = absurd (omega (arith, magnitude_pos (suc f) n))
magnitude_same (suc f) (suc g) n h = elim (Bool-cases (ltb n 10)) [
  | inl small ↦ rw small refl
  | inr big ↦
      let m = magnitude f (n / 10) in
      let p : 1 ≤ m = magnitude_pos f (n / 10) in
      let q : (10 * m) / 10 ≡ m = omega arith in
      let large : ltb (10 * m) 10 ≡ false = ground arith in
      rw (big, large, q) (ap (λ x. 10 * x) (magnitude_same f g (n / 10) (ground arith)))
]

bounded_size_of_pos : (n : ℕ) → 1 ≤ n → bounded_size n ≡ magnitude n n
unfolding bounded_size
bounded_size_of_pos zero h = absurd (omega arith)
bounded_size_of_pos (suc n) h = refl

bounded_size_le : (n : ℕ) → bounded_size n ≤ n
unfolding bounded_size
bounded_size_le zero = omega arith
bounded_size_le (suc n) = magnitude_le (suc n) (suc n) (omega arith)

bounded_size_same : (n : ℕ) → bounded_size (bounded_size n) ≡ bounded_size n
unfolding bounded_size
bounded_size_same zero = refl
bounded_size_same (suc n) =
    let m = magnitude (suc n) (suc n) in
    bounded_size_of_pos m (magnitude_pos (suc n) (suc n))
    ∙ magnitude_same (suc n) m (suc n) (omega arith)

-- A size that was rounded, and that counts as a count.
abbrev IsRounded : Option ℕ → Type 0
IsRounded none = Unit
IsRounded (some n) = (is_count (num (pos n)) ≡ true) × (bounded_size n ≡ n)

-- A projected call: the name is redacted, the arity is bounded, the size is rounded, and the rest
-- are Booleans and the marker.
pub record IsSafeCall (tc : Fields) : Type 0 where
  pub pins : Bool
  pub probes : Bool
  pub signals : Signals
  pub few : signals.input_key_count ≤ 32
  pub rounded : IsRounded signals.content_bytes
  pub form : tc ≡ call_form redacted_field pins probes signals

module _ (enc : Encoder) where
  read_back-form :
      (pins probes : Bool) (arity : ℕ) (result_ok error_present : Bool) (size : Option ℕ)
      → arity ≤ 32
      → IsRounded size
      → (let s : Signals = record {
        input_key_count = arity;
        result_ok = result_ok;
        error_present = error_present;
        content_bytes = size;
      } in
          safe_tool_call enc none (call_form redacted_field pins probes s)
          ≡ some (call_form redacted_field pins probes s))
  unfolding safe_tool_call call_form string_eq
  read_back-form pins probes arity result_ok error_present none few r = ground arith
  read_back-form pins probes arity result_ok error_present (some n) few r = ground (arith, r)

  pub IsSafeCall-same : (tc : Fields) → IsSafeCall tc → safe_tool_call enc none tc ≡ some tc
  IsSafeCall-same tc h = rw h.form (
      read_back-form h.pins h.probes h.signals.input_key_count h.signals.result_ok
        h.signals.error_present h.signals.content_bytes h.few h.rounded)

  rounded : (n : ℕ) → n ≤ 1_000_000_000_000 → IsRounded (some (bounded_size n))
  unfolding is_count
  rounded n small = (ground (arith, bounded_size_le n), bounded_size_same n)

  IsRounded-of_count : (n : ℕ) → is_count (num (pos n)) ≡ true → IsRounded (some (bounded_size n))
  unfolding is_count
  IsRounded-of_count n fits = rounded n (ground arith)

  kept_size-IsRounded : (v : Option Value) → IsRounded (kept_size v)
  kept_size-IsRounded none = tt
  kept_size-IsRounded (some (num (pos n))) = elim (Bool-cases (is_count (num (pos n)))) [
    | inl fits ↦ rw fits (IsRounded-of_count n fits)
    | inr large ↦ rw large tt
  ]
  kept_size-IsRounded (some null) = tt
  kept_size-IsRounded (some (boolean b)) = tt
  kept_size-IsRounded (some (real s)) = tt
  kept_size-IsRounded (some (text s)) = tt
  kept_size-IsRounded (some (sequence vs)) = tt
  kept_size-IsRounded (some (mapping fs)) = tt
  kept_size-IsRounded (some (num (negsuc n))) = tt

  bounded_arity_le : (v : Option Value) → bounded_arity v ≤ 32
  bounded_arity_le none = omega arith
  bounded_arity_le (some (num (pos n))) = omega arith
  bounded_arity_le (some null) = omega arith
  bounded_arity_le (some (boolean b)) = omega arith
  bounded_arity_le (some (real s)) = omega arith
  bounded_arity_le (some (text s)) = omega arith
  bounded_arity_le (some (sequence vs)) = omega arith
  bounded_arity_le (some (mapping fs)) = omega arith
  bounded_arity_le (some (num (negsuc n))) = omega arith

  module _ (small : (v : Value) → enc.json_size v ≤ 1_000_000_000_000) where
    content_size-IsRounded : (v : Option Value) → IsRounded (content_size enc v)
    content_size-IsRounded none = tt
    content_size-IsRounded (some null) = tt
    content_size-IsRounded (some (boolean b)) =
        rounded (enc.json_size (boolean b)) (small (boolean b))
    content_size-IsRounded (some (num n)) = rounded (enc.json_size (num n)) (small (num n))
    content_size-IsRounded (some (real s)) = rounded (enc.json_size (real s)) (small (real s))
    content_size-IsRounded (some (text s)) = rounded (enc.json_size (text s)) (small (text s))
    content_size-IsRounded (some (sequence vs)) =
        rounded (enc.json_size (sequence vs)) (small (sequence vs))
    content_size-IsRounded (some (mapping fs)) =
        rounded (enc.json_size (mapping fs)) (small (mapping fs))

    derive-IsRounded :
        (tc : Fields)
        → OfSome (λ s. (s.input_key_count ≤ 32) × IsRounded s.content_bytes) (derive enc tc)
    unfolding derive
    derive-IsRounded tc = elim (Option-cases (result_of enc (get "result" tc))) [
      | inl raises ↦ rw (OfSome, raises) tt
      | inr (result, gets) ↦ elim (Option-cases (len_at enc (get "input" tc))) [
        | inl raises ↦ rw (OfSome, gets, raises) tt
        | inr (arity, counts) ↦
            rw (OfSome, gets, counts) (omega arith, content_size-IsRounded (get "content" result))
      ]
    ]

    -- Every tool call is projected to such a record, where it does not raise.
    pub safe_tool_call-IsSafeCall : (tc : Fields) → OfSome IsSafeCall (safe_tool_call enc none tc)
    unfolding safe_tool_call resolved_tool_name
    safe_tool_call-IsSafeCall tc = elim (Bool-cases (was_projected tc)) [
      | inl before ↦ rw before (record {
        pins = tokens_or_flag (get "pinned" tc) (get "pinned_present" tc);
        probes = tokens_or_flag (get "pin_overrides" tc) (get "pin_overrides_present" tc);
        signals = read_back enc tc;
        few = bounded_arity_le (get "input_key_count" tc);
        rounded = kept_size-IsRounded (get "content_bytes" tc);
        form = refl;
      })
      | inr raw ↦ elim (Option-cases (derive enc tc)) [
        | inl raises ↦ rw (raw, raises) tt
        | inr (s, is) ↦
            let r =
              subst (OfSome (λ x. (x.input_key_count ≤ 32) × IsRounded x.content_bytes)) is
                (derive-IsRounded tc) in
            rw (raw, is)
              (record {
                pins = tokens_or_flag (get "pinned" tc) (get "pinned_present" tc);
                probes = tokens_or_flag (get "pin_overrides" tc) (get "pin_overrides_present" tc);
                signals = s;
                few = r.0;
                rounded = r.1;
                form = refl;
              })
      ]
    ]
