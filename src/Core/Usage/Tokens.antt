-- ===== src/Core/Usage/Tokens.antt =====
-- `TokenUsage.plus` of core/execution.py on consistent measurements.
use foliqant.Prelude.{ℕ, ◌≤◌, ◌≡◌, refl, false, ◌&&◌, Option, none, some, arith, is_some}
use foliqant.Core.Result.{ok}
use foliqant.Core.Usage.Defs.{
  TokenUsage, exceeds, add, make_token_usage, token_usage_sum, token_usage_plus,
}

abbrev pub Covers : Option ℕ → Option ℕ → Type 0
Covers (some total) (some subset) = subset ≤ total
Covers _ _ = Unit

-- The token counts that the constructor accepts.
pub record IsConsistent (t : TokenUsage) : Type 0 where
  pub cache_read : Covers t.input_tokens t.cache_read_input_tokens
  pub cache_write : Covers t.input_tokens t.cache_write_input_tokens
  pub reasoning : Covers t.output_tokens t.reasoning_output_tokens

Covers-exceeds : (total subset : Option ℕ) → Covers total subset → exceeds subset total ≡ false
unfolding exceeds
Covers-exceeds none none h = refl
Covers-exceeds none (some s) h = refl
Covers-exceeds (some t) none h = refl
Covers-exceeds (some t) (some s) h = ground arith

exceeds-Covers : (total subset : Option ℕ) → exceeds subset total ≡ false → Covers total subset
unfolding exceeds
exceeds-Covers none none h = tt
exceeds-Covers none (some s) h = tt
exceeds-Covers (some t) none h = tt
exceeds-Covers (some t) (some s) h = ground arith

Covers-add : (t s u v : Option ℕ) → Covers t s → Covers u v → Covers (add t u) (add s v)
unfolding add
Covers-add none s u v h k = tt
Covers-add (some t) none none v h k = tt
Covers-add (some t) none (some u) v h k = tt
Covers-add (some t) (some s) none v h k = tt
Covers-add (some t) (some s) (some u) none h k = tt
Covers-add (some t) (some s) (some u) (some v) h k = omega arith

pub make_token_usage-IsConsistent : (t : TokenUsage) → IsConsistent t → make_token_usage t ≡ ok t
unfolding make_token_usage
make_token_usage-IsConsistent t h = rw (
  Covers-exceeds t.input_tokens t.cache_read_input_tokens h.cache_read,
  Covers-exceeds t.input_tokens t.cache_write_input_tokens h.cache_write,
  Covers-exceeds t.output_tokens t.reasoning_output_tokens h.reasoning,
)

-- The constructor accepts exactly the consistent counts.
pub ok-IsConsistent : (t u : TokenUsage) → make_token_usage t ≡ ok u → IsConsistent t
unfolding make_token_usage
ok-IsConsistent t u h = record {
  cache_read = exceeds-Covers t.input_tokens t.cache_read_input_tokens (ground arith);
  cache_write = exceeds-Covers t.input_tokens t.cache_write_input_tokens (ground arith);
  reasoning = exceeds-Covers t.output_tokens t.reasoning_output_tokens (ground arith);
}

pub token_usage_sum-IsConsistent :
    (a b : TokenUsage) → IsConsistent a → IsConsistent b → IsConsistent (token_usage_sum a b)
unfolding token_usage_sum
token_usage_sum-IsConsistent a b h k = record {
  cache_read = Covers-add a.input_tokens _ b.input_tokens _ h.cache_read k.cache_read;
  cache_write = Covers-add a.input_tokens _ b.input_tokens _ h.cache_write k.cache_write;
  reasoning = Covers-add a.output_tokens _ b.output_tokens _ h.reasoning k.reasoning;
}

-- Adding two consistent measurements never raises: it returns the field-wise sum, which is
-- consistent again, and the sum has an input token count exactly when both operands have one.
pub token_usage_plus-total :
    (a b : TokenUsage)
    → IsConsistent a
    → IsConsistent b
    → (token_usage_plus a b ≡ ok (token_usage_sum a b))
      × IsConsistent (token_usage_sum a b)
      × (is_some (token_usage_sum a b).input_tokens
          ≡ (is_some a.input_tokens && is_some b.input_tokens))
unfolding token_usage_plus
token_usage_plus-total a b h k =
    let sound = token_usage_sum-IsConsistent a b h k in
    (make_token_usage-IsConsistent _ sound, sound, measured)
  where
    measured :
        is_some (token_usage_sum a b).input_tokens
        ≡ (is_some a.input_tokens && is_some b.input_tokens)
    measured = unfold token_usage_sum add in ground arith
