-- ===== src/Core/Pricing/Estimates.antt =====
-- The estimates of core/pricing.py: which counts they need, and what they charge.
use foliqant.Prelude.{
  ℕ, ◌+◌, ◌-◌, ◌*◌, ◌≤◌, ◌≡◌, refl, ap, Bool, true, false, ◌&&◌, ◌||◌, not, Option, none, some,
  arith, is_some,
}
use foliqant.Core.Usage.{TokenUsage}
use foliqant.Core.Usage.Tokens.{Covers, IsConsistent}
use foliqant.Core.Pricing.{
  PricingPlan, PriceTier, Billing, output, input, tier, total, cached_price, cached_tokens,
  reasoning_tokens, amount, amount_of,
}

-- the counts that the formula of a plan needs
abbrev pub needs_cached : PricingPlan → ℕ → Bool
needs_cached p n = is_some (tier p n).cached_input_per_million

abbrev pub needs_reasoning : Billing → Bool
needs_reasoning output = false
needs_reasoning input = true

-- A request with a known number of input tokens has an amount exactly when its output tokens were
-- measured, its cached tokens too if the selected tier prices them, and its reasoning tokens too
-- if they are billed as input.
pub amount_measured :
    (p : PricingPlan) (t : TokenUsage) (n : ℕ)
    → t.input_tokens ≡ some n
    → is_some (amount p (some t)) ≡ (
        is_some t.output_tokens
        && (not (needs_cached p n) || is_some t.cache_read_input_tokens)
        && (not (needs_reasoning p.reasoning_billed_as) || is_some t.reasoning_output_tokens))
unfolding amount amount_of
amount_measured p t n h =
    measured t.output_tokens t.cache_read_input_tokens t.reasoning_output_tokens
  where
    inner :
        (b : Billing) (q c r : Option ℕ) (out : ℕ) (u : PriceTier)
        → is_some (total u n out (cached_tokens q c) (reasoning_tokens b r))
          ≡ ((not (is_some q) || is_some c) && (not (needs_reasoning b) || is_some r))
    inner output none c r out u = refl
    inner input none c none out u = refl
    inner input none c (some r) out u = refl
    inner output (some q) none r out u = refl
    inner output (some q) (some c) r out u = refl
    inner input (some q) none r out u = refl
    inner input (some q) (some c) none out u = refl
    inner input (some q) (some c) (some r) out u = refl

    measured :
        (o c r : Option ℕ)
        → is_some (amount_of p t.input_tokens o c r) ≡ (
            is_some o
            && (not (needs_cached p n) || is_some c)
            && (not (needs_reasoning p.reasoning_billed_as) || is_some r))
    measured none c r = rw h
    measured (some out) c r =
        rw h (inner p.reasoning_billed_as (tier p n).cached_input_per_million c r out (tier p n))

each_once :
    (n out c r q : ℕ) → c ≤ n → r ≤ out → (n - c + r) * q + c * q + (out - r) * q ≡ (n + out) * q
each_once n out c r q h k =
    let inputs : n ≡ (n - c) + c = omega arith in
    let outputs : out ≡ (out - r) + r = omega arith in
    omega (arith, ap (λ (x : ℕ). x * q) inputs, ap (λ (x : ℕ). x * q) outputs)

-- Where a consistent usage has measured its input, output, cache-read and reasoning tokens, and the
-- selected tier charges one price for input, output and cached tokens, the request costs that price
-- for each of its input and output tokens, however cached and reasoning tokens are billed.
pub amount_uniform :
    (p : PricingPlan) (t : TokenUsage) (n out c r q : ℕ)
    → IsConsistent t
    → t.input_tokens ≡ some n
    → t.output_tokens ≡ some out
    → t.cache_read_input_tokens ≡ some c
    → t.reasoning_output_tokens ≡ some r
    → (tier p n).input_per_million ≡ q
    → (tier p n).output_per_million ≡ q
    → cached_price (tier p n) ≡ q
    → amount p (some t) ≡ some ((n + out) * q)
unfolding amount amount_of
amount_uniform p t n out c r q h en eo ec er pi po pc =
    rw (en, eo, ec, er) (billed p.reasoning_billed_as (tier p n).cached_input_per_million)
  where
    cached_le : c ≤ n
    cached_le = rw (en, ec, Covers) at h.cache_read

    reasoning_le : r ≤ out
    reasoning_le = rw (eo, er, Covers) at h.reasoning

    summed :
        (c' r' : ℕ)
        → c' ≤ n
        → r' ≤ out
        → total (tier p n) n out (some c') (some r') ≡ some ((n + out) * q)
    summed c' r' hc hr = rw (pi, po, pc) (ap some (each_once n out c' r' q hc hr))

    billed :
        (b : Billing) (o : Option ℕ)
        → total (tier p n) n out (cached_tokens o (some c)) (reasoning_tokens b (some r))
          ≡ some ((n + out) * q)
    billed output none = summed 0 0 (omega arith) (omega arith)
    billed output (some _) = summed c 0 cached_le (omega arith)
    billed input none = summed 0 r (omega arith) reasoning_le
    billed input (some _) = summed c r cached_le reasoning_le
