-- ===== src/Evaluation/Spans/Occurrences.antt =====
-- `matches_source_span` of evaluation/spans.py against the occurrences of a text.
use Prim.Native.String.{count}
use Prim.Native.String.count
use foliqant.Prelude.{
  ℕ, zero, suc, Char, ◌+◌, ◌≤◌, ◌<◌, String, Bool, ◌≡◌, ◌↔◌, refl, ap, is_some, some_inj, inl, inr,
  arith, true, false, none, some, leb, ◌==◌, Bool-cases, Option-cases, ◌&&◌,
}
use foliqant.Core.Json.{FrozenJson, str}
use foliqant.Evaluation.Spans.{
  starts_with, find, covers, covered, SourceSpan, no_text, source_span_source, matches_source_span,
}

-- the text has the needle at a place
abbrev pub occurs_at : String → String → ℕ → Bool
occurs_at needle String.[] place = false
occurs_at needle (String.◌∷◌ c text) zero = starts_with needle (String.◌∷◌ c text)
occurs_at needle (String.◌∷◌ c text) (suc place) = occurs_at needle text place

-- An occurrence at place `at + o` that lies between `start` and `stop`.
pub record Fits (needle text : String) (start stop at o : ℕ) : Type 0 where
  pub occurs : occurs_at needle text o ≡ true
  pub begins : start ≤ at + o
  pub ends : at + o + count needle ≤ stop

module _ (needle : String) (start stop : ℕ) where
  deeper :
      (c : Char) (text : String) (at o : ℕ)
      → Fits needle text start stop (at + 1) o
      → Fits needle (String.◌∷◌ c text) start stop at (suc o)
  deeper c text at o f = record {
    occurs = f.occurs;
    begins = omega (arith, f.begins);
    ends = omega (arith, f.ends);
  }

  shallower :
      (c : Char) (text : String) (at o : ℕ)
      → Fits needle (String.◌∷◌ c text) start stop at (suc o)
      → Fits needle text start stop (at + 1) o
  shallower c text at o f = record {
    occurs = f.occurs;
    begins = omega (arith, f.begins);
    ends = omega (arith, f.ends);
  }

  find-none :
      (text : String) (at o : ℕ)
      → find needle start stop text at ≡ none
      → Fits needle text start stop at o
      → ⊥
  unfolding find
  find-none String.[] at o h f = cc f.occurs
  find-none (String.◌∷◌ c text) at zero h f = ground (arith, f.occurs, f.begins, f.ends)
  find-none (String.◌∷◌ c text) at (suc o) h f =
      find-none text (at + 1) o (ground arith) (shallower c text at o f)

  -- What `find` returns is an occurrence, and no earlier one fits.
  pub record First (text : String) (at place : ℕ) : Type 0 where
    pub o : ℕ
    pub is : place ≡ at + o
    pub fits : Fits needle text start stop at o
    pub least : (o' : ℕ) → Fits needle text start stop at o' → o ≤ o'

  later_least :
      (c : Char) (text : String) (at o : ℕ)
      → (leb start at && leb (at + count needle) stop && starts_with needle (String.◌∷◌ c text))
        ≡ false
      → ((o' : ℕ) → Fits needle text start stop (at + 1) o' → o ≤ o')
      → (o' : ℕ) → Fits needle (String.◌∷◌ c text) start stop at o'
      → suc o ≤ o'
  later_least c text at o later least zero f = absurd (ground (arith, f.occurs, f.begins, f.ends))
  later_least c text at o later least (suc o') f =
      omega (arith, least o' (shallower c text at o' f))

  find-First :
      (text : String) (at place : ℕ)
      → find needle start stop text at ≡ some place
      → First text at place
  unfolding find
  find-First String.[] at place h = absurd (cc h)
  find-First (String.◌∷◌ c text) at place h =
      elim (Bool-cases
        (leb start at && leb (at + count needle) stop && starts_with needle (String.◌∷◌ c text))) [
          | inl found ↦ record {
            o = 0;
            is = ground arith;
            fits = record { occurs = ground arith; begins = ground arith; ends = ground arith };
            least = λ o' f. omega arith;
          }
          | inr later ↦
              let rest = find-First text (at + 1) place (ground arith) in
              record {
                o = suc rest.o;
                is = omega (arith, rest.is);
                fits = deeper c text at rest.o rest.fits;
                least = later_least c text at rest.o later rest.least;
              }
        ]

occurs-below : (needle text : String) (o : ℕ) → occurs_at needle text o ≡ true → o < count text
occurs-below needle String.[] o h = absurd (cc h)
occurs-below needle (String.◌∷◌ c text) zero h = omega (arith, count.cons c text)
occurs-below needle (String.◌∷◌ c text) (suc o) h =
    omega (arith, count.cons c text, occurs-below needle text o h)

-- An occurrence between `start` and `stop` that covers the required range.
pub record Covering (required : ℕ × ℕ) (needle source : String) (start stop : ℕ) : Type 0 where
  pub place : ℕ
  pub fits : Fits needle source start stop 0 place
  pub covering : covers required needle place ≡ true

module _ (required : ℕ × ℕ) (needle source : String) (stop : ℕ) where
  beyond :
      (at place : ℕ)
      → covers required needle at ≡ false
      → covers required needle place ≡ true
      → at ≤ place
      → at + 1 ≤ 0 + place
  beyond at place apart held le = elim (Bool-cases (at == place)) [
    | inl same ↦ ground (arith, apart, held)
    | inr other ↦ ground arith
  ]

  covered_sound :
      (rounds start : ℕ)
      → covered rounds required stop needle source start ≡ true
      → Covering required needle source start stop
  unfolding covered
  covered_sound zero start h = absurd (cc h)
  covered_sound (suc rounds) start h = elim (Option-cases (find needle start stop source 0)) [
    | inl missing ↦ absurd (cc (rw missing at h))
    | inr (at, found) ↦
        let first = find-First needle start stop source 0 at found in
        let f = first.fits in
        elim (Bool-cases (covers required needle at)) [
          | inl held ↦
              let same : first.o ≡ at = omega (arith, first.is) in
              record { place = first.o; fits = f; covering = rw same held }
          | inr apart ↦
              let rest = covered_sound rounds (at + 1) (ground arith) in
              let g = rest.fits in
              record {
                place = rest.place;
                fits = record {
                  occurs = g.occurs;
                  begins = omega (arith, g.begins, first.is, f.begins);
                  ends = g.ends;
                };
                covering = rest.covering;
              }
        ]
  ]

  covered_complete :
      (rounds start : ℕ)
      → count source < rounds + start
      → Covering required needle source start stop
      → covered rounds required stop needle source start ≡ true
  unfolding covered
  covered_complete zero start enough w =
      absurd
        (omega (arith, enough, w.fits.begins, occurs-below needle source w.place w.fits.occurs))
  covered_complete (suc rounds) start enough w =
      elim (Option-cases (find needle start stop source 0)) [
        | inl missing ↦ absurd (find-none needle start stop source 0 w.place missing w.fits)
        | inr (at, found) ↦
            let first = find-First needle start stop source 0 at found in
            elim (Bool-cases (covers required needle at)) [
              | inl held ↦ rw (found, held) refl
              | inr apart ↦
                  rw (found, apart)
                    (covered_complete rounds (at + 1)
                      (omega (arith, enough, first.is, first.fits.begins))
                      (record {
                        place = w.place;
                        fits = record {
                          occurs = w.fits.occurs;
                          begins =
                              beyond at w.place apart w.covering
                                (omega (arith, first.is, first.least w.place w.fits));
                          ends = w.fits.ends;
                        };
                        covering = w.covering;
                      }))
            ]
      ]

-- A text that is not empty matches gold that resolves to a span of a source exactly where it has an
-- occurrence that lies in the allowed range and covers the required one; with such gold the comparison never raises.
pub matches_source_span_iff :
    (expected case_input : FrozenJson) (needle source : String) (span : SourceSpan)
    → source_span_source expected case_input ≡ some (span, source)
    → no_text needle ≡ false
    → (is_some (matches_source_span (str needle) expected case_input) ≡ true)
      × ((matches_source_span (str needle) expected case_input ≡ some true)
          ↔ Covering span.required needle source span.allowed.0 span.allowed.1)
unfolding matches_source_span
matches_source_span_iff expected case_input needle source span gold text =
    rw (gold, text)
      (
        refl,
        (
          λ h.
              covered_sound span.required needle source span.allowed.1 (count source + 1)
                span.allowed.0 (some_inj h),
          λ w. ap some (
              covered_complete span.required needle source span.allowed.1 (count source + 1)
                span.allowed.0 (omega arith) w),
        ),
      )
