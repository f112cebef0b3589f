-- ===== src/Nulls/Circular/Binding.antt =====
-- Binding the circular null to a pair: an enabled null is one that its own constructor accepts.
use selcal.Prelude.{
  ℕ, [], ◌∷◌, false, ◌+◌, ◌-◌, ◌*◌, ◌≡◌, refl, length, if◌then◌else◌, ltb, ◌==◌, Bool-cases, inl,
  inr,
}
use selcal.Prelude.Int.{ℤ}
use selcal.Errors.{ok}
use selcal.Arrays.Laws.{equal_numbers_refl}
use selcal.Floats.{Float64}
use selcal.Contracts.{SeriesPair}
use selcal.Contracts.Normal.{IsPair, series_pair_again}
use selcal.Nulls.Token.{Text, circular_shift_v2, require_sha256}
use selcal.Nulls.Owned.{
  Envelope, null_parameters, bound_owner, pair_content, Ownership, require_ownership,
}
use selcal.Nulls.Circular.{
  BoundCircularShift, enabled, shift_space_empty, bound_circular_shift, bind_circular,
}
use selcal.Nulls.Circular.Tokens.{IsBound}

module _ (fl : Float64) (payload : Float64.Float fl → ℤ)
    (sha256 : Envelope (Float64.Float fl) → Text) where
  open fl use {Float}

  -- What `bind` hands to the constructor of the bound null
  abbrev pub ownership_of : ℕ → SeriesPair Float → Text → Text → Ownership
  ownership_of min_shift pair semantic plan = record {
    semantic_input_sha256 = semantic;
    scientific_plan_sha256 = plan;
    null_parameter_sha256 = sha256 (null_parameters circular_shift_v2 min_shift);
    bound_null_owner_sha256 = sha256 (
        bound_owner semantic plan (sha256 (null_parameters circular_shift_v2 min_shift))
          (length pair.source));
    observed_content_guard_sha256 = sha256 (pair_content pair);
  }

  abbrev pub bound_of : ℕ → SeriesPair Float → Text → Text → BoundCircularShift Float
  bound_of min_shift pair semantic plan = record {
    observed_pair = pair;
    min_shift = min_shift;
    owned = ownership_of min_shift pair semantic plan;
    observed_length = length pair.source;
    total_state_count = length pair.source - 2 * min_shift + 2;
  }

  -- What the caller of `bind` has: an accepted pair, two digests, a `min_shift` that the null's
  -- constructor accepts; and that a SHA-256 digest is written as 64 hexadecimal digits.
  pub record IsRequest (min_shift : ℕ) (pair : SeriesPair Float) (semantic plan : Text)
      : Type 0 where
    pub accepted : IsPair fl pair
    pub positive : (min_shift == 0) ≡ false
    pub semantic_hex : require_sha256 semantic ≡ ok semantic
    pub plan_hex : require_sha256 plan ≡ ok plan
    pub hexdigest : (e : Envelope Float) → require_sha256 (sha256 e) ≡ ok (sha256 e)

  module _ {min_shift : ℕ} {pair : SeriesPair Float} {semantic plan : Text} where
    require_ownership_lem :
        IsRequest min_shift pair semantic plan
        → require_ownership fl payload sha256 circular_shift_v2 min_shift
            (length pair.source)
            (ownership_of min_shift pair semantic plan)
          ≡ ok tt
    unfolding require_ownership
    require_ownership_lem r =
        let parameter = sha256 (null_parameters circular_shift_v2 min_shift) in
        let owner = sha256 (bound_owner semantic plan parameter (length pair.source)) in
        rw (
          r.semantic_hex,
          r.plan_hex,
          r.hexdigest (null_parameters circular_shift_v2 min_shift),
          r.hexdigest (bound_owner semantic plan parameter (length pair.source)),
          equal_numbers_refl parameter,
          equal_numbers_refl owner,
        )

    -- A request with room for a shift is enabled, and what it binds has passed every check of the
    -- bound null's constructor.
    pub bound_of-IsBound :
        IsRequest min_shift pair semantic plan
        → ltb (length pair.source) (2 * min_shift) ≡ false
        → IsBound fl payload sha256 (bound_of min_shift pair semantic plan)
    bound_of-IsBound r e = record {
      pair = r.accepted;
      positive = r.positive;
      enough = e;
      size = refl;
      guard = refl;
      guard_hex = r.hexdigest (pair_content pair);
      owned = require_ownership_lem r;
    }

    bound_circular_shift_lem :
        IsRequest min_shift pair semantic plan
        → ltb (length pair.source) (2 * min_shift) ≡ false
        → bound_circular_shift fl payload sha256 pair min_shift
            (ownership_of min_shift pair semantic plan)
          ≡ ok (bound_of min_shift pair semantic plan)
    unfolding bound_circular_shift
    bound_circular_shift_lem r e = rw (
      r.positive,
      r.hexdigest (pair_content pair),
      equal_numbers_refl (sha256 (pair_content pair)),
      e,
      require_ownership_lem r,
    )

    -- Binding: with an accepted pair, well-formed digests and `min_shift >= 1`, `bind` is enabled
    -- where `2 * min_shift` is at most the length of the series, binds that very pair with the state
    -- count `length - 2 * min_shift + 2`, and notes the orbit of two; else it is disabled.
    pub bind_circular-decides :
        IsRequest min_shift pair semantic plan
        → bind_circular fl payload sha256 min_shift pair semantic plan ≡ (
            if ltb (length pair.source) (2 * min_shift)
            then ok shift_space_empty
            else ok (
                enabled (bound_of min_shift pair semantic plan) (
                  if 2 * min_shift == length pair.source
                  then "circular_shift_orbit_resolution_v2" ∷ []
                  else [])))
    unfolding bind_circular
    bind_circular-decides r =
        rw (r.semantic_hex, r.plan_hex)
          (elim (Bool-cases (ltb (length pair.source) (2 * min_shift))) [
            | inl e ↦ rw e
            | inr e ↦ rw (e, series_pair_again fl pair r.accepted, bound_circular_shift_lem r e)
          ])
