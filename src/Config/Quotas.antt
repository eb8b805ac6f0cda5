-- ===== src/Config/Quotas.antt =====
-- `parse_rate_limits` of policyd_py/config/settings.py.
use policyd_py.Base.{
  ℕ, ltb, true, false, ◌&&◌, Option, none, some, List, [], ◌∷◌, if◌then◌else◌, Text, codes, lower,
  text_eq, split_on, read_digits, value_error, Outcome, returned, raised,
}
use policyd_py.Floats.{Floats}
use policyd_py.Config.{RateLimit, token_bucket}
use policyd_py.Config.Parse.{
  is_digits, ◌then◌, parse_duration_to_seconds, parse_name_list, split_algorithm, QuotaGroups,
  match_quota,
}

module _ (F : Floats) where
  open F use {Float}

  -- float(text)
  float_of : Text → Outcome Float
  float_of s = elim (F.of_text s) [ none ↦ raised (value_error s) | some x ↦ returned x ]

  -- a / float(b) if b > 0 else 0.0
  rate : Float → ℕ → Float
  rate amount duration = if ltb 0 duration then F.over amount (F.of_ℕ duration) else F.zero_float

  unfoldable pub refill_of : ℕ → ℕ → Option (Text × Text) → Outcome Float
  unfolding float_of rate
  refill_of count duration none = returned (rate (F.of_ℕ count) duration)
  refill_of count duration (some (tokens, per)) = float_of tokens then λ refill_tokens.
      parse_duration_to_seconds per then λ refill_duration.
      returned (rate refill_tokens refill_duration)

  unfoldable pub limit_of : Text → ℕ → ℕ → Float → RateLimit Float
  limit_of algorithm count duration refill_rate = record {
    count = count;
    duration = duration;
    refill_rate = refill_rate;
    algorithm = algorithm;
    unlimited = false;
  }

  -- A refill rate is computed for a token bucket only.
  unfoldable pub if_bucket : Text → Outcome Float → Outcome Float
  if_bucket algorithm refill =
      if text_eq algorithm token_bucket then refill else returned F.zero_float

  unfoldable pub from_groups : Text → QuotaGroups → Outcome (Option (RateLimit Float))
  unfolding refill_of limit_of if_bucket
  from_groups algorithm m = parse_duration_to_seconds m.duration then λ duration.
      if_bucket algorithm (refill_of (read_digits 0 m.count) duration m.refill) then λ refill_rate.
      returned (some (limit_of algorithm (read_digits 0 m.count) duration refill_rate))

  -- The old form `count:duration:rate`, whose rate may be missing or empty.
  unfoldable pub old_refill : ℕ → ℕ → List Text → Outcome Float
  unfolding float_of rate
  old_refill count duration ((c ∷ refill) ∷ rest) = float_of (c ∷ refill)
  old_refill count duration _ = returned (rate (F.of_ℕ count) duration)

  unfoldable pub from_numbers : Text → ℕ → ℕ → List Text → Outcome (Option (RateLimit Float))
  unfolding old_refill limit_of if_bucket
  from_numbers algorithm count duration rest =
      if_bucket algorithm (old_refill count duration rest) then λ refill_rate.
      returned (some (limit_of algorithm count duration refill_rate))

  unfoldable pub from_parts : Text → List Text → Outcome (Option (RateLimit Float))
  unfolding from_numbers
  from_parts algorithm (count ∷ duration ∷ rest) =
      if is_digits count && is_digits duration
      then from_numbers algorithm (read_digits 0 count) (read_digits 0 duration) rest
      else returned none
  from_parts algorithm _ = returned none

  unfoldable pub from_match : Text → Text → Option QuotaGroups → Outcome (Option (RateLimit Float))
  unfolding from_groups from_parts
  from_match algorithm base (some m) = from_groups algorithm m
  from_match algorithm base none = from_parts algorithm (split_on b':' base)

  -- One part of the value; what fits no form is left out.
  unfoldable pub parse_part : Text → Outcome (Option (RateLimit Float))
  unfolding limit_of from_match
  parse_part part =
      let (algorithm, base) = split_algorithm part in
      if text_eq (lower part) (codes "unlimited")
      then returned (some (record (limit_of token_bucket 0 0 F.zero_float) { unlimited = true }))
      else from_match algorithm base (match_quota base)

  unfoldable pub add_limit :
      Option (RateLimit Float) → List (RateLimit Float) → List (RateLimit Float)
  add_limit none limits = limits
  add_limit (some limit) limits = limit ∷ limits

  unfoldable pub parse_parts : List Text → Outcome (List (RateLimit Float))
  unfolding parse_part add_limit
  parse_parts [] = returned []
  parse_parts (part ∷ parts) = parse_part part then λ limit.
      parse_parts parts then λ limits. returned (add_limit limit limits)

  unfoldable pub parse_rate_limits : Text → Outcome (List (RateLimit Float))
  unfolding parse_parts
  parse_rate_limits value = parse_parts (parse_name_list value)
