-- ===== src/Tests/Services.antt =====
-- Runs of the arithmetic, the quorum and the messages of crates/protocol/src/lib.rs.
use tickersix.Round.Binding.{validate_jupiter_source_binding}
use tickersix.Protocol.Decimal.Folds.{value_from, moved_by}
use tickersix.Base.{
  Some, ℕ, ◌≡◌, refl, true, false, List, [], ◌∷◌, ◌++◌, some, arith, contains, replicate, map, ◌+◌,
}
use tickersix.Base.Int.{ℤ, pos, negsuc, ◌≤ℤ◌, ◌+ℤ◌, ◌-ℤ◌, leb_ℤ, ltb_ℤ}
use tickersix.Base.Shuffle.{same, swap}
use tickersix.Errors
use tickersix.Math
use tickersix.Outcome.{ok, outcome_of, value_of}
use tickersix.Runtime.{Key, Bytes, key_bytes}
use tickersix.Price.Quorum.{choose_compatible_quorum}
use tickersix.Protocol.Decimal.{parse_decimal_q9, all_bytes, is_ascii_digit, is_empty}
use tickersix.Protocol.Decimal.Splits.{Sign}
use tickersix.Protocol.Decimal.Numerals.{Numeral, IsNumeral, meaning, text}
use tickersix.Protocol.Decimal.Exact.{parse_decimal_q9-exact}
use tickersix.Protocol.Scores.{return_q9, lineup_score_q9, validate_lineup, commitment, median_q9}
use tickersix.Protocol.Scores.Agree.{return_q9-agree, lineup-agree}
use tickersix.Protocol.Scores.Median.{median_q9-between}
use tickersix.Protocol.Quorum.{select_compatible_quorum, has_duplicate}
use tickersix.Protocol.Quorum.Views.{report_of, selection_of, mapped}
use tickersix.Protocol.Quorum.Agree.{select_compatible_quorum-agree}
use tickersix.Protocol.Swiss.{PairingPlayer}
use tickersix.Protocol.Evidence.{PriceSample, evidence_root, league_standings_input_hash}
use tickersix.Protocol.Evidence.Order.{evidence_root-Shuffle, league_standings_input_hash-Shuffle}
use tickersix.Protocol.Evidence.{attestation_message}
use tickersix.Price.Signed.{IsSigned}
use tickersix.Protocol.Evidence.Signed.{message_of, submit_price_attestation-IsSigned}
use tickersix.Price.Phase.{phase_window}
use tickersix.Price.Submit.{
  SubmitPriceAttestation, Report, handle_submit_price_attestation, verify_ed25519_instruction,
  canonical_attestation_message,
}
use tickersix.State.{PriceAttestation, start, settling}
use tickersix.Tests.Sample.{
  rt, policy, source, quality, attestors, round_in, round_key, asset_key, open_asset, at,
  source_key,
}
use tickersix.Tests.Numbers.{six, first_six, returns, six-valid}
use tickersix.Tests.Prices.{summaries, value_or}

-- 12.5e-1, which is 1.25.
abbrev numeral : Numeral
numeral = record {
  sign = Sign.plus;
  integer = b'1' ∷ b'2' ∷ [];
  fraction = some (b'5' ∷ []);
  exponent = some (record { upper = false; sign = Sign.minus; digits = b'1' ∷ [] });
}

numeral-valid : IsNumeral numeral
unfolding all_bytes is_ascii_digit is_empty value_from
numeral-valid = record {
  integer_digits = refl;
  fraction_is_digits = refl;
  some_digit = refl;
  exponent_digits = (refl, refl, omega arith);
  fraction_short = omega arith;
}

numeral-means : meaning numeral ≡ ok 1_250_000_000
unfolding value_from moved_by ◌+ℤ◌ ◌-ℤ◌
numeral-means = refl

parse_decimal_q9-exact_example : parse_decimal_q9 (text numeral) ≡ meaning numeral
parse_decimal_q9-exact_example = parse_decimal_q9-exact numeral numeral-valid

return_q9-agree_example :
    outcome_of (return_q9 (pos 100) (negsuc 4)) ≡ value_of (Math.return_q9 (pos 100) (negsuc 4))
return_q9-agree_example = return_q9-agree (pos 100) (negsuc 4)

lineup-agree_example :
    (validate_lineup six 3 ≡ ok tt)
    × (outcome_of (lineup_score_q9 returns six 3) ≡ value_of (Math.lineup_score_q9 returns six 3))
    × (commitment rt.sha256 rt.program_id 40 41 1 six 3 77
        ≡ Math.canonical_lineup_commitment rt 40 41 1 six 3 77)
lineup-agree_example = lineup-agree rt six 3 first_six returns 40 41 1 77 six-valid

no_duplicate : has_duplicate (map report_of summaries) ≡ false
unfolding has_duplicate
no_duplicate = refl

select_compatible_quorum-agree_example :
    outcome_of (select_compatible_quorum (map report_of summaries) 100)
    ≡ mapped selection_of (value_of (choose_compatible_quorum summaries 100))
select_compatible_quorum-agree_example =
    select_compatible_quorum-agree summaries 100 (omega arith) (omega arith) no_duplicate

median_q9-between_example :
    (m : ℤ) × (median_q9 (pos 3 ∷ pos 1 ∷ []) ≡ ok m)
    × (median_q9 (pos 1 ∷ pos 3 ∷ []) ≡ ok m)
    × (pos 1 ≤ℤ m)
    × (m ≤ℤ pos 3)
median_q9-between_example =
    median_q9-between (pos 3 ∷ pos 1 ∷ []) (pos 1 ∷ pos 3 ∷ []) (pos 1) (pos 3) (omega arith)
      (swap (pos 3) (pos 1)) (omega arith) (omega arith)

abbrev sample : ℕ → ℕ → PriceSample
sample block price = record {
  market_round = 21;
  asset_id = 4;
  phase = 0;
  scoring_mint = 31;
  source_block_id = block;
  observed_at_unix_ms = pos 1000;
  price_q9 = pos price;
}

evidence_root-Shuffle_example :
    evidence_root rt.sha256 (sample 8 70 ∷ sample 7 71 ∷ [])
    ≡ evidence_root rt.sha256 (sample 7 71 ∷ sample 8 70 ∷ [])
evidence_root-Shuffle_example =
    evidence_root-Shuffle rt.sha256 21 0 31 (swap (sample 8 70) (sample 7 71)) (
      (record { of_round = refl; of_phase = refl; of_mint = refl }),
      ((record { of_round = refl; of_phase = refl; of_mint = refl }), tt),
    )

abbrev standing : Key → ℕ → List Key → PairingPlayer
standing wallet rating opponents = record {
  wallet = wallet;
  league_points = 3;
  rating = pos rating;
  bye_count = 0;
  prior_opponents = opponents;
}

-- A wallet determines its player.
abbrev player_of : Key → PairingPlayer
player_of wallet = standing wallet 1500 ((wallet + 1) ∷ (wallet + 2) ∷ [])

league_standings_input_hash-Shuffle_example :
    league_standings_input_hash rt.sha256 (player_of 9 ∷ player_of 5 ∷ [])
    ≡ league_standings_input_hash rt.sha256
        (standing 5 1800 (7 ∷ 6 ∷ []) ∷ standing 9 1500 (10 ∷ 11 ∷ []) ∷ [])
league_standings_input_hash-Shuffle_example =
    league_standings_input_hash-Shuffle rt.sha256 player_of
      (standing 5 1800 (7 ∷ 6 ∷ []) ∷ standing 9 1500 (10 ∷ 11 ∷ []) ∷ [])
      (swap (player_of 9) (player_of 5)) (refl, (refl, tt))
      (
        (record { wallets = refl; points = refl; byes = refl; opponents = swap 6 7 }),
        ((record { wallets = refl; points = refl; byes = refl; opponents = same }), tt),
      )

-- A report on the start of an asset, and the instruction that verified its signature.
abbrev report : Report
report = record {
  median_price_q9 = pos 100_000_000_000;
  accepted_observation_count = 5;
  unique_source_block_count = 4;
  first_source_block_id = 560;
  last_source_block_id = 565;
  evidence_root = 501;
  report_created_at = pos 540;
}

unfoldable signed_bytes : Bytes
unfolding key_bytes attestation_message round_key asset_key
signed_bytes =
    (1 ∷ 0 ∷ 16 ∷ 0 ∷ 255 ∷ 255 ∷ 80 ∷ 0 ∷ 255 ∷ 255 ∷ 112 ∷ 0 ∷ 252 ∷ 0 ∷ 255 ∷ 255 ∷ [])
    ++ (replicate 64 0
        ++ (key_bytes 11
            ++ message_of rt round_key (asset_key 0) (open_asset 0) 1 start report (pos 500)
                (pos 560)))

abbrev submit_ctx : SubmitPriceAttestation
submit_ctx = record {
  round_asset = record { key = asset_key 0; account = open_asset 0 };
  market_round = round_in settling 0 0;
  price_policy = policy;
  jupiter_source_config = source;
  market_quality_policy = quality;
  attestor_set = attestors;
  attestor = 11;
  price_attestation = record { key = 4; in_use = false };
  instructions_sysvar = record { is_ed25519 = true; payload = signed_bytes } ∷ [];
}

abbrev nothing_written : PriceAttestation
nothing_written = record {
  round_asset = 0;
  phase = start;
  attestor = 0;
  median_price_q9 = pos 0;
  accepted_observation_count = 0;
  unique_source_block_count = 0;
  first_source_block_id = 0;
  last_source_block_id = 0;
  evidence_root = 0;
  report_created_at = pos 0;
  bump = 0;
}

abbrev submitted : PriceAttestation
submitted =
    value_or (handle_submit_price_attestation rt (at 570) submit_ctx start report) nothing_written

submitted-ok :
    handle_submit_price_attestation rt (at 570) submit_ctx start report ≡ Errors.ok submitted
unfolding handle_submit_price_attestation validate_jupiter_source_binding source_key leb_ℤ ltb_ℤ
    verify_ed25519_instruction signed_bytes canonical_attestation_message
submitted-ok = refl

submit_price_attestation-IsSigned_example :
    (window : ℤ × ℤ) × (phase_window (round_in settling 0 0).account start ≡ Errors.ok window)
    × (contains (11 ∷ 12 ∷ 13 ∷ []) 11 ≡ true)
    × Some
        (IsSigned 11
          (message_of rt round_key (asset_key 0) (open_asset 0) 1 start report window.0 window.1))
        submit_ctx.instructions_sysvar
    × (submitted.attestor ≡ 11)
    × (submitted.median_price_q9 ≡ pos 100_000_000_000)
submit_price_attestation-IsSigned_example =
    submit_price_attestation-IsSigned rt (at 570) submit_ctx start report submitted-ok
