-- ===== src/Normalizers/Registry.antt =====
-- packages/normalizers/src/registry.ts: the normalizer that an exchange gets.
use tekrion.Prelude.{List, Result, find, Text, get_or_else, ◌>>=◌}
use tekrion.Storage.{StorageError}
use tekrion.Normalizers.Contracts.{
  NormalizationExchange, NormalizationOptions, NormalizationResult, ExchangeNormalizer,
}
use tekrion.Normalizers.Diagnostics.{SummaryText, append_diagnostic_evidence}

pub record NormalizerRegistry : Type 0 where
  pub normalizers : List ExchangeNormalizer
  pub fallback : ExchangeNormalizer

unfoldable pub normalizer_for : NormalizerRegistry → NormalizationExchange → ExchangeNormalizer
normalizer_for registry exchange =
    get_or_else (find (λ candidate. candidate.supports exchange) registry.normalizers)
      registry.fallback

unfoldable pub normalize :
    SummaryText
    → (digest : Text → Text) → NormalizerRegistry
    → NormalizationExchange
    → NormalizationOptions
    → Result StorageError NormalizationResult
unfolding normalizer_for append_diagnostic_evidence
normalize json digest registry exchange options =
    (normalizer_for registry exchange).normalize exchange options >>= λ result.
    append_diagnostic_evidence json digest exchange result options
