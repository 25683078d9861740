-- ===== src/State/Errors.antt =====
-- The errors of `src/state-gateway.ts` and how it maps those of the two ledgers. Messages are left
-- out.
use quantpro_collector.Prelude.{ℕ, Bool, true, false, not, ◌&&◌, Option, none, some, ◌==◌}

pub data StateGatewayPhase : Type 0 where
  auth validate read reconcile write readback : StateGatewayPhase

pub data StateGatewayErrorCode : Type 0 where
  state_forbidden state_validation_failed state_conflict state_chain_mismatch state_unavailable
        state_outcome_unknown state_readback_failed :
      StateGatewayErrorCode

pub record StateGatewayError : Type 0 where
  pub code : StateGatewayErrorCode
  pub phase : StateGatewayPhase
  pub retryable : Bool
  pub http_status : Option ℕ

pub data MarketErrorCode : Type 0 where
  checkpoint_conflict checkpoint_chain_mismatch checkpoint_validation_failed
        checkpoint_readback_failed other_checkpoint :
      MarketErrorCode

pub data InvestmentErrorCode : Type 0 where
  ledger_validation_failed ledger_event_id_conflict ledger_readback_failed other_ledger :
      InvestmentErrorCode

-- what a validation or an append throws
pub data DomainError : Type 0 where
  gateway : StateGatewayError → DomainError
  market_ledger : MarketErrorCode → (http_status : Option ℕ) → DomainError
  investment_ledger : InvestmentErrorCode → (http_status : Option ℕ) → DomainError
  unexpected : DomainError

-- `new StateGatewayError` of a validation, which is never retryable
abbrev pub refusal : StateGatewayErrorCode → StateGatewayError
refusal code = record {
  code = code;
  phase = StateGatewayPhase.validate;
  retryable = false;
  http_status = none;
}

-- neither 401 nor 403
abbrev pub not_denied : Option ℕ → Bool
not_denied none = true
not_denied (some n) = not (n == 401) && not (n == 403)

abbrev unknown : Option ℕ → StateGatewayError
unknown http = record {
  code = state_outcome_unknown;
  phase = StateGatewayPhase.write;
  retryable = not_denied http;
  http_status = http;
}

abbrev unread : Option ℕ → StateGatewayError
unread http = record {
  code = state_readback_failed;
  phase = readback;
  retryable = true;
  http_status = http;
}

-- `mapDomainError`
unfoldable pub map_domain_error : DomainError → StateGatewayError
map_domain_error (gateway e) = e
map_domain_error (market_ledger checkpoint_conflict http) = refusal state_conflict
map_domain_error (market_ledger checkpoint_chain_mismatch http) = refusal state_chain_mismatch
map_domain_error (market_ledger checkpoint_validation_failed http) = refusal state_validation_failed
map_domain_error (market_ledger checkpoint_readback_failed http) = unread http
map_domain_error (market_ledger other_checkpoint http) = unknown http
map_domain_error (investment_ledger ledger_validation_failed http) = refusal state_validation_failed
map_domain_error (investment_ledger ledger_event_id_conflict http) = refusal state_conflict
map_domain_error (investment_ledger ledger_readback_failed http) = unread http
map_domain_error (investment_ledger other_ledger http) = unknown http
map_domain_error unexpected = record {
  code = state_unavailable;
  phase = StateGatewayPhase.write;
  retryable = true;
  http_status = none;
}
