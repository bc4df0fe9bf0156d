-- ===== src/Domain/Errors.antt =====
-- crates/tiny-mite-domain/src/error.rs: the error taxonomy and the retry policy that it implies.
use tiny_mite.Prelude.{String, Option, some, none}

pub data ErrorCategory : Type 0 where
  invalid_input not_found unauthorized transient permanent : ErrorCategory
  timeout cancelled upstream internal : ErrorCategory

pub data RetryPolicy : Type 0 where
  retryable non_retryable cancelled : RetryPolicy

-- `impl From<ErrorCategory> for RetryPolicy`.
unfoldable pub retry_of : ErrorCategory → RetryPolicy
retry_of ErrorCategory.transient = RetryPolicy.retryable
retry_of ErrorCategory.timeout = RetryPolicy.retryable
retry_of ErrorCategory.cancelled = RetryPolicy.cancelled
retry_of _ = RetryPolicy.non_retryable

-- `Cid` is the type of correlation identifiers, `Source` that of boxed source errors.
pub record DomainError (Cid Source : Type 0) : Type 0 where
  pub category : ErrorCategory
  pub retry : RetryPolicy
  pub correlation_id : Option Cid
  pub message : String
  pub user_action : Option String
  pub source : Option Source

module _ {Cid Source : Type 0} where
  unfoldable pub domain_error : ErrorCategory → String → DomainError Cid Source
  unfolding retry_of
  domain_error category message = record {
    category = category;
    retry = retry_of category;
    correlation_id = none;
    message = message;
    user_action = none;
    source = none;
  }

  unfoldable pub with_correlation : DomainError Cid Source → Cid → DomainError Cid Source
  with_correlation e cid = record e { correlation_id = some cid }

  unfoldable pub with_user_action : DomainError Cid Source → String → DomainError Cid Source
  with_user_action e action = record e { user_action = some action }

  unfoldable pub with_source : DomainError Cid Source → Source → DomainError Cid Source
  with_source e s = record e { source = some s }
