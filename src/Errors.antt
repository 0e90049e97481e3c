-- ===== src/Errors.antt =====
-- The exception handlers (backend/src/alpha/errors.py, `install_error_handlers`): what a client
-- sees of each exception.
use ctfnight.Base.{ℕ, Option, none, some, Error, Code}

pub record ErrorResponse : Type 0 where
  pub status_code : ℕ
  pub code : Code
  pub retry_after : Option ℕ

unfoldable pub respond : Error → ErrorResponse
respond (Error.api_error status code retry) = record {
  status_code = status;
  code = code;
  retry_after = retry;
}
respond Error.request_validation_error = record {
  status_code = 422;
  code = Code.validation_error;
  retry_after = none;
}
respond Error.operational_error = record {
  status_code = 503;
  code = Code.database_temporarily_unavailable;
  retry_after = some 1;
}
respond Error.password_work_busy = record {
  status_code = 503;
  code = Code.password_service_busy;
  retry_after = some 1;
}
respond Error.integrity_error = record {
  status_code = 500;
  code = Code.internal_error;
  retry_after = none;
}
respond Error.unexpected_error = record {
  status_code = 500;
  code = Code.internal_error;
  retry_after = none;
}
