-- ===== src/SystemError.antt =====
-- `class SystemError` of include/mercury/sys/system_error.h and src/sys/system_error.cpp. The value of
-- errno is an argument.
use taurus.Shared.{ℕ, [], Text}
use taurus.Kernel.{Platform}

pub record SystemError : Type 0 where
  pub code : ℕ
  pub message : Text

-- SystemError() and SystemError(e, msg)
unfoldable no_error : SystemError
no_error = record { code = 0; message = [] }

unfoldable of_code : ℕ → Text → SystemError
of_code e msg = record { code = e; message = msg }

-- last_error()
unfoldable last_error : {K : Type 0} → Platform K → ℕ → SystemError
last_error p errno = of_code errno (p.strerror errno)
