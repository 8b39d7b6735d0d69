-- ===== src/Shortener/Domain/Errors.antt =====
-- The error types of url-shortener/src/domain/mod.rs.
use hicho.Common.{Bytes}

-- `Box<dyn Error>`: its message
abbrev pub BoxedError : Type 0
BoxedError = Bytes

pub data ValidationError : Type 0 where
  code_length code_charset url_too_long url_invalid url_scheme : ValidationError

pub data RepoError : Type 0 where
  conflict : RepoError
  backend : BoxedError → RepoError
