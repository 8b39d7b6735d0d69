-- ===== src/Pastebin/Domain/Errors.antt =====
-- The error types of pastebin-service/src/domain/mod.rs.
use hicho.Common.{Bytes}

-- `Box<dyn Error>`: its message
abbrev pub BoxedError : Type 0
BoxedError = Bytes

pub data ValidationError : Type 0 where
  id_length id_charset content_empty content_too_large : ValidationError

pub data RepoError : Type 0 where
  conflict : RepoError
  backend : BoxedError → RepoError
