-- ===== src/Sessions.antt =====
-- src/application/services/session_manager.cpp, and ServiceError of services_common.hpp. File
-- descriptors of connections are never negative.
pub mod Invariant
use my_messenger.Prelude.{ℕ, none, some, [], ℕ-eq}
use my_messenger.Prelude.Bytes.{Bytes, Bytes-eq}
use my_messenger.Prelude.Dict.{Dict, lookup, insert, erase}
use my_messenger.Prelude.Result.{Result, ok, err}

pub data ServiceError : Type 0 where
  user_not_found chat_not_found access_denied invalid_token already_exists already_member :
      ServiceError

abbrev pub ServiceResult {ℓ} : Type ℓ → Type ℓ
ServiceResult A = Result ServiceError A

pub record SessionManager : Type 0 where
  pub fd_to_name : Dict ℕ Bytes
  pub name_to_fd : Dict Bytes ℕ

abbrev pub no_sessions : SessionManager
no_sessions = record { fd_to_name = []; name_to_fd = [] }

unfoldable pub bind : ℕ → Bytes → SessionManager → SessionManager
bind fd username s = record {
  fd_to_name = insert fd username s.fd_to_name;
  name_to_fd = insert username fd s.name_to_fd;
}

unfoldable pub unbind : ℕ → SessionManager → SessionManager
unbind fd s = elim (lookup fd s.fd_to_name) [
  | none ↦ s
  | some username ↦ record {
    fd_to_name = erase fd s.fd_to_name;
    name_to_fd = erase username s.name_to_fd;
  }
]

unfoldable pub get_username : ℕ → SessionManager → ServiceResult Bytes
get_username fd s = elim (lookup fd s.fd_to_name) [
  | none ↦ err user_not_found
  | some username ↦ ok username
]

unfoldable pub get_fd : Bytes → SessionManager → ServiceResult ℕ
get_fd username s = elim (lookup username s.name_to_fd) [
  | none ↦ err user_not_found
  | some fd ↦ ok fd
]
