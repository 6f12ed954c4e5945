-- ===== src/Sessions/Invariant.antt =====
-- The two tables of src/application/services/session_manager.cpp mirror one another.
use my_messenger.Prelude.{
  ℕ, ◌≡◌, none, some, ℕ-eq, arith, nat_eq_iff, Option-cases, inl, inr, ◌==◌, if◌then◌else◌,
}
use my_messenger.Prelude.Bytes.{Bytes, Bytes-eq, bytes_eq_iff}
use my_messenger.Prelude.Dict.{lookup, lookup-insert, lookup-erase}
use my_messenger.Prelude.Result.{ok, err}
use my_messenger.Sessions.{
  SessionManager, no_sessions, bind, unbind, get_username, get_fd, user_not_found,
}

-- A descriptor has a name exactly when the name has that descriptor.
pub record IsMirror (s : SessionManager) : Type 0 where
  pub forth :
      (fd : ℕ) (n : Bytes) → lookup fd s.fd_to_name ≡ some n → lookup n s.name_to_fd ≡ some fd
  pub back :
      (n : Bytes) (fd : ℕ) → lookup n s.name_to_fd ≡ some fd → lookup fd s.fd_to_name ≡ some n

pub no_sessions-IsMirror : IsMirror no_sessions
unfolding lookup
no_sessions-IsMirror = record { forth = λ fd n h. cc; back = λ n fd h. cc }

-- Binding a free descriptor to a free name keeps the mirror.
pub bind-IsMirror :
    (fd : ℕ) (n : Bytes) (s : SessionManager)
    → IsMirror s
    → lookup fd s.fd_to_name ≡ none
    → lookup n s.name_to_fd ≡ none
    → IsMirror (bind fd n s)
unfolding bind
bind-IsMirror fd n s v free unused = record {
  forth = λ fd' n' h. ground (
    arith,
    lookup-insert fd fd' n s.fd_to_name,
    lookup-insert n n' fd s.name_to_fd,
    v.forth fd' n',
    nat_eq_iff fd fd',
    bytes_eq_iff n n',
  );
  back = λ n' fd' h. ground (
    arith,
    lookup-insert fd fd' n s.fd_to_name,
    lookup-insert n n' fd s.name_to_fd,
    v.back n' fd',
    nat_eq_iff fd fd',
    bytes_eq_iff n n',
  );
}

pub unbind-IsMirror : (fd : ℕ) (s : SessionManager) → IsMirror s → IsMirror (unbind fd s)
unfolding unbind
unbind-IsMirror fd s v = record {
  forth = λ fd' n' h. elim (Option-cases (lookup fd s.fd_to_name)) [
    | inl e ↦ ground (arith, v.forth fd' n')
    | inr (n, e) ↦ ground (
      arith,
      lookup-erase fd fd' s.fd_to_name,
      lookup-erase n n' s.name_to_fd,
      v.forth fd' n',
      v.forth fd n,
      nat_eq_iff fd fd',
      bytes_eq_iff n n',
    )
  ];
  back = λ n' fd' h. elim (Option-cases (lookup fd s.fd_to_name)) [
    | inl e ↦ ground (arith, v.back n' fd')
    | inr (n, e) ↦ ground (
      arith,
      lookup-erase fd fd' s.fd_to_name,
      lookup-erase n n' s.name_to_fd,
      v.back n' fd',
      v.forth fd n,
      nat_eq_iff fd fd',
      bytes_eq_iff n n',
    )
  ];
}

-- After a binding both tables answer for it, and for every other name and descriptor as before.
pub get-bind :
    (fd fd' : ℕ) (n n' : Bytes) (s : SessionManager)
    → (get_username fd' (bind fd n s) ≡ (if fd == fd' then ok n else get_username fd' s))
      × (get_fd n' (bind fd n s) ≡ (if n == n' then ok fd else get_fd n' s))
unfolding bind get_username get_fd
get-bind fd fd' n n' s = (
  ground (arith, lookup-insert fd fd' n s.fd_to_name),
  ground (arith, lookup-insert n n' fd s.name_to_fd),
)

-- After unbinding a descriptor of mirrored tables that belongs to a name, neither it nor the name
-- is known, and all else is as before.
pub get-unbind :
    (fd fd' : ℕ) (n n' : Bytes) (s : SessionManager)
    → IsMirror s
    → get_username fd s ≡ ok n
    → (get_username fd' (unbind fd s)
        ≡ (if fd == fd' then err user_not_found else get_username fd' s))
      × (get_fd n' (unbind fd s) ≡ (if n == n' then err user_not_found else get_fd n' s))
unfolding unbind get_username get_fd
get-unbind fd fd' n n' s v h = (
  ground (arith, lookup-erase fd fd' s.fd_to_name),
  ground (arith, lookup-erase n n' s.name_to_fd),
)
