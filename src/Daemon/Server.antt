-- ===== src/Daemon/Server.antt =====
-- The handler that internal/daemon/daemon.go serves: its login over the store, with the cap on
-- concurrent logins and the delay of a failed one, and its options.
pub mod ReadOnly
pub mod Logins
pub mod Tenants
use go_contactd.Prelude.{ℕ, ◌==◌, Bytes, Bool, true, false, [], some, if◌then◌else◌}
use go_contactd.Store.Exec.{driver_failed, Exec, raise, pure, ◌>>=◌, ready}
use go_contactd.Store.Users.{Comparison, authenticate_user}
use go_contactd.Handler.Http.{HandlerOptions, new_handler}
use go_contactd.Daemon.{ServeConfig}

-- A login: the principal, and whether it is one.
abbrev pub Login : Type 0
Login = Bytes → Bytes → Exec (Bytes × Bool)

-- `cancelled` is whether the request is cancelled while it waits.
unfoldable pub wrap_authenticate_with_concurrency_cap : ℕ → (cancelled : Bool) → Login → Login
wrap_authenticate_with_concurrency_cap limit cancelled next username password =
    if limit == 0
    then next username password
    else if cancelled
    then raise driver_failed
    else next username password

abbrev delayed : (cancelled : Bool) → Bytes × Bool → Exec (Bytes × Bool)
delayed cancelled (user, ok) =
    if ok then pure (user, ok) else if cancelled then raise driver_failed else pure (user, ok)

unfoldable pub wrap_authenticate_with_failure_delay : ℕ → (cancelled : Bool) → Login → Login
wrap_authenticate_with_failure_delay delay cancelled next username password =
    if delay == 0 then next username password else next username password >>= delayed cancelled

module _ (compare : Bytes → Bytes → Comparison) where
  unfoldable pub authenticate : Login
  authenticate username password = do
    (ok, id) ← authenticate_user compare username password
    if ok then pure (username, true) else pure ([], false)

  -- The options that serve passes to NewHandler, and the handler's.
  unfoldable pub handler_options : ServeConfig → (cancelled : Bool) → HandlerOptions
  handler_options cfg cancelled = new_handler (record {
    ready_check = some ready;
    authenticate = some (
        wrap_authenticate_with_failure_delay cfg.auth_fail_delay cancelled
          (wrap_authenticate_with_concurrency_cap cfg.auth_max_concurrency cancelled authenticate));
    has_sync = true;
    enable_addressbook_color = cfg.enable_addressbook_color;
    base_url = cfg.base_url;
    request_max_bytes = cfg.request_max_bytes;
    vcard_max_bytes = cfg.vcard_max_bytes;
    report_max_response_bytes = 0;
  })
