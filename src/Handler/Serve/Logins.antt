-- ===== src/Handler/Serve/Logins.antt =====
-- requireBasicAuth of internal/server/handler.go: whom it lets in, and how it refuses the others.
use go_contactd.Prelude.{
  ℕ, Bytes, Bool, true, false, List, [], ◌∷◌, Option, none, some, ◌≡◌, refl, arith, ◌⊎◌, inl, inr,
  if◌then◌else◌, Bool-cases, ltb, length, lit,
}
use go_contactd.Strings.Paths.{is_empty, contains_byte}
use go_contactd.Store.Exec.{Exec}
use go_contactd.Store.Exec
use go_contactd.Sync.Service.{State}
use go_contactd.Handler.Http.{HttpRequest, HttpResponse, Outcome, ok, stop, ◌>>=◌, error_response}
use go_contactd.Handler.Serve.{
  require_basic_auth, check_headers, credentials, on_conn, principal_of, basic_challenge,
}

-- The statuses of a refused login.
abbrev pub Refused : ℕ → Type 0
Refused status = (status ≡ 400) ⊎ (status ≡ 401) ⊎ (status ≡ 431) ⊎ (status ≡ 500)

abbrev pub context_of : Bytes → Option Bytes
context_of who = if is_empty who then none else some who

-- What the answer of a login was.
pub data Login (authenticate : Bytes → Bytes → Exec (Bytes × Bool)) (r : HttpRequest) (s : State)
    : Outcome HttpResponse (Option Bytes) × State → Type 0 where
  refused :
      (resp : HttpResponse) (s' : State)
      → Refused resp.status
      → Login authenticate r s (stop resp, s')
  accepted :
      (username password who : Bytes) (s' : State)
      → r.basic_auth ≡ some (username, password)
      → (authenticate username password s.conn).0 ≡ Exec.ok (who, true)
      → Login authenticate r s (ok (context_of who), s')

module _ (authenticate : Bytes → Bytes → Exec (Bytes × Bool)) (r : HttpRequest) where
  answered :
      (username password : Bytes) (s s' : State) (answer : Exec.Result (Bytes × Bool))
      → r.basic_auth ≡ some (username, password)
      → (authenticate username password s.conn).0 ≡ answer
      → Login authenticate r s (principal_of answer s')
  unfolding error_response basic_challenge
  answered u p s s' (Exec.err e) b a = refused _ s' (ground arith)
  answered u p s s' (Exec.ok (who, false)) b a = refused _ s' (ground arith)
  answered u p s s' (Exec.ok ([], true)) b a = accepted u p [] s' b a
  answered u p s s' (Exec.ok (c ∷ who, true)) b a = accepted u p (c ∷ who) s' b a

  with_credentials :
      (s : State) (given : Option (Bytes × Bytes))
      → r.basic_auth ≡ given
      → Login authenticate r s
          ((credentials given >>= λ who. on_conn (authenticate who.0 who.1) >>= principal_of) s)
  unfolding error_response basic_challenge
  with_credentials s none b = refused _ s (ground arith)
  with_credentials s (some (u, p)) b = answered u p s _ _ b refl

check_headers-cases :
    (values : List Bytes) (s : State)
    → (check_headers values s ≡ (ok tt, s))
      ⊎ ((resp : HttpResponse) × (check_headers values s ≡ (stop resp, s)) × Refused resp.status)
unfolding error_response
check_headers-cases [] s = inl refl
check_headers-cases (value ∷ []) s = elim (Bool-cases (contains_byte 44 value)) [
  | inl comma ↦
      inr (error_response (lit "invalid authorization header") 400, rw comma refl, inl refl)
  | inr single ↦ elim (Bool-cases (ltb 8192 (length value))) [
    | inl large ↦ inr (
      error_response (lit "authorization header too large") 431,
      rw (single, large) refl,
      ground arith,
    )
    | inr small ↦ inl (rw (single, small) refl)
  ]
]
check_headers-cases (value ∷ other ∷ values) s = inr (_, refl, ground arith)

module _ (authenticate : Bytes → Bytes → Exec (Bytes × Bool)) (r : HttpRequest) (s : State) where
  pub require_basic_auth-Login : Login authenticate r s (require_basic_auth authenticate r s)
  unfolding require_basic_auth
  require_basic_auth-Login = elim (check_headers-cases r.authorization s) [
    | inl passed ↦ rw passed (with_credentials authenticate r s r.basic_auth refl)
    | inr (resp, halted, bad) ↦ rw halted (refused resp s bad)
  ]
