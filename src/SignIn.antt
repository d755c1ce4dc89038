-- ===== src/SignIn.antt =====
-- frontend/react-app/src/pages/public/Login.jsx, pages/public/Register.jsx and
-- pages/auth/AuthCallback.jsx: the three ways to a session. A handler runs from its click to its end,
-- as its button is disabled meanwhile; the server's answers are its arguments.
pub mod Landing
pub mod Tokens
pub mod Passwords
mod Tests
use Prim.Native.String.{String}
use hotel_ms.Common.{
  ℕ, zero, suc, ◌+◌, ◌==◌, leb, if◌then◌else◌, Bool, true, false, not, ◌&&◌, ◌||◌, List, [], ◌∷◌,
  ◌++◌, Option, none, some, Text, codes, truthy, same, starts_with, to_lower, trim, trim_start,
  drop, any, split, get_elem?, length,
}
use hotel_ms.Session.{
  Json, null, text, number, Obj, Codec, Session, Response, login_user, resolve, on_error,
}

-- The `detail` of a refusal: a sentence, or the messages of the validation errors.
pub data Detail : Type 0 where
  sentence : Text → Detail
  listed : List Text → Detail

-- The status and the data of a failed response; what is missing is empty.
pub record Refusal : Type 0 where
  pub status : Option ℕ
  pub detail : Detail
  pub details : List Text
  pub error : Text

pub data Answer : Type 0 where
  accepted : Text → Answer
  refused : Refusal → Answer

abbrev pub stated : Detail → Bool
stated (sentence t) = truthy t
stated (listed ts) = true

-- `.replace(/^Value error,\s*/i, "")`
unfoldable pub strip_value_error : Text → Text
strip_value_error t =
    if starts_with (codes "value error,") (to_lower t) then trim_start (drop 12 t) else t

abbrev pub first_message : List Text → Text
first_message [] = []
first_message (t ∷ ts) = strip_value_error t

abbrev pub or_else : Text → Text → Text
or_else s t = if truthy s then s else t

-- What `setError` gets when the login fails.
unfoldable pub login_error : Refusal → Detail
login_error f =
    if stated f.detail
    then f.detail
    else sentence (
        or_else (first_message f.details)
          (or_else f.error (codes "Invalid email or password. Please try again.")))

-- What `setError` gets in the catch block for an exception that is no response.
abbrev pub exception : Refusal
exception = record { status = none; detail = sentence []; details = []; error = [] }

-- `loginUser(token)`, up to the end of its request for the profile.
unfoldable pub signed_in : Codec → Text → Response → Session → Session
signed_in codec token profile s =
    resolve codec (length s.pending) profile (login_user codec token s)

-- `JSON.parse(atob(token.split(".")[1]))`, which throws where `none` stands.
unfoldable pub payload : Codec → Text → Option Obj
payload codec token = elim (get_elem? (split 46 token) 1) [
  | none ↦ none
  | some part ↦ elim (codec.atob part) [ none ↦ none | some s ↦ codec.parse s ]
]

abbrev pub role_is : String → Option Json → Bool
role_is name none = false
role_is name (some null) = false
role_is name (some (number n)) = false
role_is name (some (text t)) = same t (codes name)

unfoldable pub landing_of : Option Json → Text
landing_of r =
    if role_is "super_admin" r || role_is "hotel_admin" r
    then codes "/admin/dashboard"
    else if role_is "staff" r
    then codes "/staff/bookings"
    else codes "/user/dashboard"

abbrev pub landing : Obj → Text
landing p = landing_of (p (codes "role"))

pub record Page : Type 0 where
  pub session : Session
  pub error : Detail
  pub loading : Bool
  pub navigates : Option Text

-- Login.jsx, `handleSubmit` behind the session's login.
unfoldable pub with_payload : Option Obj → Session → Page → Page
unfolding login_error
with_payload none u s = record s { session = u; error = login_error exception; loading = false }
with_payload (some p) u s = record s {
  session = u;
  error = sentence [];
  loading = false;
  navigates = some (landing p);
}

-- `handleSubmit`. A refused request passes the interceptor.
unfoldable pub handle_login : Codec → Answer → Response → Page → Page
unfolding login_error with_payload on_error
handle_login codec (refused f) profile s = record s {
  session = on_error f.status s.session;
  error = login_error f;
  loading = false;
}
handle_login codec (accepted token) profile s =
    with_payload (payload codec token) (signed_in codec token profile s.session) s

-- Login.jsx: the message behind a failed sign-in with Google.
unfoldable pub google_error : Option Text → Text → Option Detail
google_error none detail = none
google_error (some code) detail =
    if same code (codes "google_failed")
    then some (
        sentence (
          if truthy detail
          then codes "Google sign-in failed: " ++ detail
          else codes "Google sign-in failed. Please try again or use email and password."))
    else if same code (codes "no_code")
    then some (sentence (codes "Google sign-in was cancelled."))
    else none

-- AuthCallback.jsx, `handleCallback`, of a page that has not been left. `encodeURIComponent` is the
-- browser's.
module _ (encode : Text → Text) where
  abbrev pub google_failed : Text → Text
  google_failed detail =
      let msg = if truthy detail then encode detail else [] in
      if truthy msg
      then codes "/login?error=google_failed&detail=" ++ msg
      else codes "/login?error=google_failed"

  -- A list of objects as a text.
  abbrev pub objects : List Text → Text
  objects [] = []
  objects (t ∷ []) = codes "[object Object]"
  objects (t ∷ u ∷ us) = codes "[object Object]," ++ objects (u ∷ us)

  abbrev pub detail_text : Detail → Text
  detail_text (sentence t) = t
  detail_text (listed ts) = objects ts

  unfoldable pub handle_callback :
      Codec → Option Text → Answer → Response → Session → Session × Text
  unfolding signed_in payload on_error
  handle_callback codec none a profile s = (s, codes "/login?error=no_code")
  handle_callback codec (some code) (refused f) profile s =
      (on_error f.status s, google_failed (detail_text f.detail))
  handle_callback codec (some code) (accepted token) profile s =
      let u = signed_in codec token profile s in
      elim (payload codec token) [ none ↦ (u, google_failed []) | some p ↦ (u, landing p) ]

-- Register.jsx.
pub record Form : Type 0 where
  pub first_name : Text
  pub last_name : Text
  pub email : Text
  pub password : Text
  pub confirm_password : Text
  pub agreed : Bool

abbrev is_upper : ℕ → Bool
is_upper c = leb 65 c && leb c 90

abbrev is_lower : ℕ → Bool
is_lower c = leb 97 c && leb c 122

abbrev is_number : ℕ → Bool
is_number c = leb 48 c && leb c 57

abbrev pub one : Bool → ℕ
one b = if b then 1 else 0

-- The score of `PasswordStrength`.
unfoldable pub score : Text → ℕ
score p =
    one (leb 8 (length p))
    + one (any is_upper p)
    + one (any is_number p)
    + one (any (λ c. not (is_upper c || (is_lower c || is_number c))) p)

abbrev pub special_chars : Text
special_chars = codes "!@#$%^&*()_+-=[]{}|;:,.<>?"

unfoldable pub has_special : Text → Bool
has_special p = any (λ c. any (λ d. d == c) special_chars) p

-- `parseBackendError`
unfoldable pub parse_backend_error : Refusal → Text → Detail
parse_backend_error f fallback =
    if stated f.detail
    then elim f.detail [
      | sentence t ↦ sentence t
      | listed ts ↦ sentence (elim ts [ [] ↦ [] | t ∷ rest ↦ t ])
    ]
    else sentence (elim f.details [ t ∷ ts ↦ strip_value_error t | [] ↦ or_else f.error fallback ])

-- What the form asks the server to do.
pub data Call : Type 0 where
  registers : Text → Text → Text → Call
  logs_in : Text → Text → Call

pub record Outcome : Type 0 where
  pub page : Page
  pub calls : List Call

abbrev pub stopped : String → Page → Outcome
stopped message s = record { page = record s { error = sentence (codes message) }; calls = [] }

abbrev pub failed_text : Text
failed_text = codes "Registration failed. Please try again."

abbrev pub full_name : Form → Text
full_name f = trim (f.first_name ++ 32 ∷ f.last_name)

-- The requests, up to the first that fails, whose error passes the interceptor. `none` stands for an account that is created.
unfoldable pub register_calls : Codec → Form → Option Refusal → Answer → Response → Page → Outcome
unfolding signed_in parse_backend_error on_error
register_calls codec f (some r) a profile s = record {
  page = record s {
    session = on_error r.status s.session;
    error = parse_backend_error r failed_text;
    loading = false;
  };
  calls = registers (full_name f) f.email f.password ∷ [];
}
register_calls codec f none (refused r) profile s = record {
  page = record s {
    session = on_error r.status s.session;
    error = parse_backend_error r failed_text;
    loading = false;
  };
  calls = registers (full_name f) f.email f.password ∷ logs_in f.email f.password ∷ [];
}
register_calls codec f none (accepted token) profile s = record {
  page = record s {
    session = signed_in codec token profile s.session;
    error = sentence [];
    loading = false;
    navigates = some (codes "/user/dashboard");
  };
  calls = registers (full_name f) f.email f.password ∷ logs_in f.email f.password ∷ [];
}

unfoldable pub handle_register : Codec → Form → Option Refusal → Answer → Response → Page → Outcome
unfolding has_special register_calls
handle_register codec f r a profile s =
    if not (same f.password f.confirm_password)
    then stopped "Passwords do not match." s
    else if not (has_special f.password)
    then stopped "Password must include at least one special character (e.g. !@#$%)." s
    else if not f.agreed
    then stopped "Please accept the Terms and Privacy Policy to continue." s
    else register_calls codec f r a profile s
