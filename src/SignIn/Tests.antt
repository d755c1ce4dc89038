-- ===== src/SignIn/Tests.antt =====
-- The forms on concrete inputs, and the theorems applied to them.
use hotel_ms.Common.{
  ◌≡◌, ◌==◌, refl, if◌then◌else◌, true, false, [], ◌∷◌, none, some, codes, same, any,
}
use hotel_ms.Session.{text, Obj, Codec, ok, provider, decode_jwt, spread}
use hotel_ms.Session.Routes.{shows}
use hotel_ms.SignIn.{
  Page, Form, sentence, listed, accepted, handle_login, handle_register, payload, landing,
  strip_value_error, score, has_special, parse_backend_error,
}
use hotel_ms.SignIn.Landing.{visit, login_opens_home}
use hotel_ms.SignIn.Tokens.{error_while_signed_in}
use hotel_ms.SignIn.Passwords.{no_calls, handle_register_lem}

abbrev claims : Obj
claims key = if same key (codes "role") then some (text (codes "staff")) else none

abbrev no_fields : Obj
no_fields key = none

-- Base64 has no `-`; every text that decodes is the same object.
abbrev toy : Codec
toy = record {
  parse = λ t. some claims;
  stringify = λ o. codes "{}";
  atob = λ t. if any (λ c. c == 45) t then none else some t;
}

abbrev login_page : Page
login_page = record {
  session =
      record (provider (record { access_token = none; refresh_token = none; profile_cache = none })
        (codes "/login")) { is_loading = false };
  error = sentence [];
  loading = false;
  navigates = none;
}

strip_value_error-error : strip_value_error (codes "Value error,  Too short") ≡ codes "Too short"
unfolding strip_value_error
strip_value_error-error = refl

parse_backend_error-listed :
    parse_backend_error
      (record { status = some 422; detail = listed (codes "bad" ∷ []); details = []; error = [] })
      (codes "no")
    ≡ sentence (codes "bad")
unfolding parse_backend_error
parse_backend_error-listed = refl

payload-plain : payload toy (codes "h.body.s") ≡ some claims
unfolding payload
payload-plain = refl

decode_jwt-plain : decode_jwt toy (codes "h.body.s") ≡ some claims
unfolding decode_jwt
decode_jwt-plain = refl

role-claims : spread claims no_fields (codes "role") ≡ some (text (codes "staff"))
unfolding spread
role-claims = refl

login_opens_home_example :
    let t = handle_login toy (accepted (codes "h.body.s")) (ok no_fields) login_page in
    (t.navigates ≡ some (landing claims))
    × (visit (landing claims) t.session ≡ shows (codes "AssignedBookings"))
login_opens_home_example =
    login_opens_home toy (codes "h.body.s") (codes "staff") claims no_fields login_page refl
      payload-plain decode_jwt-plain refl role-claims refl refl

decode_jwt-dashed : decode_jwt toy (codes "h.bo-dy.s") ≡ some claims
unfolding decode_jwt
decode_jwt-dashed = refl

payload-dashed : payload toy (codes "h.bo-dy.s") ≡ none
unfolding payload
payload-dashed = refl

error_while_signed_in_example :
    let t = handle_login toy (accepted (codes "h.bo-dy.s")) (ok no_fields) login_page in
    (t.error ≡ sentence (codes "Invalid email or password. Please try again."))
    × (t.navigates ≡ none)
    × (t.session.token ≡ some (codes "h.bo-dy.s"))
    × (t.session.jwt_data ≡ some claims)
    × (t.session.storage.access_token ≡ some (codes "h.bo-dy.s"))
error_while_signed_in_example =
    error_while_signed_in toy (codes "h.bo-dy.s") claims no_fields login_page decode_jwt-dashed
      payload-dashed

abbrev filled : Form
filled = record {
  first_name = codes "Lola";
  last_name = codes "K";
  email = codes "lola@x.uz";
  password = codes "Passw0rd~";
  confirm_password = codes "Passw0rd~";
  agreed = true;
}

handle_register_lem_example :
    let o =
      handle_register toy
        (record filled { password = codes "a!"; confirm_password = codes "a!" })
        none
        (accepted (codes "h.body.s"))
        (ok no_fields)
        login_page in
    (no_calls o.calls ≡ false) × (o.page.navigates ≡ some (codes "/user/dashboard"))
unfolding has_special
handle_register_lem_example =
    handle_register_lem toy (record filled { password = codes "a!"; confirm_password = codes "a!" })
      none (accepted (codes "h.body.s")) (ok no_fields) login_page refl

score-strong : score (codes "Passw0rd~") ≡ 4
unfolding score
score-strong = refl

no_special : has_special (codes "Passw0rd~") ≡ false
unfolding has_special
no_special = refl
