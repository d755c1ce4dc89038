-- ===== src/SignIn/Tokens.antt =====
-- Login.jsx: a token that the session can read and the page cannot.
use hotel_ms.Common.{◌≡◌, ap, ◌∙◌, none, some, Text, codes}
use hotel_ms.Session.{Obj, Codec, Session, ok, fetched, received, complete, login_user, decode_jwt}
use hotel_ms.SignIn.{
  Page, sentence, accepted, handle_login, with_payload, signed_in, payload, login_error,
}
use hotel_ms.SignIn.Landing.{signed_in-complete}

-- An error is shown to a user who is signed in: where the session decodes the token, but its plain
-- base64 reading fails, as it does for a `-` or `_` in it, the login ends with the message for a wrong
-- password and stays on its page, with the token in the session and in the storage.
pub error_while_signed_in :
    (codec : Codec) (token : Text) (p q : Obj) (s : Page)
    → decode_jwt codec token ≡ some p
    → payload codec token ≡ none
    → let t = handle_login codec (accepted token) (ok q) s in
      (t.error ≡ sentence (codes "Invalid email or password. Please try again."))
      × (t.navigates ≡ s.navigates)
      × (t.session.token ≡ some token)
      × (t.session.jwt_data ≡ some p)
      × (t.session.storage.access_token ≡ some token)
unfolding handle_login with_payload login_error complete fetched received login_user
error_while_signed_in codec token p q s d e =
    let u : Session = signed_in codec token (ok q) s.session in
    let page : handle_login codec (accepted token) (ok q) s ≡ with_payload none u s =
      ap (λ o. with_payload o u s) e in
    let fields = signed_in-complete codec token (ok q) s.session in
    (
      ap (λ t. t.error) page,
      ap (λ t. t.navigates) page,
      ap (λ t. t.session.token) page ∙ ap (λ v. v.token) fields,
      ap (λ t. t.session.jwt_data) page ∙ ap (λ v. v.jwt_data) fields ∙ d,
      ap (λ t. t.session.storage.access_token) page ∙ ap (λ v. v.storage.access_token) fields,
    )
