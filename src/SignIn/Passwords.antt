-- ===== src/SignIn/Passwords.antt =====
-- Register.jsx: the checks of the form.
use hotel_ms.Common.{
  ◌≡◌, if◌then◌else◌, Bool, true, false, not, ◌&&◌, List, [], ◌∷◌, Option, none, some, codes, same,
  arith,
}
use hotel_ms.Session.{Codec, Response}
use hotel_ms.SignIn.{
  Page, Form, Refusal, Answer, accepted, refused, sentence, handle_register, register_calls,
  has_special, score, full_name, registers, logs_in, Call,
}

-- What the form asks for before it sends anything.
abbrev pub ready : Form → Bool
ready f = same f.password f.confirm_password && (has_special f.password && f.agreed)

abbrev pub no_calls : List Call → Bool
no_calls [] = true
no_calls (c ∷ cs) = false

abbrev pub created : Option Refusal → Answer → Bool
created none (accepted token) = true
created none (refused r) = false
created (some r) a = false

-- A registration sends its requests exactly if the two passwords agree, the password has one of the
-- special characters and the terms are accepted; it leads to the dashboard exactly if, besides, the
-- account is created and its login accepted.
pub handle_register_lem :
    (codec : Codec) (f : Form) (r : Option Refusal) (a : Answer) (profile : Response) (s : Page)
    → s.navigates ≡ none
    → let o = handle_register codec f r a profile s in
      (no_calls o.calls ≡ not (ready f))
      × (o.page.navigates
          ≡ (if ready f && created r a then some (codes "/user/dashboard") else none))
unfolding handle_register register_calls
handle_register_lem codec f (some x) a profile s e = (ground arith, ground (arith, e))
handle_register_lem codec f none (refused x) profile s e = (ground arith, ground (arith, e))
handle_register_lem codec f none (accepted token) profile s e = (ground arith, ground (arith, e))

-- A strong password is refused: all four marks of strength do not help a password whose only symbols
-- are none of the special characters of the form, and nothing is sent.
pub strong_password_refused :
    (codec : Codec) (f : Form) (r : Option Refusal) (a : Answer) (profile : Response) (s : Page)
    → same f.password f.confirm_password ≡ true
    → score f.password ≡ 4
    → has_special f.password ≡ false
    → let o = handle_register codec f r a profile s in
      (o.calls ≡ [])
      × (o.page.error
          ≡ sentence (codes "Password must include at least one special character (e.g. !@#$%)."))
unfolding handle_register
strong_password_refused codec f r a profile s m k h = (ground (arith, m, h), ground (arith, m, h))

-- An account that exists is reported as a failed registration: the account is created, its login fails,
-- and the form stays with the error of the login.
pub created_but_failed :
    (codec : Codec) (f : Form) (x : Refusal) (profile : Response) (s : Page)
    → ready f ≡ true
    → let o = handle_register codec f none (refused x) profile s in
      (o.calls ≡ registers (full_name f) f.email f.password ∷ logs_in f.email f.password ∷ [])
      × (o.page.navigates ≡ s.navigates)
unfolding handle_register register_calls
created_but_failed codec f x profile s h = (ground (arith, h), ground (arith, h))
